-- ===== src/Rpc/Service.antt =====
-- libqrexec/exec.c: `find_qrexec_service` after its search, with `qubes_tcp_connect`. What `socket`,
-- `connect`, `getaddrinfo` and `euidaccess` answer is a parameter.
pub mod Address
use qubes_core_qrexec.Prelude.{
  ℕ, ◌+◌, ◌-◌, ◌/◌, ◌%◌, Bool, true, false, not, ◌||◌, Option, none, some, [], ◌∷◌, ◌++◌, ◌==◌,
  if◌then◌else◌, length, take, drop, Bytes, codes, split_at, contains,
}
use qubes_core_qrexec.Rpc.Command.{ParsedCommand, rpc_request_command}
use qubes_core_qrexec.Rpc.Find.{
  link, socket, other, Found, found, absent, error, FileSystem, find_service, sockaddr_max,
}
use qubes_core_qrexec.Rpc.Port.{validate_port}
use qubes_core_qrexec.Io.Memory.{Buffer, Result, ok, buffer_append, then_do}

-- A connection is `none` where `socket` or `connect` fails, and for TCP also where `getaddrinfo`
-- does. The last argument for TCP is true where the hints have AF_INET6.
pub record Network : Type 0 where
  pub unix_connect : Bytes → Option ℕ
  pub tcp_connect : Bytes → Bytes → Bool → Option ℕ
  pub is_executable : Bytes → Bool

-- The results 0, with `cmd` and `socket_fd`, -1 and -2, after which `cmd` is not used for a service.
pub data ServiceRc : Type 0 where
  service : ParsedCommand → Option ℕ → ServiceRc
  not_found : ServiceRc
  failed : ServiceRc

abbrev pub must_be_ipv6_addr : Bytes → Bool
must_be_ipv6_addr host = contains b':' host || contains b'%' host

unfoldable pub qubes_tcp_connect : Network → Bytes → Bytes → Option ℕ
qubes_tcp_connect net host port =
    if not (validate_port port) then none else net.tcp_connect host port (must_be_ipv6_addr host)

-- What stands before and behind the last `c` of a string.
abbrev pub strrchr : ℕ → Bytes → Option (Bytes × Bytes)
strrchr c [] = none
strrchr c (x ∷ s) = elim (strrchr c s) [
  | none ↦ if x == c then some ([], s) else none
  | some (a, b) ↦ some (x ∷ a, b)
]

abbrev pub cons_to : ℕ → Option Bytes → Option Bytes
cons_to c none = none
cons_to c (some s) = some (c ∷ s)

-- ':' in the place of each '+'; `none` where there is a '_'.
abbrev pub host_from : Bytes → Option Bytes
host_from [] = some []
host_from (c ∷ s) =
    let rest = host_from s in
    if c == b'_' then none else cons_to (if c == b'+' then b':' else c) rest

-- The host and the port in the target of the link, behind "/dev/tcp", where `find_file` has a '/'
-- or the end.
abbrev pub in_link : Bytes → Option Bytes × Option Bytes
in_link [] = (none, none)
in_link (c ∷ s) = elim (split_at b'/' s) [
  | none ↦ (some s, none)
  | some (host, port) ↦ (some host, some port)
]

abbrev pub nonempty_arg : Option Bytes → Option Bytes
nonempty_arg none = none
nonempty_arg (some []) = none
nonempty_arg (some (c ∷ s)) = some (c ∷ s)

abbrev pub with_host : Bytes → Option Bytes → Option (Bytes × Bytes × Option Bytes)
with_host port none = none
with_host port (some host) = some (host, port, some host)

abbrev pub from_argument : Option (Bytes × Bytes) → Option (Bytes × Bytes × Option Bytes)
from_argument none = none
from_argument (some (host, port)) = with_host port (host_from host)

-- By the host and the port in the link, `cmd->arg`, and the same where it is not empty.
abbrev pub choose :
    Option Bytes
    → Option Bytes
    → Option Bytes
    → Option Bytes
    → Option (Bytes × Bytes × Option Bytes)
choose host none arg none = none
choose none none arg (some a) = from_argument (strrchr b'+' a)
choose (some h) none arg (some a) = some (h, a, arg)
choose none (some p) arg none = none
choose (some h) (some p) arg none = some (h, p, arg)
choose host (some p) arg (some a) = none

-- The host, the port, and what `cmd->arg` is afterwards.
unfoldable pub tcp_address :
    Option Bytes × Option Bytes → Option Bytes → Option (Bytes × Bytes × Option Bytes)
tcp_address (host, port) arg = choose host port arg (nonempty_arg arg)

-- `cmd->arg` is the end of `cmd->service_descriptor`, which changes with it.
abbrev pub replace_arg : Option Bytes → Option Bytes → Option Bytes → Option Bytes
replace_arg (some descriptor) (some old) (some arg) =
    some (take (length descriptor - length old) descriptor ++ arg)
replace_arg descriptor old arg = descriptor

abbrev pub with_arg : ParsedCommand → Option Bytes → ParsedCommand
with_arg cmd arg = record cmd {
  arg = arg;
  service_descriptor = replace_arg cmd.service_descriptor cmd.arg arg;
}

-- The part after "QUBESRPC ", with its NUL, into the buffer for stdin.
unfoldable pub send_descriptor : ParsedCommand → Buffer → ℕ → Result Buffer
send_descriptor cmd b total =
    if cmd.send_service_descriptor
    then buffer_append b (drop (length rpc_request_command + 1) cmd.command ++ (0 ∷ [])) total
    else ok b total

abbrev pub connected : ParsedCommand → Option ℕ → ServiceRc
connected cmd none = failed
connected cmd (some fd) = service cmd (some fd)

unfoldable pub unix_service : ParsedCommand → Option ℕ → Buffer → ℕ → Result (ServiceRc × Buffer)
unix_service cmd none b total = ok (failed, b) total
unix_service cmd (some fd) b total =
    then_do (send_descriptor cmd b total) (λ b' total'. ok (service cmd (some fd), b') total')

unfoldable pub tcp_service :
    Network
    → ParsedCommand
    → Option (Bytes × Bytes × Option Bytes)
    → Buffer
    → ℕ
    → Result (ServiceRc × Buffer)
tcp_service net cmd none b total = ok (failed, b) total
tcp_service net cmd (some (host, port, arg)) b total =
    then_do (send_descriptor cmd b total)
      (λ b' total'. ok (connected (with_arg cmd arg) (qubes_tcp_connect net host port), b') total')

unfoldable pub executable_service : Network → ParsedCommand → Bytes → ServiceRc
executable_service net cmd path =
    if net.is_executable path
    then service (record cmd { exit_on_stdin_eof = false; exit_on_stdout_eof = false }) none
    else failed

unfoldable pub found_service :
    Network → ParsedCommand → Found → Buffer → ℕ → Result (ServiceRc × Buffer)
found_service net cmd absent b total = ok (not_found, b) total
found_service net cmd error b total = ok (failed, b) total
found_service net cmd (found path socket) b total = unix_service cmd (net.unix_connect path) b total
found_service net cmd (found path link) b total =
    tcp_service net cmd (tcp_address (in_link (drop (length (codes "/dev/tcp")) path)) cmd.arg) b
      total
found_service net cmd (found path other) b total = ok (executable_service net cmd path, b) total

-- The descriptor and the name stand beside the command, which always has them here.
unfoldable pub find_qrexec_service :
    FileSystem
    → Bytes
    → Bytes
    → Bytes
    → Network
    → ParsedCommand
    → Buffer
    → ℕ
    → Result (ServiceRc × Buffer)
find_qrexec_service fs path_list descriptor name net cmd b total =
    found_service net cmd (find_service fs true sockaddr_max path_list descriptor name) b total
