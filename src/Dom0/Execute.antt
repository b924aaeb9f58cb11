-- ===== src/Dom0/Execute.antt =====
-- daemon/qrexec-daemon-common.c: `qrexec_execute_vm`, the execution of a command in a VM, which may
-- be started or created for it. What qubesd answers is a parameter.
pub mod Disposable
pub mod Said
pub mod Reached
pub mod Requests
pub mod Announce
use qubes_core_qrexec.Prelude.{
  decimal, ℕ, ◌+◌, ◌-◌, ◌/◌, Bool, true, false, not, ◌&&◌, ◌||◌, Option, none, some, List, [], ◌∷◌,
  ◌++◌, ltb, leb, if◌then◌else◌, length, drop, Bytes, codes, starts_with, c_string,
}
use qubes_core_qrexec.Protocol.{max_qrexec_cmd_len, msg_exec_cmdline, msg_just_exec}
use qubes_core_qrexec.Dom0.Link.{Link}
use qubes_core_qrexec.Dom0.Connect.{
  Attempt, missing, Socket, connected, not_running, no_socket, connect_unix_socket, Negotiated,
  granted, denied, asserts, negotiate_connection_params, send_service_connect,
}

-- The arguments; `cmd` has `service_length` bytes.
pub record Execution : Type 0 where
  pub target : Bytes
  pub autostart : Bool
  pub remote_domain_id : ℕ
  pub cmd : Bytes
  pub request_id : Bytes
  pub just_exec : Bool
  pub wait_connection_end : Bool

pub record World : Type 0 where
  pub socket_dir : Bytes
  -- The response of `qubesd_call` to a destination and a method, or NULL.
  pub qubesd : Bytes → Bytes → Option Bytes
  -- What the connections to come find, by the name in the path of the socket; where the list has
  -- ended there is no daemon.
  pub attempts : List (Bytes → Attempt)
  -- The calls of qubesd, and what was sent to which daemon.
  pub called : List (Bytes × Bytes)
  pub requests : List (Bytes × Bytes)

pub data Executed : Type 0 where
  returned : Bool → World → Executed
  aborted : World → Executed

abbrev pub create_disposable : Bytes
create_disposable = codes "admin.vm.CreateDisposable"

abbrev pub start_vm : Bytes
start_vm = codes "admin.vm.Start"

abbrev pub kill_vm : Bytes
kill_vm = codes "admin.vm.Kill"

abbrev pub dispvm_prefix : Bytes
dispvm_prefix = codes "@dispvm:"

-- The call and its record.
abbrev pub call_qubesd : Bytes → Bytes → World → World
call_qubesd dest method w = record w { called = w.called ++ ((dest, method) ∷ []) }

-- "0", and its NUL.
abbrev pub is_ok : Bytes → Bool
is_ok buf = starts_with (b'0' ∷ 0 ∷ []) buf

abbrev pub not_halted : Bytes
not_halted = b'2' ∷ 0 ∷ (codes "QubesVMNotHaltedError" ++ (0 ∷ []))

abbrev pub is_started : Bytes → Bool
is_started buf = is_ok buf || (leb 24 (length buf) && starts_with not_halted buf)

abbrev pub next_attempt : List (Bytes → Attempt) → Bytes → Attempt
next_attempt [] name = missing
next_attempt (find ∷ _) name = find name

abbrev pub later_attempts : List (Bytes → Attempt) → List (Bytes → Attempt)
later_attempts [] = []
later_attempts (_ ∷ rest) = rest

-- The socket of a daemon by the name or the identifier of its domain.
abbrev pub connect : Bytes → World → Socket × World
connect name w = (
  connect_unix_socket w.socket_dir name (next_attempt w.attempts name),
  record w { attempts = later_attempts w.attempts },
)

-- The label `kill`.
unfoldable pub kill_if : Bool → Bytes → World → World
kill_if true target w = call_qubesd target kill_vm w
kill_if false target w = w

abbrev pub sends_connect : Execution → ℕ → ℕ → Socket → Bool × Bytes
sends_connect x domain port (connected l) =
    let (ok, l') = send_service_connect x.request_id domain port l in
    (ok, drop (length l.sent) l'.sent)
sends_connect x domain port not_running = (false, [])
sends_connect x domain port no_socket = (false, [])

-- The domain and the port go to the daemon of the client; without a socket the write fails.
unfoldable pub announce : Execution → ℕ → ℕ → World → Bool × World
announce x domain port w =
    let (s, w1) = connect (decimal x.remote_domain_id []) w in
    let (ok, sent) = sends_connect x domain port s in
    (ok, record w1 { requests = w1.requests ++ ((decimal x.remote_domain_id [], sent) ∷ []) })

abbrev pub after_announce : Bool → Bytes → Bool × World → Executed
after_announce kills target (ok, w) = returned ok (kill_if kills target w)

abbrev pub request_type : Execution → ℕ
request_type x = if x.just_exec then msg_just_exec else msg_exec_cmdline

abbrev pub after_negotiation :
    Execution → Bool → Bool → Bytes → World → Negotiated × Link → Executed
after_negotiation x disposable waits target w (granted domain port, l) =
    after_announce (waits && disposable) target
      (announce x domain port (record w { requests = w.requests ++ ((target, l.sent) ∷ []) }))
after_negotiation x disposable waits target w (denied, l) =
    returned false (kill_if disposable target w)
after_negotiation x disposable waits target w (asserts, l) = aborted w

-- What was sent at the handshake is not part of the request.
abbrev pub without_sent : Link → Link
without_sent l = record l { sent = [] }

unfoldable pub with_socket : Execution → Bool → Bool → Bytes → Socket → World → Executed
with_socket x disposable waits target (connected l) w =
    after_negotiation x disposable waits target w
      (negotiate_connection_params x.remote_domain_id (request_type x) x.cmd (without_sent l))
with_socket x disposable waits target not_running w = returned false (kill_if disposable target w)
with_socket x disposable waits target no_socket w = returned false (kill_if disposable target w)

-- After admin.vm.Start. The function is left without the label `kill` where it does not succeed.
unfoldable pub after_start : Execution → Bool → Bool → Bytes → Option Bytes → World → Executed
after_start x disposable waits target none w = returned false w
after_start x disposable waits target (some buf) w =
    if not (is_started buf)
    then returned false w
    else (let (s, w1) = connect target w in with_socket x disposable waits target s w1)

unfoldable pub autostarts : Execution → Bool → Bool → Bytes → Socket → World → Executed
autostarts x disposable waits target not_running w =
    if x.autostart
    then after_start x disposable waits target (w.qubesd target start_vm)
        (call_qubesd target start_vm w)
    else with_socket x disposable waits target not_running w
autostarts x disposable waits target s w = with_socket x disposable waits target s w

-- After admin.vm.CreateDisposable.
unfoldable pub after_create : Execution → Option Bytes → World → Executed
after_create x none w = returned false w
after_create x (some buf) w =
    if is_ok buf
    then autostarts x true true (c_string (drop 2 buf)) not_running w
    else returned false w

unfoldable pub execute_disposable : Execution → World → Executed
execute_disposable x w =
    if not x.autostart
    then returned false w
    else if x.just_exec
    then returned false w
    else (let dest = drop (length dispvm_prefix) x.target in
        after_create x (w.qubesd dest create_disposable) (call_qubesd dest create_disposable w))

unfoldable pub execute_named : Execution → World → Executed
execute_named x w =
    let (s, w1) = connect x.target w in autostarts x false x.wait_connection_end x.target s w1

unfoldable pub qrexec_execute_vm : Execution → World → Executed
qrexec_execute_vm x w =
    if ltb (length x.cmd) 2 || ltb max_qrexec_cmd_len (length x.cmd)
    then returned false w
    else if starts_with dispvm_prefix x.target
    then execute_disposable x w
    else execute_named x w
