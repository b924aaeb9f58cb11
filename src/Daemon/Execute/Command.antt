-- ===== src/Daemon/Execute/Command.antt =====
-- The command line that the daemon builds, as `parse_qubes_rpc_command` of libqrexec reads it in
-- the agent of the target.
use qubes_core_qrexec.Prelude.{
  ℕ, ◌≤◌, ◌<◌, ◌≡◌, refl, ◌∙◌, ◌≢◌, inl, inr, true, false, Option, none, some, [], ◌∷◌, ◌++◌,
  append-nil, arith, ◌==◌, Bool-cases, length, length-append, Bytes, codes, split_at, contains,
  split_at-append, contains-append,
}
use qubes_core_qrexec.Protocol.{max_service_name_len}
use qubes_core_qrexec.Rpc.Command.{
  ParsedCommand, name_max, before, new_command, strip_user, strip_nogui, name_and_arg,
  parse_descriptor, parse_service, parse_stripped, parse_qubes_rpc_command,
}
use qubes_core_qrexec.Daemon.Execute.{trailer, vm_command}

-- What stands before the first `+`, and behind it.
abbrev pub name_of : Bytes → Bytes
name_of service = before b'+' service

abbrev pub argument_of : Bytes → Bytes
argument_of service = elim (split_at b'+' service) [ none ↦ [] | some (n, a) ↦ a ]

before_id : (c : ℕ) (s : Bytes) → contains c s ≡ false → before c s ≡ s
before_id c [] h = refl
before_id c (x ∷ s) h = ground (arith, before_id c s)

length-pos : (s : Bytes) → s ≢ [] → 0 < length s
length-pos [] ne = absurd (ne refl)
length-pos (c ∷ s) ne = omega arith

before-le : (s : Bytes) → length (name_of s) ≤ length s
before-le [] = omega arith
before-le (c ∷ s) = ground (arith, before-le s)

-- The part of a service call that the target's agent finds.
abbrev pub called : Bytes → Bytes → Bytes → Bytes → ParsedCommand
called cmdline user service source =
    record (new_command cmdline (some user)
      (codes "QUBESRPC " ++ ((service ++ trailer service) ++ (b' ' ∷ source)))) {
        service_name = some (name_of service);
        service_descriptor = some (service ++ trailer service);
        arg = some (argument_of service);
        source_domain = some source;
      }

-- A descriptor with its trailer splits into the name and the argument.
split_at-trailer :
    (service : Bytes)
    → split_at b'+' (service ++ trailer service) ≡ some (name_of service, argument_of service)
split_at-trailer [] = refl
split_at-trailer (c ∷ s) = elim (Bool-cases (c == b'+')) [
  | inl e ↦ rw e (ground (arith, append-nil s))
  | inr e ↦ rw e (ground (arith, split_at-trailer s))
]

pub name_and_arg-trailer :
    (service : Bytes)
    → name_and_arg (service ++ trailer service) ≡ (name_of service, some (argument_of service))
name_and_arg-trailer service = ground (arith, split_at-trailer service)

parse_descriptor-called :
    (cmd : ParsedCommand) (service source : Bytes)
    → length (service ++ trailer service) ≤ max_service_name_len
    → 1 ≤ length (name_of service)
    → length (name_of service) ≤ name_max
    → contains b' ' source ≡ false
    → source ≢ []
    → parse_descriptor cmd (service ++ trailer service) source
      ≡ some (record cmd {
        service_name = some (name_of service);
        service_descriptor = some (service ++ trailer service);
        arg = some (argument_of service);
        source_domain = some source;
      })
unfolding parse_descriptor
parse_descriptor-called cmd service source l n m sp ne = ground (
  arith,
  name_and_arg-trailer service,
  before_id b' ' source sp,
  length-pos source ne,
  before-le service,
  length-append service (trailer service),
)

contains-trailer :
    (service : Bytes)
    → contains b' ' service ≡ false
    → contains b' ' (service ++ trailer service) ≡ false
contains-trailer service h = ground (arith, contains-append b' ' service (trailer service))

parse_service-called :
    (cmd : ParsedCommand) (descriptor source : Bytes)
    → contains b' ' descriptor ≡ false
    → parse_service cmd (b' ' ∷ (descriptor ++ (b' ' ∷ source)))
      ≡ parse_descriptor cmd descriptor source
unfolding parse_service
parse_service-called cmd descriptor source h =
    ground (arith, split_at-append b' ' descriptor source h)

-- The command line without its user.
abbrev rest_of : Bytes → Bytes → Bytes
rest_of service source = codes "QUBESRPC " ++ ((service ++ trailer service) ++ (b' ' ∷ source))

strip-vm_command :
    (user service source : Bytes)
    → contains b':' user ≡ false
    → strip_user (vm_command user service source) true
      ≡ some (new_command (vm_command user service source) (some user) (rest_of service source))
unfolding strip_user vm_command
strip-vm_command user service source h =
    rw (split_at-append b':' user (rest_of service source) h, strip_user)

parse_stripped-called :
    (cmdline : Bytes) (user : Option Bytes) (service source : Bytes)
    → parse_stripped (strip_nogui (new_command cmdline user (rest_of service source)))
      ≡ parse_service
          (new_command cmdline user (rest_of service source))
          (b' ' ∷ ((service ++ trailer service) ++ (b' ' ∷ source)))
unfolding parse_stripped strip_nogui
parse_stripped-called cmdline user service source = refl

-- The daemon's command line "user:QUBESRPC service+ source" is parsed into its parts: the user, the service descriptor with its `+`, the name before the first `+`, the argument behind it, and the source domain. The user has no colon; the service has no space and the source none either; the name has 1 to NAME_MAX bytes, the descriptor at most MAX_SERVICE_NAME_LEN, and the source is not empty.
pub parse-vm_command :
    (user service source : Bytes)
    → contains b':' user ≡ false
    → contains b' ' service ≡ false
    → contains b' ' source ≡ false
    → source ≢ []
    → 1 ≤ length (name_of service)
    → length (name_of service) ≤ name_max
    → length (service ++ trailer service) ≤ max_service_name_len
    → parse_qubes_rpc_command (vm_command user service source) true
      ≡ some (called (vm_command user service source) user service source)
unfolding parse_qubes_rpc_command
parse-vm_command user service source hu hs hr ne n m l =
    rw (strip-vm_command user service source hu, parse_qubes_rpc_command)
      (parse_stripped-called (vm_command user service source) (some user) service source
        ∙ parse_service-called _ (service ++ trailer service) source (contains-trailer service hs)
        ∙ parse_descriptor-called _ service source l n m hr ne)
