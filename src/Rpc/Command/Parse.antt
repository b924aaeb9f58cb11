-- ===== src/Rpc/Command/Parse.antt =====
-- What `parse_qubes_rpc_command` finds in a command line.
use qubes_core_qrexec.Prelude.{
  ℕ, ◌≤◌, ◌≡◌, refl, ◌≢◌, ◌⊎◌, inl, inr, Bool, true, false, none, some, [], ◌∷◌, ◌++◌, arith, ◌==◌,
  Bool-cases, Option-cases, length, drop, length-append, Bytes, starts_with, split_at, contains,
  split_at-none, contains-append, split_at_sound,
}
use qubes_core_qrexec.Protocol.{max_service_name_len}
use qubes_core_qrexec.Rpc.Command.{
  ParsedCommand, name_max, rpc_request_command, before, strip_user, strip_nogui, name_and_arg,
  with_plus, parse_descriptor, parse_service, parse_stripped, parse_qubes_rpc_command,
}

before_id : (c : ℕ) (s : Bytes) → contains c s ≡ false → before c s ≡ s
before_id c [] h = refl
before_id c (x ∷ s) h = ground (arith, before_id c s)

before-contains : (c : ℕ) (s : Bytes) → contains c (before c s) ≡ false
before-contains c [] = refl
before-contains c (x ∷ s) = elim (Bool-cases (x == c)) [
  | inl e ↦ rw e refl
  | inr e ↦ rw (e, e) (before-contains c s)
]

length-zero : (s : Bytes) → (length s == 0) ≡ false → s ≢ []
length-zero [] h = absurd (cc h)
length-zero (c ∷ s) h = λ e. cc e

-- The parts of a service call: a name of 1 to NAME_MAX bytes without `+`, a descriptor made of the name, a `+` and the argument, a source domain.
pub record IsServiceCall (cmd : ParsedCommand) (descriptor : Bytes) : Type 0 where
  pub name : Bytes
  pub argument : Bytes
  pub source : Bytes
  pub has_name : cmd.service_name ≡ some name
  pub name_length : (1 ≤ length name) × (length name ≤ name_max)
  pub no_plus : contains b'+' name ≡ false
  pub splits : descriptor ≡ name ++ (b'+' ∷ argument)
  pub has_arg : (cmd.arg ≡ some argument) ⊎ ((cmd.arg ≡ none) × (argument ≡ []))
  pub no_space : contains b' ' descriptor ≡ false
  pub descriptor_length : length descriptor ≤ max_service_name_len
  pub has_source : cmd.source_domain ≡ some source
  pub source_nonempty : source ≢ []
  pub source_no_space : contains b' ' source ≡ false

-- The tests of `parse_descriptor` on its parts.
record Passes (descriptor name source : Bytes) : Type 0 where
  small : length descriptor ≤ max_service_name_len
  name_length : (1 ≤ length name) × (length name ≤ name_max)
  source_length : (length source == 0) ≡ false

parse_descriptor-Passes :
    (cmd out : ParsedCommand) (descriptor rest : Bytes)
    → parse_descriptor cmd descriptor rest ≡ some out
    → Passes descriptor (name_and_arg descriptor).0 (before b' ' rest)
      × (out ≡ record cmd {
        service_name = some (name_and_arg descriptor).0;
        service_descriptor = some (with_plus descriptor (name_and_arg descriptor).1);
        arg = (name_and_arg descriptor).1;
        source_domain = some (before b' ' rest);
      })
unfolding parse_descriptor
parse_descriptor-Passes cmd out descriptor rest h = ground arith

parse_descriptor-IsServiceCall :
    (cmd out : ParsedCommand) (descriptor rest d : Bytes)
    → contains b' ' descriptor ≡ false
    → parse_descriptor cmd descriptor rest ≡ some out
    → out.service_descriptor ≡ some d
    → IsServiceCall out d
parse_descriptor-IsServiceCall cmd out descriptor rest d sp h e =
    let (p, o) = parse_descriptor-Passes cmd out descriptor rest h in
    elim (Option-cases (split_at b'+' descriptor)) [
      | inl q ↦ record {
        name = descriptor;
        argument = [];
        source = before b' ' rest;
        has_name = ground arith;
        name_length = ground arith;
        no_plus = split_at-none b'+' descriptor q;
        splits = ground arith;
        has_arg = inr (ground arith, refl);
        no_space = ground (arith, contains-append b' ' descriptor (b'+' ∷ []));
        descriptor_length = ground (arith, length-append descriptor (b'+' ∷ []));
        has_source = ground arith;
        source_nonempty = length-zero (before b' ' rest) p.source_length;
        source_no_space = before-contains b' ' rest;
      }
      | inr ((name, argument), q) ↦
          let (s, np) = split_at_sound b'+' descriptor name argument q in
          record {
            name = name;
            argument = argument;
            source = before b' ' rest;
            has_name = ground arith;
            name_length = ground arith;
            no_plus = np;
            splits = ground arith;
            has_arg = inl (ground arith);
            no_space = ground arith;
            descriptor_length = ground arith;
            has_source = ground arith;
            source_nonempty = length-zero (before b' ' rest) p.source_length;
            source_no_space = before-contains b' ' rest;
          }
    ]

parse_service-IsServiceCall :
    (cmd out : ParsedCommand) (s d : Bytes)
    → parse_service cmd s ≡ some out
    → out.service_descriptor ≡ some d
    → IsServiceCall out d
unfolding parse_service
parse_service-IsServiceCall cmd out [] d h e = absurd (cc h)
parse_service-IsServiceCall cmd out (c ∷ start) d h e = elim (Option-cases (split_at b' ' start)) [
  | inl q ↦ absurd (ground arith)
  | inr ((descriptor, rest), q) ↦
      let (p, np) = split_at_sound b' ' start descriptor rest q in
      parse_descriptor-IsServiceCall cmd out descriptor rest d np (ground arith) e
]

strip-none :
    (cmdline : Bytes) (strip : Bool) (cmd : ParsedCommand)
    → strip_user cmdline strip ≡ some cmd
    → (strip_nogui cmd).service_descriptor ≡ none
unfolding strip_user strip_nogui
strip-none cmdline false cmd h = ground arith
strip-none cmdline true cmd h = ground arith

parse_stripped-IsServiceCall :
    (cmd out : ParsedCommand) (d : Bytes)
    → cmd.service_descriptor ≡ none
    → parse_stripped cmd ≡ some out
    → out.service_descriptor ≡ some d
    → IsServiceCall out d
unfolding parse_stripped
parse_stripped-IsServiceCall cmd out d n h e =
    elim (Bool-cases (starts_with rpc_request_command cmd.command)) [
      | inl q ↦
          parse_service-IsServiceCall cmd out (drop (length rpc_request_command) cmd.command) d
            (rw q at h) e
      | inr q ↦ let same : cmd ≡ out = cc (rw q at h) in absurd (cc)
    ]

-- If `parse_qubes_rpc_command` returns a command with a service descriptor, then the descriptor is a name of 1 to NAME_MAX bytes with no `+` in it, a `+` and the argument; it holds no space and at most MAX_SERVICE_NAME_LEN bytes; and the name, the argument (absent where it is empty and the command line had no `+`) and a non-empty source domain with no space are recorded beside it.
pub parse-IsServiceCall :
    (cmdline : Bytes) (strip : Bool) (cmd : ParsedCommand) (d : Bytes)
    → parse_qubes_rpc_command cmdline strip ≡ some cmd
    → cmd.service_descriptor ≡ some d
    → IsServiceCall cmd d
unfolding parse_qubes_rpc_command
parse-IsServiceCall cmdline strip cmd d h e = elim (Option-cases (strip_user cmdline strip)) [
  | inl q ↦ absurd (cc (rw (q, parse_qubes_rpc_command) at h))
  | inr (c0, q) ↦
      parse_stripped-IsServiceCall (strip_nogui c0) cmd d (strip-none cmdline strip c0 q)
        (rw (q, parse_qubes_rpc_command) at h) e
]
