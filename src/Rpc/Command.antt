-- ===== src/Rpc/Command.antt =====
-- libqrexec/exec.c: `parse_qubes_rpc_command` and `exec_qubes_rpc_if_requested`, and
-- `struct qrexec_parsed_command` of libqrexec/libqrexec-utils.h.
pub mod Parse
use qubes_core_qrexec.Prelude.{
  ℕ, zero, ◌+◌, ◌-◌, ◌/◌, Bool, true, false, Option, none, some, List, [], ◌∷◌, ◌++◌, ltb, ◌==◌,
  if◌then◌else◌, length, get_or, drop, Bytes, codes, starts_with, split_at,
}
use qubes_core_qrexec.Protocol.{max_service_name_len, exit_problem}

pub record ParsedCommand : Type 0 where
  pub cmdline : Bytes
  pub username : Option Bytes
  pub nogui : Bool
  pub command : Bytes
  pub service_descriptor : Option Bytes
  pub service_name : Option Bytes
  pub source_domain : Option Bytes
  pub wait_for_session : Bool
  pub send_service_descriptor : Bool
  pub exit_on_stdin_eof : Bool
  pub exit_on_stdout_eof : Bool
  pub arg : Option Bytes

abbrev pub name_max : ℕ
name_max = 255

abbrev pub rpc_request_command : Bytes
rpc_request_command = codes "QUBESRPC"

abbrev pub nogui_cmd_prefix : Bytes
nogui_cmd_prefix = codes "nogui:"

-- The bytes up to the first `c`, or all of them (`strchrnul`).
abbrev pub before : ℕ → Bytes → Bytes
before c [] = []
before c (x ∷ s) = if x == c then [] else x ∷ before c s

-- After the `calloc`: `send_service_descriptor` is set, and the rest is zero.
abbrev pub new_command : Bytes → Option Bytes → Bytes → ParsedCommand
new_command cmdline username command = record {
  cmdline = cmdline;
  username = username;
  nogui = false;
  command = command;
  service_descriptor = none;
  service_name = none;
  source_domain = none;
  wait_for_session = false;
  send_service_descriptor = true;
  exit_on_stdin_eof = false;
  exit_on_stdout_eof = false;
  arg = none;
}

-- The part for `strip_username`.
unfoldable pub strip_user : Bytes → Bool → Option ParsedCommand
strip_user cmdline false = some (new_command cmdline none cmdline)
strip_user cmdline true = elim (split_at b':' cmdline) [
  | none ↦ none
  | some (user, rest) ↦ some (new_command cmdline (some user) rest)
]

unfoldable pub strip_nogui : ParsedCommand → ParsedCommand
strip_nogui cmd =
    if starts_with nogui_cmd_prefix cmd.command
    then record cmd { nogui = true; command = drop (length nogui_cmd_prefix) cmd.command }
    else cmd

-- The name and the argument in a descriptor; the argument is what follows the first `+`.
abbrev pub name_and_arg : Bytes → Bytes × Option Bytes
name_and_arg descriptor = elim (split_at b'+' descriptor) [
  | none ↦ (descriptor, none)
  | some (name, arg) ↦ (name, some arg)
]

abbrev pub with_plus : Bytes → Option Bytes → Bytes
with_plus descriptor none = descriptor ++ (b'+' ∷ [])
with_plus descriptor (some _) = descriptor

-- From the service descriptor on, at the part after "QUBESRPC ".
unfoldable pub parse_descriptor : ParsedCommand → Bytes → Bytes → Option ParsedCommand
parse_descriptor cmd descriptor rest =
    let (name, arg) = name_and_arg descriptor in
    let source = before b' ' rest in
    if length descriptor == 0
    then none
    else if ltb max_service_name_len (length descriptor)
    then none
    else if ltb name_max (length name)
    then none
    else if ltb (length name) 1
    then none
    else if length source == 0
    then none
    else some (record cmd {
      service_name = some name;
      service_descriptor = some (with_plus descriptor arg);
      arg = arg;
      source_domain = some source;
    })

unfoldable pub parse_service : ParsedCommand → Bytes → Option ParsedCommand
parse_service cmd [] = none
parse_service cmd (c ∷ start) =
    if c == b' '
    then elim (split_at b' ' start) [
      | none ↦ none
      | some (descriptor, rest) ↦ parse_descriptor cmd descriptor rest
    ]
    else none

-- If the command starts with "QUBESRPC", its descriptor is parsed.
unfoldable pub parse_stripped : ParsedCommand → Option ParsedCommand
parse_stripped cmd =
    if starts_with rpc_request_command cmd.command
    then parse_service cmd (drop (length rpc_request_command) cmd.command)
    else some cmd

-- `none` for NULL. An allocation is taken to succeed.
unfoldable pub parse_qubes_rpc_command : Bytes → Bool → Option ParsedCommand
parse_qubes_rpc_command cmdline strip_username = elim (strip_user cmdline strip_username) [
  | none ↦ none
  | some cmd ↦ parse_stripped (strip_nogui cmd)
]

-- The non-empty runs between spaces (`strtok_r` with " "); the accumulator is the run read so far.
abbrev pub tokens : Bytes → Bytes → List Bytes
tokens [] [] = []
tokens (a ∷ run) [] = (a ∷ run) ∷ []
tokens [] (c ∷ s) = elim (c == b' ') [ true ↦ tokens [] s | false ↦ tokens (c ∷ []) s ]
tokens (a ∷ run) (c ∷ s) = elim (c == b' ') [
  | true ↦ (a ∷ run) ∷ tokens [] s
  | false ↦ tokens ((a ∷ run) ++ (c ∷ [])) s
]

-- Returns to the caller, or `_exit`s, or calls `execve` with these arguments.
pub data RpcExec : Type 0 where
  returns : RpcExec
  exits : ℕ → RpcExec
  execs : List Bytes → RpcExec

-- `argv` has 16 places; `argv[0]` is the multiplexer and the last one NULL.
unfoldable pub exec_qubes_rpc_if_requested : Bytes → Bytes → RpcExec
exec_qubes_rpc_if_requested multiplexer prog =
    let args = tokens [] (drop (length rpc_request_command + 1) prog) in
    if starts_with rpc_request_command prog
    then if get_or prog (length rpc_request_command) 0 == b' '
      then (if ltb 14 (length args) then exits exit_problem else execs (multiplexer ∷ args))
      else exits 126
    else returns
