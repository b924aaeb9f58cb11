-- ===== src/Daemon/Execute.antt =====
-- daemon/qrexec-daemon.c: the child that a service request forks: it asks the policy
-- (`send_request_to_daemon`, `connect_daemon_socket`) and acts on the reply
-- (`handle_execute_service_child`).
pub mod Request
pub mod Command
use qubes_core_qrexec.Prelude.{
  ℕ, ◌+◌, ◌-◌, ◌/◌, Bool, true, false, not, ◌||◌, Option, none, some, List, [], ◌∷◌, ◌++◌, ltb,
  ◌==◌, if◌then◌else◌, length, take, drop, Bytes, codes, bytes_eq, contains,
}
use qubes_core_qrexec.Protocol.{exit_request_refused, exit_problem}
use qubes_core_qrexec.Daemon.State.{PolicyResponse, allow, malformed}
use qubes_core_qrexec.Daemon.Policy.{Reply, parse_policy_response}

-- The text that `asprintf` builds in `send_request_to_daemon`.
unfoldable pub policy_request : Bytes → Bytes → Bytes → Bytes
policy_request remote_domain_name target_domain service_name =
    codes "source="
    ++ (remote_domain_name
        ++ (codes "\nintended_target="
            ++ (target_domain ++ (codes "\nservice_and_arg=" ++ (service_name ++ codes "\n\n")))))

-- How the loop of `send` calls ends: with the bytes that went out, by `abort`, or by an exit.
pub data Sending : Type 0 where
  sent : Bytes → Sending
  aborted : Sending
  failed : Bytes → Sending
  unfinished : Bytes → Sending

-- Each answer of `send` is a count, or `none` for -1. The command is what is still to be sent.
unfoldable pub send_request : List (Option ℕ) → Bytes → Bytes → Sending
send_request answers out [] = sent out
send_request [] out (c ∷ s) = unfinished out
send_request (none ∷ answers) out (c ∷ s) = failed out
send_request (some n ∷ answers) out (c ∷ s) =
    let rest = send_request answers (out ++ take n (c ∷ s)) (drop n (c ∷ s)) in
    if ltb (length (c ∷ s)) n then aborted else rest

-- What the policy daemon and the policy program do. The reply of the daemon is `none` where the
-- connection is refused; a reply that `qubes_read_all_to_malloc` cannot read is empty.
pub record PolicyEngine : Type 0 where
  pub daemon_reply : Option Bytes
  -- What `qrexec-policy-exec` writes, and its exit status.
  pub exec_reply : Bytes
  pub exec_status : ℕ

-- The response with the reply, or an exit of the child.
pub data Asked : Type 0 where
  answer : PolicyResponse → Reply → Asked
  child_exits : ℕ → Asked

abbrev is_malformed : PolicyResponse → Bool
is_malformed malformed = true
is_malformed _ = false

-- The fallback: fork and execute the policy program.
unfoldable pub ask_policy_program : PolicyEngine → Asked
ask_policy_program e =
    let (p, r) = parse_policy_response e.exec_reply in
    if not (e.exec_status == 0) then child_exits exit_problem else answer p r

abbrev or_fall_back : PolicyEngine → PolicyResponse → Reply → Asked
or_fall_back e p r = if is_malformed p then ask_policy_program e else answer p r

unfoldable pub connect_daemon_socket : PolicyEngine → Asked
connect_daemon_socket e = elim e.daemon_reply [
  | none ↦ ask_policy_program e
  | some response ↦
      or_fall_back e (parse_policy_response response).0 (parse_policy_response response).1
]

-- What the child does: it exits, it calls `run_qrexec_to_dom0` with a command line, or it calls
-- `qrexec_execute_vm` with a target, the autostart flag and a command line.
pub data ChildAction : Type 0 where
  exits : ℕ → ChildAction
  to_dom0 : Bytes → ChildAction
  to_vm : Bytes → Bool → Bytes → ChildAction

abbrev pub trailer : Bytes → Bytes
trailer service_name = if contains b'+' service_name then [] else b'+' ∷ []

abbrev pub target_is_dom0 : Bytes → Bool
target_is_dom0 target = bytes_eq target (codes "@adminvm") || bytes_eq target (codes "dom0")

-- `type` and the target without its `@`.
abbrev pub type_and_target : Bytes → Bytes × Bytes
type_and_target [] = (codes "name", [])
type_and_target (c ∷ s) = if c == b'@' then (codes "keyword", s) else (codes "name", c ∷ s)

-- "QUBESRPC service+ source", with "type target" for dom0.
unfoldable pub dom0_command : Bytes → Bytes → Bytes → Bytes
dom0_command service_name remote_domain_name target_domain =
    let (type, name) = type_and_target target_domain in
    codes "QUBESRPC "
    ++ ((service_name ++ trailer service_name)
        ++ (b' ' ∷ (remote_domain_name ++ (b' ' ∷ (type ++ (b' ' ∷ name))))))

unfoldable pub vm_command : Bytes → Bytes → Bytes → Bytes
vm_command user service_name remote_domain_name =
    user
    ++ (b':'
        ∷ (codes "QUBESRPC "
            ++ ((service_name ++ trailer service_name) ++ (b' ' ∷ remote_domain_name))))

abbrev act_on_reply :
    Bytes → Bytes → Option Bytes → Option Bytes → Option Bytes → Option Bool → ChildAction
act_on_reply remote service (some user) (some target) (some requested_target) (some autostart) =
    if target_is_dom0 target
    then to_dom0 (dom0_command service remote requested_target)
    else to_vm target autostart (vm_command user service remote)
act_on_reply remote service _ _ _ _ = exits exit_problem

-- The values are not NULL where the response is RESPONSE_ALLOW.
abbrev act_on_answer : Bytes → Bytes → Asked → ChildAction
act_on_answer remote service (child_exits n) = exits n
act_on_answer remote service (answer allow r) =
    act_on_reply remote service r.user r.target r.requested_target r.autostart
act_on_answer remote service (answer _ r) = exits exit_request_refused

unfoldable pub handle_execute_service_child : PolicyEngine → Bytes → Bytes → ChildAction
unfolding connect_daemon_socket ask_policy_program
handle_execute_service_child e remote_domain_name service_name =
    act_on_answer remote_domain_name service_name (connect_daemon_socket e)
