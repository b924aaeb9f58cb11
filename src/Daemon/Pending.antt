-- ===== src/Daemon/Pending.antt =====
-- daemon/qrexec-daemon.c: the table of service requests that wait for the policy
-- (`find_policy_pending_slot`, `send_service_refused`, `handle_execute_service`, `reap_children`).
-- The flag `child_exited` is not kept: a reaping is an event of its own.
use qubes_core_qrexec.Prelude.{
  ℕ, zero, suc, ◌+◌, Bool, true, false, not, Option, none, some, List, [], ◌∷◌, ◌++◌, ltb, ◌==◌,
  if◌then◌else◌, update, Bytes, first_from,
}
use qubes_core_qrexec.Protocol.{msg_service_refused, header_bytes, sizeof_service_params}
use qubes_core_qrexec.Daemon.State.{
  PolicyResponse, pending, allow, deny, PolicyPending, max_clients, Daemon, Outcome, done, exit, M,
  ◌>>◌, pure, modify, vchan_send_or_exit,
}

-- `if (i > policy_pending_max) policy_pending_max = i;`
abbrev pub raise_bound : ℕ → Daemon → Daemon
raise_bound i d = if ltb i d.pending_bound then d else record d { pending_bound = i + 1 }

unfoldable pub find_policy_pending_slot : Daemon → Option ℕ × Daemon
find_policy_pending_slot d =
    elim (first_from (λ i. (d.policy_pending i).pid == 0) 1 max_clients max_clients 0) [
      | none ↦ (none, d)
      | some i ↦ (some i, raise_bound i d)
    ]

-- `exit(1)` where a send fails.
unfoldable pub send_service_refused : Bytes → M (Unit {0})
send_service_refused params = do
  vchan_send_or_exit
      (header_bytes (record { type = msg_service_refused; len = sizeof_service_params }))
  vchan_send_or_exit params

abbrev pub new_request : ℕ → Bytes → PolicyPending
new_request pid request_id = record { pid = pid; params = request_id; response_sent = pending }

-- The slot is filled, and a child has been forked for the request.
abbrev pub record_request : ℕ → ℕ → Bytes → Bytes → Bytes → Daemon → Daemon
record_request i pid target service_name request_id d = record d {
  policy_pending = update d.policy_pending i (new_request pid request_id);
  requests = d.requests ++ ((target, service_name, request_id) ∷ []);
}

-- From the slot on, the parent's side. `fork` is what the call of that name returns, `none` for -1.
unfoldable pub execute_in_slot :
    Option ℕ → Bytes → Bytes → Bytes → Option ℕ × Daemon → Outcome (Unit {0})
execute_in_slot fork target service_name request_id (none, d) = send_service_refused request_id d
execute_in_slot none target service_name request_id (some i, d) = exit 1 d
execute_in_slot (some pid) target service_name request_id (some i, d) =
    done tt (record_request i pid target service_name request_id d)

unfoldable pub handle_execute_service : Option ℕ → Bytes → Bytes → Bytes → M (Unit {0})
handle_execute_service fork target_domain service_name request_id d =
    execute_in_slot fork target_domain service_name request_id (find_policy_pending_slot d)

-- How a child ended: `WIFEXITED` with its status, or by a signal.
pub data WaitStatus : Type 0 where
  exited : ℕ → WaitStatus
  signaled : ℕ → WaitStatus

-- `while (policy_pending_max > 0 && policy_pending[policy_pending_max].pid == 0)`
unfoldable pub shrink_bound : (ℕ → PolicyPending) → ℕ → ℕ
shrink_bound table zero = zero
shrink_bound table (suc zero) = suc zero
shrink_bound table (suc (suc n)) =
    let rest = shrink_bound table (suc n) in if (table (suc n)).pid == 0 then rest else suc (suc n)

abbrev pub set_response : ℕ → PolicyResponse → Daemon → Daemon
set_response i r d = record d {
  policy_pending = update d.policy_pending i (record (d.policy_pending i) { response_sent = r });
}

abbrev pub free_slot : ℕ → Daemon → Daemon
free_slot i d =
    let table = update d.policy_pending i (record (d.policy_pending i) { pid = 0 }) in
    record d { policy_pending = table; pending_bound = shrink_bound table d.pending_bound }

abbrev pub is_pending : PolicyResponse → Bool
is_pending pending = true
is_pending _ = false

-- The response of slot `i` once its policy child has exited with `status`.
unfoldable pub settle : ℕ → ℕ → M (Unit {0})
settle i status d =
    if not (status == 0)
    then if is_pending (d.policy_pending i).response_sent
      then send_service_refused (d.policy_pending i).params (set_response i deny d)
      else done tt d
    else done tt (set_response i allow d)

-- One round of the outer loop. A child that a signal ended is passed over.
unfoldable pub reap_child : ℕ → WaitStatus → M (Unit {0})
reap_child pid (signaled _) d = done tt d
reap_child pid (exited status) d =
    elim (first_from (λ i. (d.policy_pending i).pid == pid) 1 d.pending_bound d.pending_bound 0) [
      | none ↦ done tt d
      | some i ↦ (settle i status >> modify (free_slot i)) d
    ]

-- The children that `waitpid` reports, in order.
unfoldable pub reap_children : List (ℕ × WaitStatus) → M (Unit {0})
reap_children [] = pure tt
reap_children ((pid, status) ∷ children) = do reap_child pid status; reap_children children
