-- ===== src/Daemon/Invariant/Requests.antt =====
-- The functions on the waiting requests and those of a restart, and the well-formedness of the tables.
use qubes_core_qrexec.Prelude.{
  ℕ, zero, suc, ◌+◌, ◌≤◌, ◌<◌, ◌≡◌, refl, ◌≢◌, inl, inr, Bool, not, Option, none, some, List, [],
  ◌∷◌, ◌++◌, arith, ltb, ◌==◌, ltb→lt, Bool-cases, Option-cases, update, All, Bytes, first_from,
  first_from-found,
}
use qubes_core_qrexec.Daemon.State.{PolicyResponse, allow, deny, PolicyPending, max_clients, Daemon}
use qubes_core_qrexec.Daemon.Invariant.{
  tables, IsSafeRequest, IsValid, Leaves, returns, exits, Ensures-bind, Ensures-if, Ensures-option,
}
use qubes_core_qrexec.Daemon.Invariant.Effects.{Leaves-send_service_refused}
use qubes_core_qrexec.Daemon.Invariant.Clients.{terminate_client-IsValid}
use qubes_core_qrexec.Daemon.Pending.{
  find_policy_pending_slot, execute_in_slot, handle_execute_service, WaitStatus, exited, signaled,
  shrink_bound, settle, reap_child, reap_children, set_response, free_slot, is_pending, raise_bound,
  record_request,
}
use qubes_core_qrexec.Daemon.Restart.{is_invalid, terminate_clients, abort_requests}

All-snoc :
    (rs : List (Bytes × Bytes × Bytes)) (r : Bytes × Bytes × Bytes)
    → All IsSafeRequest rs
    → IsSafeRequest r
    → All IsSafeRequest (rs ++ (r ∷ []))
All-snoc [] r a s = (s, tt)
All-snoc (x ∷ rs) r a s = (a.0, All-snoc rs r a.1 s)

raise_bound-IsValid :
    (i : ℕ) (d : Daemon)
    → i < max_clients
    → IsValid (tables d)
    → (i < (raise_bound i d).pending_bound) × IsValid (tables (raise_bound i d))
raise_bound-IsValid i d u v = elim (Bool-cases (ltb i d.pending_bound)) [
  | inl e ↦ rw e (ltb→lt i d.pending_bound e, v)
  | inr e ↦ rw e (
    omega arith,
    record {
      clients_valid = v.clients_valid;
      pending_valid = record {
        in_range = omega arith;
        bounded = λ j h. ground (arith, v.pending_valid.bounded j h);
      };
      all_safe = v.all_safe;
    },
  )
]

record_request-IsValid :
    (i pid : ℕ) (target service ident : Bytes) (d : Daemon)
    → i < d.pending_bound
    → IsSafeRequest (target, service, ident)
    → IsValid (tables d)
    → IsValid (tables (record_request i pid target service ident d))
record_request-IsValid i pid target service ident d u safe v = record {
  clients_valid = v.clients_valid;
  pending_valid = record {
    in_range = v.pending_valid.in_range;
    bounded = λ j h. ground (arith, v.pending_valid.bounded j);
  };
  all_safe = All-snoc d.requests (target, service, ident) v.all_safe safe;
}

shrink_bound-bounded :
    (table : ℕ → PolicyPending) (bound i : ℕ)
    → (table i).pid ≢ 0
    → i < bound
    → i < shrink_bound table bound
unfolding shrink_bound
shrink_bound-bounded table zero i h u = absurd (omega arith)
shrink_bound-bounded table (suc zero) i h u = u
shrink_bound-bounded table (suc (suc n)) i h u =
    ground (arith, shrink_bound-bounded table (suc n) i)

shrink_bound-le : (table : ℕ → PolicyPending) (bound : ℕ) → shrink_bound table bound ≤ bound
unfolding shrink_bound
shrink_bound-le table zero = omega arith
shrink_bound-le table (suc zero) = omega arith
shrink_bound-le table (suc (suc n)) = ground (arith, shrink_bound-le table (suc n))

pub set_response-IsValid :
    (i : ℕ) (r : PolicyResponse) (d : Daemon)
    → IsValid (tables d)
    → IsValid (tables (set_response i r d))
set_response-IsValid i r d v = record {
  clients_valid = v.clients_valid;
  pending_valid = record {
    in_range = v.pending_valid.in_range;
    bounded = λ j h. ground (arith, v.pending_valid.bounded j);
  };
  all_safe = v.all_safe;
}

free_slot-IsValid : (i : ℕ) (d : Daemon) → IsValid (tables d) → IsValid (tables (free_slot i d))
free_slot-IsValid i d v = record {
  clients_valid = v.clients_valid;
  pending_valid = record {
    in_range = omega (
      arith,
      shrink_bound-le (update d.policy_pending i (record (d.policy_pending i) { pid = 0 }))
          d.pending_bound,
      v.pending_valid.in_range,
    );
    bounded = λ j h.
        shrink_bound-bounded (update d.policy_pending i (record (d.policy_pending i) { pid = 0 }))
          d.pending_bound j h (ground (arith, v.pending_valid.bounded j));
  };
  all_safe = v.all_safe;
}

settle-IsValid :
    (i status : ℕ) (d : Daemon) → IsValid (tables d) → Leaves IsValid (settle i status d)
unfolding settle
settle-IsValid i status d v =
    Ensures-if (not (status == 0))
      (λ _.
        Ensures-if (is_pending (d.policy_pending i).response_sent)
          (λ _.
            Leaves-send_service_refused (set_response i deny d) (set_response-IsValid i deny d v) _)
          (λ _. returns v))
      (λ _. returns (set_response-IsValid i allow d v))

reap_child-IsValid :
    (pid : ℕ) (status : WaitStatus) (d : Daemon)
    → IsValid (tables d)
    → Leaves IsValid (reap_child pid status d)
unfolding reap_child
reap_child-IsValid pid (signaled n) d v = returns v
reap_child-IsValid pid (exited status) d v =
    Ensures-option
      (first_from (λ i. (d.policy_pending i).pid == pid) 1 d.pending_bound d.pending_bound 0)
      (returns v)
      (λ i e.
        Ensures-bind _ _ (settle-IsValid i status d v)
          (λ _ d' v'. returns (free_slot-IsValid i d' v')))

pub reap_children-IsValid :
    (children : List (ℕ × WaitStatus)) (d : Daemon)
    → IsValid (tables d)
    → Leaves IsValid (reap_children children d)
unfolding reap_children
reap_children-IsValid [] d v = returns v
reap_children-IsValid ((pid, status) ∷ children) d v =
    Ensures-bind _ _ (reap_child-IsValid pid status d v)
      (λ _ d' v'. reap_children-IsValid children d' v')

execute_in_slot-IsValid :
    (fork : Option ℕ) (target service ident : Bytes) (i : ℕ) (d : Daemon)
    → i < d.pending_bound
    → IsSafeRequest (target, service, ident)
    → IsValid (tables d)
    → Leaves IsValid (execute_in_slot fork target service ident (some i, d))
unfolding execute_in_slot
execute_in_slot-IsValid none target service ident i d u safe v = exits v
execute_in_slot-IsValid (some pid) target service ident i d u safe v =
    returns (record_request-IsValid i pid target service ident d u safe v)

pub handle_execute_service-IsValid :
    (fork : Option ℕ) (target service ident : Bytes) (d : Daemon)
    → IsSafeRequest (target, service, ident)
    → IsValid (tables d)
    → Leaves IsValid (handle_execute_service fork target service ident d)
unfolding handle_execute_service execute_in_slot find_policy_pending_slot
handle_execute_service-IsValid fork target service ident d safe v =
    let test : ℕ → Bool = λ i. (d.policy_pending i).pid == 0 in
    elim (Option-cases (first_from test 1 max_clients max_clients 0)) [
      | inl e ↦
          let q : find_policy_pending_slot d ≡ (none, d) = rw (find_policy_pending_slot, e) refl in
          rw (handle_execute_service, q) (Leaves-send_service_refused d v ident)
      | inr (i, e) ↦
          let (lo, hi, free) = first_from-found test 1 max_clients max_clients 0 i e in
          let (u, v') = raise_bound-IsValid i d hi v in
          let q : find_policy_pending_slot d ≡ (some i, raise_bound i d) =
            rw (find_policy_pending_slot, e) refl in
          rw (handle_execute_service, q)
            (execute_in_slot-IsValid fork target service ident i (raise_bound i d) u safe v')
    ]

terminate_clients-IsValid :
    (n i : ℕ) (d : Daemon) → IsValid (tables d) → IsValid (tables (terminate_clients n i d))
unfolding terminate_clients
terminate_clients-IsValid zero i d v = v
terminate_clients-IsValid (suc n) i d v =
    terminate_clients-IsValid n (i + 1) _ (elim (Bool-cases (is_invalid (d.clients i))) [
      | inl e ↦ rw e v
      | inr e ↦ rw e (terminate_client-IsValid i d v)
    ])

pub restart_tables-IsValid :
    (d : Daemon)
    → IsValid (tables d)
    → IsValid (tables (abort_requests (terminate_clients max_clients 0 d)))
unfolding abort_requests
restart_tables-IsValid d v =
    let v' = terminate_clients-IsValid max_clients 0 d v in
    record {
      clients_valid = v'.clients_valid;
      pending_valid = record { in_range = omega arith; bounded = λ j h. absurd (h refl) };
      all_safe = v'.all_safe;
    }
