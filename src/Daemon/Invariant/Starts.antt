-- ===== src/Daemon/Invariant/Starts.antt =====
-- A new client and a restart of the agent, and the well-formedness of the tables.
use qubes_core_qrexec.Prelude.{ℕ, ◌<◌, ◌≡◌, refl, some, arith, leb, Bytes}
use qubes_core_qrexec.Daemon.State.{invalid, max_clients, Daemon}
use qubes_core_qrexec.Daemon.Invariant.{
  Tables, tables, IsValid, Leaves, returns, exits, Ensures-bind, Ensures-if_step,
  Ensures-option_step, Ensures-weaken,
}
use qubes_core_qrexec.Daemon.Invariant.Effects.{Leaves-send_client_hello, Leaves-handle_agent_hello}
use qubes_core_qrexec.Daemon.Invariant.Requests.{restart_tables-IsValid}
use qubes_core_qrexec.Daemon.Client.{greeted, not_greeted, handle_new_client}
use qubes_core_qrexec.Daemon.Restart.{
  Reconnect, terminating, refused, connected, reconnect, handle_agent_restart, start,
}

-- A new client's descriptor is not that of a live client.
abbrev Free : ℕ → Tables → Type 0
Free fd t = IsValid t × (t.clients fd ≡ invalid)

greeted-IsValid :
    (fd : ℕ) (d : Daemon) → fd < max_clients → Free fd (tables d) → IsValid (tables (greeted fd d))
greeted-IsValid fd d u f = record {
  clients_valid = record {
    in_range = ground (arith, f.0.clients_valid.in_range);
    bounded = λ fd' h. ground (arith, f.0.clients_valid.bounded fd');
    notify_live = λ p h. ground (arith, f.0.clients_valid.notify_live p);
  };
  pending_valid = f.0.pending_valid;
  all_safe = f.0.all_safe;
}

not_greeted-IsValid :
    (fd : ℕ) (d : Daemon) → Free fd (tables d) → IsValid (tables (not_greeted fd d))
not_greeted-IsValid fd d f = record {
  clients_valid = record {
    in_range = f.0.clients_valid.in_range;
    bounded = λ fd' h. ground (arith, f.0.clients_valid.bounded fd');
    notify_live = λ p h. ground (arith, f.0.clients_valid.notify_live p);
  };
  pending_valid = f.0.pending_valid;
  all_safe = f.0.all_safe;
}

pub handle_new_client-IsValid :
    (fd : ℕ) (d : Daemon)
    → d.clients fd ≡ invalid
    → IsValid (tables d)
    → Leaves IsValid (handle_new_client (some fd) d)
unfolding handle_new_client
handle_new_client-IsValid fd d free v =
    Ensures-if_step (leb max_clients fd) _ _ (λ _. exits v)
      (λ u.
        Ensures-bind _ _
          (Ensures-weaken {P' = IsValid} {Q' = λ _. Free fd}
            (Leaves-send_client_hello {P = Free fd} d (v, free) fd) (λ t h. h.0) (λ ok t h. h))
          (λ ok d' f.
            Ensures-if_step ok _ _ (λ _. returns (greeted-IsValid fd d' (ground arith) f))
              (λ _. returns (not_greeted-IsValid fd d' f))))

reconnect-IsValid :
    (outside : Reconnect) (d : Daemon) → IsValid (tables d) → Leaves IsValid (reconnect outside d)
reconnect-IsValid terminating d v = returns v
reconnect-IsValid refused d v = returns v
reconnect-IsValid (connected incoming) d v =
    Ensures-bind {Q = λ _. IsValid} _ _ (returns v) (λ _ d' v'.
      Ensures-bind _ _ (Leaves-handle_agent_hello d' v')
        (λ version d'' v''. Ensures-option_step version _ _ (returns v'') (λ _ _. returns v'')))

pub handle_agent_restart-IsValid :
    (outside : Reconnect) (d : Daemon)
    → IsValid (tables d)
    → Leaves IsValid (handle_agent_restart outside d)
unfolding handle_agent_restart
handle_agent_restart-IsValid outside d v =
    Ensures-bind {Q = λ _. IsValid} _ _ (returns (restart_tables-IsValid d v))
      (λ _ d' v'. reconnect-IsValid outside d' v')

pub start-IsValid :
    (remote version : ℕ) (user : Bytes) → IsValid (tables (start remote version user))
start-IsValid remote version user = record {
  clients_valid = record {
    in_range = omega arith;
    bounded = λ fd h. absurd (h refl);
    notify_live = λ p h. absurd (h refl);
  };
  pending_valid = record { in_range = omega arith; bounded = λ i h. absurd (h refl) };
  all_safe = tt;
}
