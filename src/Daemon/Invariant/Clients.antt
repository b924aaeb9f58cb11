-- ===== src/Daemon/Invariant/Clients.antt =====
-- The functions on the tables of clients and ports, and the well-formedness of the tables.
use qubes_core_qrexec.Prelude.{
  ℕ, ◌-◌, ◌≡◌, refl, ◌≢◌, inl, inr, arith, ◌==◌, Bool-cases, Option-cases,
}
use qubes_core_qrexec.Daemon.State.{ClientState, invalid, port_unused, vchan_base_data_port, Daemon}
use qubes_core_qrexec.Daemon.Invariant.{tables, IsValid}
use qubes_core_qrexec.Daemon.Ports.{
  allocate_vchan_port, port_scan, terminate_client, release_vchan_port,
}
use qubes_core_qrexec.Daemon.Client.{set_state, request_notify}

pub terminate_client-IsValid :
    (fd : ℕ) (d : Daemon) → IsValid (tables d) → IsValid (tables (terminate_client fd d))
unfolding terminate_client
terminate_client-IsValid fd d v = record {
  clients_valid = record {
    in_range = v.clients_valid.in_range;
    bounded = λ fd' h. ground (arith, v.clients_valid.bounded fd');
    notify_live = λ p h. ground (arith, v.clients_valid.notify_live p);
  };
  pending_valid = v.pending_valid;
  all_safe = v.all_safe;
}

pub release_vchan_port-IsValid :
    (port remote : ℕ) (d : Daemon)
    → IsValid (tables d)
    → IsValid (tables (release_vchan_port port remote d))
unfolding release_vchan_port terminate_client
release_vchan_port-IsValid port remote d v =
    elim (Bool-cases (d.used_vchan_ports (port - vchan_base_data_port) == remote)) [
      | inl e ↦
          elim (Bool-cases
            (d.vchan_port_notify_client (port - vchan_base_data_port) == port_unused)) [
              | inl u ↦ rw (release_vchan_port, e, u) v
              | inr u ↦
                  rw (release_vchan_port, e, u)
                    (terminate_client-IsValid
                      (d.vchan_port_notify_client (port - vchan_base_data_port)) d v)
            ]
      | inr e ↦ rw (release_vchan_port, e) v
    ]

pub set_state-IsValid :
    (fd : ℕ) (s : ClientState) (d : Daemon)
    → d.clients fd ≢ invalid
    → s ≢ invalid
    → IsValid (tables d)
    → IsValid (tables (set_state fd s d))
set_state-IsValid fd s d live ns v = record {
  clients_valid = record {
    in_range = v.clients_valid.in_range;
    bounded = λ fd' h. ground (arith, v.clients_valid.bounded fd');
    notify_live = λ p h. ground (arith, v.clients_valid.notify_live p);
  };
  pending_valid = v.pending_valid;
  all_safe = v.all_safe;
}

pub request_notify-IsValid :
    (port fd : ℕ) (d : Daemon)
    → d.clients fd ≢ invalid
    → IsValid (tables d)
    → IsValid (tables (request_notify port fd d))
request_notify-IsValid port fd d live v = record {
  clients_valid = record {
    in_range = v.clients_valid.in_range;
    bounded = v.clients_valid.bounded;
    notify_live = λ p h. ground (arith, v.clients_valid.notify_live p);
  };
  pending_valid = v.pending_valid;
  all_safe = v.all_safe;
}

pub allocate_vchan_port-tables :
    (domain : ℕ) (d : Daemon) → tables (allocate_vchan_port domain d).1 ≡ tables d
unfolding allocate_vchan_port
allocate_vchan_port-tables domain d = elim (Option-cases (port_scan domain d)) [
  | inl e ↦ rw (e, allocate_vchan_port) refl
  | inr (i, e) ↦ rw (e, allocate_vchan_port) refl
]
