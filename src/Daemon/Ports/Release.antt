-- ===== src/Daemon/Ports/Release.antt =====
-- What `release_vchan_port` gives back.
use qubes_core_qrexec.Prelude.{
  ℕ, ◌-◌, ◌≡◌, refl, sym, ap, ◌∙◌, ◌≢◌, inl, inr, true, false, arith, ◌==◌, Bool-cases, update,
}
use qubes_core_qrexec.Daemon.State.{Daemon, invalid, port_unused, vchan_base_data_port}
use qubes_core_qrexec.Daemon.Ports.{allocate_vchan_port, terminate_client, release_vchan_port}
use qubes_core_qrexec.Daemon.Ports.Parity.{allocate_vchan_port-Fresh}

release-used :
    (port remote : ℕ) (d : Daemon) (j : ℕ)
    → d.used_vchan_ports (port - vchan_base_data_port) ≡ remote
    → (release_vchan_port port remote d).used_vchan_ports j
      ≡ update d.used_vchan_ports (port - vchan_base_data_port) port_unused j
unfolding release_vchan_port terminate_client
release-used port remote d j h =
    let same : (d.used_vchan_ports (port - vchan_base_data_port) == remote) ≡ true = ground arith in
    elim (Bool-cases (d.vchan_port_notify_client (port - vchan_base_data_port) == port_unused)) [
      | inl u ↦ rw (release_vchan_port, same, u) refl
      | inr u ↦ rw (release_vchan_port, same, u) refl
    ]

-- A port that was allocated for a domain and is released for the same domain is unused again, and no other entry of the table has changed.
pub release-allocate :
    (domain : ℕ) (d : Daemon) (j : ℕ)
    → (allocate_vchan_port domain d).0 ≢ 0
    → (release_vchan_port
          (allocate_vchan_port domain d).0
          domain
          (allocate_vchan_port domain d).1).used_vchan_ports
        j
      ≡ d.used_vchan_ports j
release-allocate domain d j h =
    let f = allocate_vchan_port-Fresh domain d h in
    let r =
      release-used (allocate_vchan_port domain d).0 domain (allocate_vchan_port domain d).1 j
        f.is_recorded in
    elim (Bool-cases (j == (allocate_vchan_port domain d).0 - vchan_base_data_port)) [
      | inl e ↦
          let q : j ≡ (allocate_vchan_port domain d).0 - vchan_base_data_port = ground arith in
          r ∙ (rw e (sym (ap d.used_vchan_ports q ∙ f.was_unused)))
      | inr e ↦ r ∙ (rw e (f.others j (ground arith)))
    ]

-- When a port with a client that waits for its end is released for the domain that holds it, the client becomes invalid and waits for no other port.
pub release_vchan_port-closes :
    (port remote : ℕ) (d : Daemon) (p : ℕ)
    → d.used_vchan_ports (port - vchan_base_data_port) ≡ remote
    → d.vchan_port_notify_client (port - vchan_base_data_port) ≢ port_unused
    → ((release_vchan_port port remote d).clients
          (d.vchan_port_notify_client (port - vchan_base_data_port))
        ≡ invalid)
      × ((release_vchan_port port remote d).vchan_port_notify_client p
          ≢ d.vchan_port_notify_client (port - vchan_base_data_port))
unfolding release_vchan_port terminate_client
release_vchan_port-closes port remote d p h n =
    let i = port - vchan_base_data_port in
    let same : (d.used_vchan_ports i == remote) ≡ true = ground arith in
    let some_client : (d.vchan_port_notify_client i == port_unused) ≡ false = ground arith in
    rw (release_vchan_port, same, some_client) (ground arith, ground arith)
