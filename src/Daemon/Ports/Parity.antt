-- ===== src/Daemon/Ports/Parity.antt =====
-- What `allocate_vchan_port` gives out, and the ports that two daemons allocate for connections
-- between their domains.
use qubes_core_qrexec.Prelude.{
  ℕ, ◌+◌, ◌-◌, ◌*◌, ◌%◌, ◌≤◌, ◌<◌, ◌≡◌, ◌≢◌, inl, inr, some, arith, ltb, ◌==◌, if◌then◌else◌,
  Option-cases, first_from-found, first_from-stride, first_from-none,
}
use qubes_core_qrexec.Daemon.State.{Daemon, port_unused, max_clients, vchan_base_data_port}
use qubes_core_qrexec.Daemon.Ports.{port_scan, allocate_vchan_port, first_port_index, port_step}

pub port_scan-found :
    (connect_domain i : ℕ) (d : Daemon)
    → port_scan connect_domain d ≡ some i
    → (i < max_clients) × (d.used_vchan_ports i ≡ port_unused)
unfolding port_scan
port_scan-found connect_domain i d e =
    let (lo, hi, free) =
      first_from-found (λ j. d.used_vchan_ports j == port_unused) (port_step connect_domain)
        max_clients max_clients (first_port_index d.remote_domain_id connect_domain) i e in
    (hi, ground arith)

port_scan-stride :
    (connect_domain i : ℕ) (d : Daemon)
    → port_scan connect_domain d ≡ some i
    → (k : ℕ) × (i
        ≡ first_port_index d.remote_domain_id connect_domain + k * port_step connect_domain)
unfolding port_scan
port_scan-stride connect_domain i d e =
    first_from-stride (λ j. d.used_vchan_ports j == port_unused) (port_step connect_domain)
      max_clients max_clients (first_port_index d.remote_domain_id connect_domain) i e

-- What is kept when a port is given out.
pub record Fresh (connect_domain : ℕ) (d : Daemon) (out : ℕ × Daemon) : Type 0 where
  pub in_range : (vchan_base_data_port ≤ out.0) × (out.0 < vchan_base_data_port + max_clients)
  pub was_unused : d.used_vchan_ports (out.0 - vchan_base_data_port) ≡ port_unused
  pub is_recorded : out.1.used_vchan_ports (out.0 - vchan_base_data_port) ≡ connect_domain
  pub others :
      (j : ℕ) → j ≢ out.0 - vchan_base_data_port → out.1.used_vchan_ports j ≡ d.used_vchan_ports j

-- A port other than 0 that `allocate_vchan_port` returns lies in the range of the data ports, was not
-- in use, is recorded as used by the domain that it is for, and no other entry changes.
pub allocate_vchan_port-Fresh :
    (connect_domain : ℕ) (d : Daemon)
    → (allocate_vchan_port connect_domain d).0 ≢ 0
    → Fresh connect_domain d (allocate_vchan_port connect_domain d)
unfolding allocate_vchan_port
allocate_vchan_port-Fresh connect_domain d h = elim (Option-cases (port_scan connect_domain d)) [
  | inl e ↦ absurd (h (rw (e, allocate_vchan_port)))
  | inr (i, e) ↦
      let found = port_scan-found connect_domain i d e in
      rw (e, allocate_vchan_port)
        (record {
          in_range = omega arith;
          was_unused = ground arith;
          is_recorded = ground arith;
          others = λ j ne. ground arith;
        })
]

-- If `allocate_vchan_port` returns 0, every index below MAX_CLIENTS is in use that lies a multiple of
-- the step above the first index of the scan.
pub allocate_vchan_port-full :
    (connect_domain : ℕ) (d : Daemon)
    → (allocate_vchan_port connect_domain d).0 ≡ 0
    → (k : ℕ)
    → first_port_index d.remote_domain_id connect_domain + k * port_step connect_domain
      < max_clients
    → d.used_vchan_ports
        (first_port_index d.remote_domain_id connect_domain + k * port_step connect_domain)
      ≢ port_unused
unfolding allocate_vchan_port port_scan
allocate_vchan_port-full connect_domain d h k u = elim (Option-cases (port_scan connect_domain d)) [
  | inl e ↦
      let seen =
        first_from-none (λ j. d.used_vchan_ports j == port_unused) (port_step connect_domain)
          max_clients max_clients (first_port_index d.remote_domain_id connect_domain) k e
          (grind arith) u in
      ground arith
  | inr (i, e) ↦ absurd (omega (arith, rw (e, allocate_vchan_port) at h))
]

-- The parity of an index found for another domain.
port_scan-parity :
    (a b i : ℕ) (d : Daemon)
    → d.remote_domain_id ≡ a
    → a < 0x8000_0000
    → b < 0x8000_0000
    → b ≢ 0
    → port_scan b d ≡ some i
    → i % 2 ≡ (if ltb a b then 1 else 0)
port_scan-parity a b i d r ha hb nz e = let (k, q) = port_scan-stride b i d e in ground arith

pub allocate_vchan_port-parity :
    (a b : ℕ) (d : Daemon)
    → d.remote_domain_id ≡ a
    → a < 0x8000_0000
    → b < 0x8000_0000
    → b ≢ 0
    → (allocate_vchan_port b d).0 ≢ 0
    → (allocate_vchan_port b d).0 % 2 ≡ (if ltb a b then 0 else 1)
unfolding allocate_vchan_port
allocate_vchan_port-parity a b d r ha hb nz h = elim (Option-cases (port_scan b d)) [
  | inl e ↦ absurd (h (rw (e, allocate_vchan_port)))
  | inr (i, e) ↦ rw (e, allocate_vchan_port) (ground (arith, port_scan-parity a b i d r ha hb nz e))
]

-- For domains `a < b`, neither of them dom0, the daemon of `a` allocates even ports for connections with `b` and the daemon of `b` odd ones with `a`, whatever both have in use: the two never allocate the same port.
pub ports_disjoint :
    (a b : ℕ) (da db : Daemon)
    → da.remote_domain_id ≡ a
    → db.remote_domain_id ≡ b
    → a ≢ 0
    → a < b
    → b < 0x8000_0000
    → (allocate_vchan_port b da).0 ≢ 0
    → (allocate_vchan_port a db).0 ≢ 0
    → ((allocate_vchan_port b da).0 % 2 ≡ 0)
      × ((allocate_vchan_port a db).0 % 2 ≡ 1)
      × ((allocate_vchan_port b da).0 ≢ (allocate_vchan_port a db).0)
ports_disjoint a b da db ra rb nz lt hb pa pb =
    let even = allocate_vchan_port-parity a b da ra (omega arith) hb (omega arith) pa in
    let odd = allocate_vchan_port-parity b a db rb hb (omega arith) nz pb in ground arith
