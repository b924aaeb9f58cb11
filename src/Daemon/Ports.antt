-- ===== src/Daemon/Ports.antt =====
-- daemon/qrexec-daemon.c: `allocate_vchan_port`, `terminate_client`, `release_vchan_port`.
pub mod Parity
pub mod Release
use qubes_core_qrexec.Prelude.{
  ℕ, ◌+◌, ◌-◌, ◌%◌, Bool, [], ◌∷◌, ◌++◌, Option, none, some, ◌==◌, not, ltb, if◌then◌else◌, update,
  first_from,
}
use qubes_core_qrexec.Daemon.State.{invalid, Daemon, port_unused, max_clients, vchan_base_data_port}

-- `a > b` on the `int`s that two words hold.
abbrev pub int_gt : ℕ → ℕ → Bool
int_gt a b = ltb ((b + 0x8000_0000) % 0x1_0000_0000) ((a + 0x8000_0000) % 0x1_0000_0000)

-- Where the scan of `used_vchan_ports` starts, and its step.
abbrev pub first_port_index : ℕ → ℕ → ℕ
first_port_index remote_domain_id connect_domain =
    if connect_domain == 0 then 0 else if int_gt connect_domain remote_domain_id then 1 else 0

abbrev pub port_step : ℕ → ℕ
port_step connect_domain = if connect_domain == 0 then 1 else 2

-- The loop over `used_vchan_ports`: the first index that is not in use.
unfoldable pub port_scan : ℕ → Daemon → Option ℕ
port_scan connect_domain d =
    first_from (λ i. d.used_vchan_ports i == port_unused) (port_step connect_domain) max_clients
      max_clients (first_port_index d.remote_domain_id connect_domain)

-- The port, or 0 when every index of the scan is taken.
unfoldable pub allocate_vchan_port : ℕ → Daemon → ℕ × Daemon
allocate_vchan_port connect_domain d = elim (port_scan connect_domain d) [
  | none ↦ (0, d)
  | some i ↦ (
    vchan_base_data_port + i,
    record d { used_vchan_ports = update d.used_vchan_ports i connect_domain },
  )
]

unfoldable pub terminate_client : ℕ → Daemon → Daemon
terminate_client fd d = record d {
  clients = update d.clients fd invalid;
  closed = d.closed ++ (fd ∷ []);
  vchan_port_notify_client = λ port.
      if d.vchan_port_notify_client port == fd
      then port_unused
      else d.vchan_port_notify_client port;
}

unfoldable pub release_vchan_port : ℕ → ℕ → Daemon → Daemon
unfolding terminate_client
release_vchan_port port expected_remote_id d =
    let i = port - vchan_base_data_port in
    let freed = record d { used_vchan_ports = update d.used_vchan_ports i port_unused } in
    let client = d.vchan_port_notify_client i in
    if d.used_vchan_ports i == expected_remote_id
    then (if client == port_unused then freed else terminate_client client freed)
    else d
