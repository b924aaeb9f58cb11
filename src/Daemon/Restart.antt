-- ===== src/Daemon/Restart.antt =====
-- daemon/qrexec-daemon.c: `handle_agent_hello`, `handle_agent_restart` and the start state of
-- `init`. The socket in the file system and the signal handlers are not part of the state.
pub mod Reset
use qubes_core_qrexec.Prelude.{
  ℕ, zero, suc, ◌+◌, ◌-◌, ◌/◌, Bool, true, false, not, ◌||◌, Option, none, some, [], ltb, ◌==◌,
  if◌then◌else◌, Bytes,
}
use qubes_core_qrexec.Protocol.{
  protocol_v2, protocol_version, msg_hello, u32_bytes, u32_at, sizeof_header, header_bytes,
  header_at, sizeof_peer_info, read_exact,
}
use qubes_core_qrexec.Daemon.State.{
  ClientState, invalid, pending, port_unused, max_clients, Daemon, done, M, ◌>>=◌, ◌>>◌, pure,
  modify, vchan_send,
}
use qubes_core_qrexec.Daemon.Ports.{terminate_client}

-- `libvchan_recv` on the control vchan; `none` where it does not return the whole size.
unfoldable pub vchan_recv : ℕ → M (Option Bytes)
vchan_recv n d = elim (read_exact n d.vchan_incoming) [
  | none ↦ done none d
  | some (s, rest) ↦ done (some s) (record d { vchan_incoming = rest })
]

abbrev pub negotiated : ℕ → ℕ
negotiated version = if ltb version protocol_version then version else protocol_version

-- The daemon's own HELLO, which answers that of the agent.
unfoldable pub answer_hello : ℕ → M (Option ℕ)
answer_hello version = do
  header_sent ← vchan_send (header_bytes (record { type = msg_hello; len = sizeof_peer_info }))
  if header_sent
      then (vchan_send (u32_bytes protocol_version) >>= λ info_sent.
          if info_sent then pure (some version) else pure none)
      else pure none

abbrev pub check_version : Option Bytes → M (Option ℕ)
check_version none = pure none
check_version (some info) =
    if ltb (negotiated (u32_at info)) protocol_v2
    then pure none
    else answer_hello (negotiated (u32_at info))

abbrev pub check_hello : Option Bytes → M (Option ℕ)
check_hello none = pure none
check_hello (some s) =
    if not ((header_at s).type == msg_hello) || not ((header_at s).len == sizeof_peer_info)
    then pure none
    else (vchan_recv sizeof_peer_info >>= check_version)

-- The version agreed on; `none` for -1.
unfoldable pub handle_agent_hello : M (Option ℕ)
unfolding answer_hello
handle_agent_hello = vchan_recv sizeof_header >>= check_hello

abbrev pub is_invalid : ClientState → Bool
is_invalid invalid = true
is_invalid _ = false

-- The loop over `clients`, with the rounds left and the index.
unfoldable pub terminate_clients : ℕ → ℕ → Daemon → Daemon
terminate_clients zero i d = d
terminate_clients (suc n) i d =
    terminate_clients n (i + 1) (if is_invalid (d.clients i) then d else terminate_client i d)

unfoldable pub abort_requests : Daemon → Daemon
abort_requests d = record d {
  policy_pending = λ i. record (d.policy_pending i) { pid = 0 };
  pending_bound = 0;
}

-- What the outside does at a restart: a SIGTERM has come, or the new agent answers with what it
-- sends, or there is none.
pub data Reconnect : Type 0 where
  terminating : Reconnect
  refused : Reconnect
  connected : Bytes → Reconnect

abbrev pub reconnect : Reconnect → M Bool
reconnect terminating = pure false
reconnect refused = pure false
reconnect (connected incoming) = do
  modify (λ d. record d { vchan_incoming = incoming; vchan_sent = [] })
  version ← handle_agent_hello
  elim version [ none ↦ pure false | some v ↦ pure true ]

-- True where the daemon goes on, for 0; false for -1.
unfoldable pub handle_agent_restart : Reconnect → M Bool
handle_agent_restart outside = do
  modify (λ d. abort_requests (terminate_clients max_clients 0 d))
  reconnect outside

-- The state that `init` leaves, once `handle_agent_hello` has returned `version`.
abbrev pub start : ℕ → ℕ → Bytes → Daemon
start remote_domain_id version default_user = record {
  remote_domain_id = remote_domain_id;
  protocol_version = version;
  default_user = default_user;
  clients = λ fd. invalid;
  client_bound = 0;
  policy_pending = λ i. record { pid = 0; params = []; response_sent = pending };
  pending_bound = 0;
  used_vchan_ports = λ i. port_unused;
  vchan_port_notify_client = λ i. port_unused;
  vchan_incoming = [];
  client_incoming = λ fd. [];
  requests = [];
  vchan_sent = [];
  client_sent = [];
  closed = [];
  write_results = [];
}
