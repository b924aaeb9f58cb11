-- ===== src/Daemon/Client.antt =====
-- daemon/qrexec-daemon.c: the local clients (`send_client_hello`, `handle_new_client`,
-- `handle_client_hello`, `handle_cmdline_message_from_client`,
-- `handle_cmdline_body_from_client`, `handle_message_from_client`).
pub mod Forward
pub mod Accept
use qubes_core_qrexec.Prelude.{
  ℕ, zero, suc, ◌+◌, ◌-◌, ◌/◌, ◌%◌, Bool, true, false, not, ◌&&◌, ◌||◌, Option, none, some, [], ◌∷◌,
  ◌++◌, ltb, leb, ◌==◌, if◌then◌else◌, update, length, get_or, drop, Bytes, codes, starts_with,
  first_from,
}
use qubes_core_qrexec.Protocol.{
  u32_mod, protocol_version, max_qrexec_cmd_len, msg_exec_cmdline, msg_just_exec,
  msg_service_connect, msg_hello, u32_bytes, u32_at, MsgHeader, sizeof_header, header_bytes,
  header_at, ExecParams, sizeof_exec_params, exec_params_bytes, exec_params_at, sizeof_peer_info,
  read_exact,
}
use qubes_core_qrexec.Daemon.State.{
  ClientState, invalid, hello, cmdline, running, allow, max_clients, vchan_base_data_port, Daemon,
  done, M, ◌>>=◌, ◌>>◌, pure, exit_with, modify, client_write, vchan_send_or_exit,
}
use qubes_core_qrexec.Daemon.Pending.{is_pending, set_response}
use qubes_core_qrexec.Daemon.Ports.{allocate_vchan_port, terminate_client, release_vchan_port}

abbrev pub set_state : ℕ → ClientState → Daemon → Daemon
set_state fd s d = record d { clients = update d.clients fd s }

-- Two writes, the second only if the first succeeds.
abbrev pub write_both : ℕ → Bytes → Bytes → M Bool
write_both fd a b = do first ← client_write fd a; if first then client_write fd b else pure false

unfoldable pub send_client_hello : ℕ → M Bool
send_client_hello fd =
    write_both fd (header_bytes (record { type = msg_hello; len = sizeof_peer_info }))
      (u32_bytes protocol_version)

abbrev pub greeted : ℕ → Daemon → Daemon
greeted fd d = record (set_state fd hello d) {
  client_bound = if ltb fd d.client_bound then d.client_bound else fd + 1;
}

abbrev pub not_greeted : ℕ → Daemon → Daemon
not_greeted fd d = record (set_state fd invalid d) { closed = d.closed ++ (fd ∷ []) }

-- `fd` is what `accept` returns, `none` for -1.
unfoldable pub handle_new_client : Option ℕ → M (Unit {0})
unfolding send_client_hello
handle_new_client none = exit_with 1
handle_new_client (some fd) =
    if leb max_clients fd
    then exit_with 1
    else do ok ← send_client_hello fd; if ok then modify (greeted fd) else modify (not_greeted fd)

-- `read_all` from a client; `none` where it closes before.
unfoldable pub client_read : ℕ → ℕ → M (Option Bytes)
client_read fd n d = elim (read_exact n (d.client_incoming fd)) [
  | none ↦ done none d
  | some (s, rest) ↦ done (some s) (record d { client_incoming = update d.client_incoming fd rest })
]

abbrev pub terminated : ℕ → M Bool
terminated fd = do modify (terminate_client fd); pure false

-- `strncmp(a, b, n) == 0`
unfoldable pub strncmp_eq : ℕ → Bytes → Bytes → Bool
strncmp_eq zero a b = true
strncmp_eq (suc n) a b =
    let x = get_or a 0 0 in
    let y = get_or b 0 0 in
    if x == y then (if x == 0 then true else strncmp_eq n (drop 1 a) (drop 1 b)) else false

-- The request that a MSG_SERVICE_CONNECT answers: the first that waits and has this identifier.
unfoldable pub find_request : Bytes → Daemon → Option ℕ
find_request buf d =
    first_from
      (λ i.
        not ((d.policy_pending i).pid == 0)
        && is_pending (d.policy_pending i).response_sent
        && strncmp_eq (length buf) (d.policy_pending i).params buf)
      1 d.pending_bound d.pending_bound 0

-- The checks on the type and, for MSG_SERVICE_CONNECT, on the identifier; `none` for `terminate`.
unfoldable pub accept_request : MsgHeader → ExecParams → Daemon → Option Daemon
accept_request hdr params d =
    if hdr.type == msg_service_connect
    then elim (find_request params.cmdline d) [
      | none ↦ none
      | some i ↦ some (set_response i allow d)
    ]
    else if not (hdr.type == msg_just_exec) && not (hdr.type == msg_exec_cmdline)
    then none
    else some d

abbrev pub default_user_keyword : Bytes
default_user_keyword = codes "DEFAULT:"

abbrev pub uses_default_user : MsgHeader → ExecParams → Bool
uses_default_user hdr params =
    not (hdr.type == msg_service_connect) && starts_with default_user_keyword params.cmdline

-- The header with its length for the user's name in place of "DEFAULT", a `uint32_t`.
abbrev pub default_user_header : Bytes → MsgHeader → MsgHeader
default_user_header user hdr = record hdr { len = (hdr.len + u32_mod - 7 + length user) % u32_mod }

-- The message goes on to the agent.
unfoldable pub forward_cmdline : MsgHeader → ExecParams → M Bool
forward_cmdline hdr params d =
    if uses_default_user hdr params
    then (do
      vchan_send_or_exit (header_bytes (default_user_header d.default_user hdr))
      vchan_send_or_exit (exec_params_bytes (record params { cmdline = [] }))
      vchan_send_or_exit d.default_user
      vchan_send_or_exit (drop 7 params.cmdline)
      pure true)
        d
    else (do
      vchan_send_or_exit (header_bytes hdr)
      vchan_send_or_exit (exec_params_bytes params)
      pure true)
        d

abbrev pub request_notify : ℕ → ℕ → Daemon → Daemon
request_notify port fd d = record d {
  vchan_port_notify_client = update d.vchan_port_notify_client (port - vchan_base_data_port) fd;
}

-- The client is gone before it learnt its port: it is closed, and the port given back.
unfoldable pub give_back_port : ℕ → ExecParams → Daemon → Daemon
give_back_port fd params d =
    release_vchan_port params.connect_port params.connect_domain (terminate_client fd d)

-- The port is told to the client; if that fails the port is given back.
unfoldable pub announce_port : ℕ → MsgHeader → ExecParams → M Bool
unfolding give_back_port
announce_port fd hdr params d =
    (write_both fd (header_bytes (record hdr { len = sizeof_exec_params })) (
          exec_params_bytes (record {
            connect_domain = d.remote_domain_id;
            connect_port = params.connect_port;
            cmdline = [];
          }))
        >>= λ written.
            if written
            then forward_cmdline hdr params
            else (modify (give_back_port fd params) >> pure false))
      d

unfoldable pub assign_port : ℕ → MsgHeader → ExecParams → M Bool
assign_port fd hdr params d =
    let (port, d') = allocate_vchan_port params.connect_domain d in
    if params.connect_port == 0
    then if port == 0
      then terminated fd d'
      else announce_port fd hdr (record params { connect_port = port }) (request_notify port fd d')
    else if leb vchan_base_data_port params.connect_port
        && ltb params.connect_port (vchan_base_data_port + max_clients)
    then forward_cmdline hdr params d
    else terminated fd d

unfoldable pub handle_cmdline : ℕ → MsgHeader → ExecParams → M Bool
handle_cmdline fd hdr params d =
    if get_or params.cmdline (hdr.len - sizeof_exec_params - 1) 1 == 0
    then elim (accept_request hdr params d) [
      | none ↦ terminated fd d
      | some d' ↦ assign_port fd hdr params d'
    ]
    else terminated fd d

-- False where the client has been terminated. The allocation is taken to succeed.
unfoldable pub handle_cmdline_body_from_client : ℕ → MsgHeader → M Bool
handle_cmdline_body_from_client fd hdr =
    if leb hdr.len sizeof_exec_params
    then terminated fd
    else if ltb max_qrexec_cmd_len hdr.len
    then terminated fd
    else (client_read fd hdr.len >>= λ r. elim r [
      | none ↦ terminated fd
      | some body ↦ handle_cmdline fd hdr (exec_params_at body)
    ])

abbrev pub is_cmdline_type : ℕ → Bool
is_cmdline_type t = t == msg_exec_cmdline || t == msg_just_exec || t == msg_service_connect

unfoldable pub handle_cmdline_message_from_client : ℕ → M (Unit {0})
handle_cmdline_message_from_client fd = client_read fd sizeof_header >>= λ r. elim r [
  | none ↦ modify (terminate_client fd)
  | some s ↦
      if is_cmdline_type (header_at s).type
      then (handle_cmdline_body_from_client fd (header_at s) >>= λ accepted.
          if accepted then modify (set_state fd running) else pure tt)
      else modify (terminate_client fd)
]

unfoldable pub handle_client_hello : ℕ → M (Unit {0})
handle_client_hello fd = client_read fd sizeof_header >>= λ r. elim r [
  | none ↦ modify (terminate_client fd)
  | some s ↦
      if not ((header_at s).type == msg_hello) || not ((header_at s).len == sizeof_peer_info)
      then modify (terminate_client fd)
      else (client_read fd sizeof_peer_info >>= λ b. elim b [
        | none ↦ modify (terminate_client fd)
        | some info ↦
            if u32_at info == protocol_version
            then modify (set_state fd cmdline)
            else modify (terminate_client fd)
      ])
]

abbrev pub by_state : ClientState → ℕ → M (Unit {0})
by_state hello fd = handle_client_hello fd
by_state cmdline fd = handle_cmdline_message_from_client fd
by_state running fd = modify (terminate_client fd)
by_state invalid fd = pure tt

-- In CLIENT_RUNNING the end of the file is expected; other input is logged.
unfoldable pub handle_message_from_client : ℕ → M (Unit {0})
handle_message_from_client fd d = by_state (d.clients fd) fd d
