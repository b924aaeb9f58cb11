-- ===== src/Daemon/Agent.antt =====
-- daemon/qrexec-daemon.c: `handle_message_from_agent` and `handle_connection_terminated`.
-- A structure that arrives is taken apart at the offsets of its fields; a `char` array whose last
-- byte is set to NUL is the C string in all of its bytes but that one.
use qubes_core_qrexec.Prelude.{
  ℕ, ◌+◌, ◌-◌, not, ◌||◌, Option, none, some, [], ◌∷◌, ltb, leb, ◌==◌, if◌then◌else◌, get_or, take,
  drop, Bytes, strlen, c_string,
}
use qubes_core_qrexec.Protocol.{
  msg_trigger_service, msg_trigger_service3, MsgHeader, sizeof_header, header_at,
  sizeof_exec_params, exec_params_at, sizeof_trigger_params, sizeof_trigger_params3, read_exact,
}
use qubes_core_qrexec.Daemon.State.{
  max_clients, vchan_base_data_port, done, exit, M, ◌>>=◌, exit_with, modify,
}
use qubes_core_qrexec.Daemon.Ports.{release_vchan_port}
use qubes_core_qrexec.Daemon.Sanitize.{
  sanitize_name, validate_request_id, validate_service_name, sanitize_message_from_agent,
}
use qubes_core_qrexec.Daemon.Pending.{send_service_refused, handle_execute_service}

-- `libvchan_recv` of `n` bytes, whose failure ends the process (`handle_vchan_error`).
unfoldable pub vchan_recv_or_exit : ℕ → M Bytes
vchan_recv_or_exit n d = elim (read_exact n d.vchan_incoming) [
  | none ↦ exit 1 d
  | some (s, rest) ↦ done s (record d { vchan_incoming = rest })
]

-- The part that both messages share, from `validate_service_name` on.
unfoldable pub execute_validated : Option ℕ → Bytes → Bytes → Bytes → M (Unit {0})
execute_validated fork target service ident = elim (validate_service_name service) [
  | none ↦ send_service_refused ident
  | some name ↦ handle_execute_service fork target name ident
]

-- MSG_TRIGGER_SERVICE, on its 128 bytes.
unfoldable pub handle_trigger_service : Option ℕ → Bytes → M (Unit {0})
handle_trigger_service fork params =
    let service = sanitize_name (b'+' ∷ []) (c_string (take 63 params)) in
    let target = sanitize_name (b'@' ∷ b':' ∷ []) (c_string (take 31 (drop 64 params))) in
    let ident = take 32 (drop 96 params) in
    if not (validate_request_id ident)
    then send_service_refused ident
    else execute_validated fork target service ident

-- MSG_TRIGGER_SERVICE3, on its `len` bytes.
unfoldable pub handle_trigger_service3 : Option ℕ → ℕ → Bytes → M (Unit {0})
handle_trigger_service3 fork len params =
    let service_name_len = len - sizeof_trigger_params3 - 1 in
    let target = sanitize_name (b'@' ∷ b':' ∷ []) (c_string (take 63 params)) in
    let ident = take 32 (drop 64 params) in
    let service_name = drop sizeof_trigger_params3 params in
    if not (validate_request_id ident)
    then send_service_refused ident
    else if not (get_or service_name service_name_len 1 == 0)
    then send_service_refused ident
    else if not (strlen service_name == service_name_len)
    then send_service_refused ident
    else execute_validated fork target (c_string service_name) ident

unfoldable pub handle_connection_terminated : M (Unit {0})
handle_connection_terminated = do
  untrusted ← vchan_recv_or_exit sizeof_exec_params
  let params = exec_params_at untrusted
  if ltb params.connect_port vchan_base_data_port
        || leb (vchan_base_data_port + max_clients) params.connect_port
      then exit_with 1
      else modify (release_vchan_port params.connect_port params.connect_domain)

-- After the header, by its type.
unfoldable pub handle_checked_message : Option ℕ → MsgHeader → M (Unit {0})
handle_checked_message fork hdr =
    if hdr.type == msg_trigger_service
    then (vchan_recv_or_exit sizeof_trigger_params >>= handle_trigger_service fork)
    else if hdr.type == msg_trigger_service3
    then (vchan_recv_or_exit hdr.len >>= handle_trigger_service3 fork hdr.len)
    else handle_connection_terminated

unfoldable pub handle_message_from_agent : Option ℕ → M (Unit {0})
handle_message_from_agent fork d =
    (vchan_recv_or_exit sizeof_header >>= λ untrusted.
    if sanitize_message_from_agent d.protocol_version (header_at untrusted)
    then handle_checked_message fork (header_at untrusted)
    else exit_with 1)
      d
