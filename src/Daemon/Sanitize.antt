-- ===== src/Daemon/Sanitize.antt =====
-- daemon/qrexec-daemon.c: the checks on what an agent sends (`sanitize_name`,
-- `validate_request_id`, `validate_service_name`, `sanitize_message_from_agent`).
-- A name is the C string in its buffer, without the NUL; an `ident` is its whole array.
pub mod Names
pub mod RequestId
use qubes_core_qrexec.Prelude.{
  ℕ, ◌+◌, ◌-◌, ◌/◌, Bool, true, false, ◌&&◌, ◌||◌, Option, none, some, [], ◌∷◌, ltb, leb, ◌==◌,
  if◌then◌else◌, Bytes, within, contains,
}
use qubes_core_qrexec.Protocol.{
  protocol_v3, max_service_name_len, msg_trigger_service, msg_connection_terminated,
  msg_trigger_service3, MsgHeader, sizeof_exec_params, sizeof_trigger_params,
  sizeof_trigger_params3,
}

abbrev pub is_alnum : ℕ → Bool
is_alnum c = within b'a' b'z' c || within b'A' b'Z' c || within b'0' b'9' c

abbrev pub is_mark : ℕ → Bool
is_mark c = c == b'_' || c == b'-' || c == b'.'

-- A byte that `sanitize_name` leaves alone.
unfoldable pub is_allowed : Bytes → ℕ → Bool
is_allowed extra c = is_alnum c || is_mark c || contains c extra

abbrev pub sanitize_byte : Bytes → ℕ → ℕ
sanitize_byte extra c = if is_allowed extra c then c else b'_'

unfoldable pub sanitize_name : Bytes → Bytes → Bytes
sanitize_name extra [] = []
sanitize_name extra (c ∷ s) = sanitize_byte extra c ∷ sanitize_name extra s

unfoldable pub is_ident_byte : ℕ → Bool
is_ident_byte c = is_alnum c || is_mark c || c == b' '

-- The inner loop: nothing but NUL after the terminator.
unfoldable pub all_nul : Bytes → Bool
all_nul [] = true
all_nul (c ∷ s) = c == 0 && all_nul s

unfoldable pub validate_request_id : Bytes → Bool
unfolding is_ident_byte all_nul
validate_request_id [] = false
validate_request_id (c ∷ s) =
    if is_ident_byte c then validate_request_id s else if c == 0 then all_nul s else false

-- The sanitized name, or `none` for false.
unfoldable pub validate_service_name : Bytes → Option Bytes
unfolding sanitize_name
validate_service_name [] = none
validate_service_name (c ∷ s) = if c == b'+' then none else some (sanitize_name (b'+' ∷ []) (c ∷ s))

-- False where the daemon exits.
unfoldable pub sanitize_message_from_agent : ℕ → MsgHeader → Bool
sanitize_message_from_agent version h =
    if h.type == msg_trigger_service
    then ltb version protocol_v3 && h.len == sizeof_trigger_params
    else if h.type == msg_trigger_service3
    then leb protocol_v3 version
      && ltb sizeof_trigger_params3 h.len
      && leb (h.len - sizeof_trigger_params3) max_service_name_len
    else if h.type == msg_connection_terminated
    then h.len == sizeof_exec_params
    else false
