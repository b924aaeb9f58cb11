-- ===== src/Protocol/Layout.antt =====
-- libqrexec/qrexec.h: constants, `struct msg_header`, `struct exec_params`, `struct peer_info`.
use qubes_core_qrexec.Prelude.{
  ℕ, ◌+◌, ◌*◌, ◌/◌, ◌%◌, [], ◌∷◌, ◌++◌, Option, none, some, Bytes, length, take, drop, leb, ltb,
  if◌then◌else◌,
}

abbrev pub u32_mod : ℕ
u32_mod = 0x1_0000_0000

abbrev pub protocol_v2 : ℕ
protocol_v2 = 2

abbrev pub protocol_v3 : ℕ
protocol_v3 = 3

abbrev pub protocol_version : ℕ
protocol_version = 3

abbrev pub max_fds : ℕ
max_fds = 256

abbrev pub max_data_chunk_v2 : ℕ
max_data_chunk_v2 = 4096

abbrev pub max_data_chunk_v3 : ℕ
max_data_chunk_v3 = 65536

abbrev pub max_service_name_len : ℕ
max_service_name_len = 65000

abbrev pub max_qrexec_cmd_len : ℕ
max_qrexec_cmd_len = 65535

abbrev pub vchan_base_port : ℕ
vchan_base_port = 512

-- `enum`: daemon to agent, agent to daemon, both ways, data.
abbrev pub msg_exec_cmdline : ℕ
msg_exec_cmdline = 0x200

abbrev pub msg_just_exec : ℕ
msg_just_exec = 0x201

abbrev pub msg_service_connect : ℕ
msg_service_connect = 0x202

abbrev pub msg_service_refused : ℕ
msg_service_refused = 0x203

abbrev pub msg_trigger_service : ℕ
msg_trigger_service = 0x210

abbrev pub msg_connection_terminated : ℕ
msg_connection_terminated = 0x211

abbrev pub msg_trigger_service3 : ℕ
msg_trigger_service3 = 0x212

abbrev pub msg_hello : ℕ
msg_hello = 0x300

abbrev pub msg_data_stdin : ℕ
msg_data_stdin = 0x190

abbrev pub msg_data_stdout : ℕ
msg_data_stdout = 0x191

abbrev pub msg_data_stderr : ℕ
msg_data_stderr = 0x192

abbrev pub msg_data_exit_code : ℕ
msg_data_exit_code = 0x193

-- The exit codes.
abbrev pub exit_service_not_found : ℕ
exit_service_not_found = 127

abbrev pub exit_request_refused : ℕ
exit_request_refused = 126

abbrev pub exit_problem : ℕ
exit_problem = 125

abbrev pub max_data_chunk_size : ℕ → ℕ
max_data_chunk_size version =
    if ltb version protocol_v3 then max_data_chunk_v2 else max_data_chunk_v3

-- A `uint32_t` in memory.
abbrev pub u32_bytes : ℕ → Bytes
u32_bytes x = x % 256 ∷ (x / 256) % 256 ∷ (x / 65536) % 256 ∷ (x / 16777216) % 256 ∷ []

abbrev pub u32_at : Bytes → ℕ
u32_at [] = 0
u32_at (a ∷ []) = a
u32_at (a ∷ b ∷ []) = a + 256 * b
u32_at (a ∷ b ∷ c ∷ []) = a + 256 * b + 65536 * c
u32_at (a ∷ b ∷ c ∷ d ∷ s) = a + 256 * b + 65536 * c + 16777216 * d

pub record MsgHeader : Type 0 where
  pub type : ℕ
  pub len : ℕ

abbrev pub sizeof_header : ℕ
sizeof_header = 8

abbrev pub header_bytes : MsgHeader → Bytes
header_bytes h = u32_bytes h.type ++ u32_bytes h.len

abbrev pub header_at : Bytes → MsgHeader
header_at s = record { type = u32_at s; len = u32_at (drop 4 s) }

-- `struct exec_params`; `cmdline` is the flexible array at its end.
pub record ExecParams : Type 0 where
  pub connect_domain : ℕ
  pub connect_port : ℕ
  pub cmdline : Bytes

abbrev pub sizeof_exec_params : ℕ
sizeof_exec_params = 8

abbrev pub exec_params_bytes : ExecParams → Bytes
exec_params_bytes p = u32_bytes p.connect_domain ++ (u32_bytes p.connect_port ++ p.cmdline)

abbrev pub exec_params_at : Bytes → ExecParams
exec_params_at s = record {
  connect_domain = u32_at s;
  connect_port = u32_at (drop 4 s);
  cmdline = drop 8 s;
}

-- `struct service_params`, `struct trigger_service_params` and `struct trigger_service_params3`.
abbrev pub sizeof_service_params : ℕ
sizeof_service_params = 32

abbrev pub sizeof_trigger_params : ℕ
sizeof_trigger_params = 128

abbrev pub sizeof_trigger_params3 : ℕ
sizeof_trigger_params3 = 96

-- `struct peer_info`.
abbrev pub sizeof_peer_info : ℕ
sizeof_peer_info = 4

-- A read of exactly `n` bytes (`read_all`, `libvchan_recv`); `none` where the stream ends before.
abbrev pub read_exact : ℕ → Bytes → Option (Bytes × Bytes)
read_exact n s = if leb n (length s) then some (take n s, drop n s) else none
