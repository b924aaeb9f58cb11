-- ===== src/Agent/ForkServer.antt =====
-- agent/qrexec-fork-server.c: what the fork server starts for what the agent writes to it
-- (`try_fork_server` of agent/qrexec-agent.c).
pub mod Handover
use qubes_core_qrexec.Prelude.{
  ℕ, ◌-◌, false, not, Option, none, some, [], ◌∷◌, ltb, ◌==◌, if◌then◌else◌, drop, Bytes, strlen,
  c_string,
}
use qubes_core_qrexec.Protocol.{u32_at, read_exact}
use qubes_core_qrexec.Rpc.Command.{ParsedCommand, parse_qubes_rpc_command}
use qubes_core_qrexec.Agent.State.{NewProcess}
use qubes_core_qrexec.Agent.Requests.{try_fork_server}

-- `struct qrexec_cmd_info`, without the command line.
pub record CmdInfo : Type 0 where
  pub type : ℕ
  pub connect_domain : ℕ
  pub connect_port : ℕ
  pub cmdline_len : ℕ

abbrev pub sizeof_cmd_info : ℕ
sizeof_cmd_info = 16

abbrev pub cmd_info_at : Bytes → CmdInfo
cmd_info_at s = record {
  type = u32_at s;
  connect_domain = u32_at (drop 4 s);
  connect_port = u32_at (drop 8 s);
  cmdline_len = u32_at (drop 12 s);
}

abbrev pub byte_at : ℕ → Bytes → ℕ
byte_at i s = elim (drop i s) [ [] ↦ 0 | c ∷ _ ↦ c ]

abbrev pub new_process : CmdInfo → Option ParsedCommand → Option NewProcess
new_process info none = none
new_process info (some cmd) = some (record {
  type = info.type;
  connect_domain = info.connect_domain;
  connect_port = info.connect_port;
  cmd = some cmd;
})

-- The command line that was read: it must hold one NUL, at its end.
unfoldable pub check_cmdline : CmdInfo → Option (Bytes × Bytes) → Option NewProcess
check_cmdline info none = none
check_cmdline info (some (cmdline, _)) =
    if not (byte_at (info.cmdline_len - 1) cmdline == 0)
    then none
    else if not (strlen cmdline == info.cmdline_len - 1)
    then none
    else new_process info (parse_qubes_rpc_command (c_string cmdline) false)

-- The process that is started, with what arrives behind the structure.
unfoldable pub handle_single_command : CmdInfo → Bytes → Option NewProcess
handle_single_command info input =
    if ltb 0x7fff_ffff info.cmdline_len
    then none
    else if ltb info.cmdline_len 1
    then none
    else check_cmdline info (read_exact info.cmdline_len input)

abbrev pub after_info : Option (Bytes × Bytes) → Option NewProcess
after_info none = none
after_info (some (s, rest)) = handle_single_command (cmd_info_at s) rest

-- One connection of the loop of `main`.
unfoldable pub serve : Bytes → Option NewProcess
serve input = after_info (read_exact sizeof_cmd_info input)
