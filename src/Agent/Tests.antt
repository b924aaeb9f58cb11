-- ===== src/Agent/Tests.antt =====
-- The theorems on the agent at concrete inputs.
use qubes_core_qrexec.Prelude.{
  arith, read_digits, ℕ, ◌+◌, ◌≡◌, refl, ap, ◌∙◌, true, false, none, some, List, [], ◌∷◌, ◌++◌,
  if◌then◌else◌, update, length, All, Bytes, codes, bytes_eq, first_from,
}
use qubes_core_qrexec.Protocol.{
  msg_exec_cmdline, header_bytes, ExecParams, sizeof_exec_params, exec_params_bytes,
}
use qubes_core_qrexec.Config.File.{
  lines, chop, chop_newline, chop_blanks, read_key, read_entry, read_line, key_of, set, set_once,
  set_key, parse_entry, parse_lines, qubes_toml_config_parse,
}
use qubes_core_qrexec.Config.Value.{
  is_key_byte, at_end, strtoull, read_string, read_value, parse_toml_value,
}
use qubes_core_qrexec.Rpc.Command.{
  ParsedCommand, strip_user, strip_nogui, parse_stripped, parse_service, parse_descriptor,
  parse_qubes_rpc_command,
}
use qubes_core_qrexec.Rpc.Find.{
  other, Stat, present, enoent, after_lstat, look_up, search_path, find_file, find_service,
  load_found, load_service_config_raw, with_config_user, load_service_config_v2,
  qrexec_cmd_use_fork_server,
}
use qubes_core_qrexec.Agent.State.{
  Connection, WaitingRequest, Agent, succeeds, Outside, done, ◌>>=◌, vchan_recv_or_exit,
}
use qubes_core_qrexec.Agent.Connections.{register_vchan_connection}
use qubes_core_qrexec.Agent.Requests.{
  wake_meminfo_writer, start_process, cmd_info_bytes, try_fork_server,
  handle_server_exec_request_do, wait_for_session_maybe, postpone, maybe_wait, with_command,
  with_params, handle_server_exec_request_init, dispatch_server_cmd, handle_server_cmd,
}
use qubes_core_qrexec.Agent.Events.{
  handle_trigger_io, resume_slot, resume_waiting, session_ready, reap_child, reap_children, start,
}
use qubes_core_qrexec.Agent.ClientVm.{trigger_request}
use qubes_core_qrexec.Agent.ClientVm.Forwards.{Forwards, trigger_request-Forwards}
use qubes_core_qrexec.Agent.ForkServer.{new_process, serve}
use qubes_core_qrexec.Agent.ForkServer.Handover.{handed_over, fork_server-same}
use qubes_core_qrexec.Agent.Invariant.Accounts.{IsBalanced}
use qubes_core_qrexec.Agent.Invariant.Steps.{
  IsReport, arrival, children_exited, server_message, Reach, here, next,
}
use qubes_core_qrexec.Agent.Invariant.Reached.{connections-IsBalanced, leaked_connection-stays}

-- A service whose configuration asks for the session.
abbrev at_path : Bytes → Stat
at_path path = if bytes_eq path (codes "/e/q") then present other else enoent

abbrev outside : Outside
outside = record {
  files = record {
    lstat = at_path;
    stat = at_path;
    readlink = λ path. none;
    contents = λ path. codes "wait-for-session = true";
  };
  config_path = codes "/e";
  session_child = some 7;
  ident_write = succeeds;
  has_fork_server = false;
  fork_server = λ user. none;
  info_written = true;
  cmdline_written = true;
  child = some 9;
  meminfo_pid = none;
  kill_succeeds = false;
  uninitialized = 0;
}

abbrev cmdline : Bytes
cmdline = codes "u:QUBESRPC q a" ++ (0 ∷ [])

abbrev request : Bytes
request =
    header_bytes (record { type = msg_exec_cmdline; len = sizeof_exec_params + length cmdline })
    ++ exec_params_bytes (record { connect_domain = 3; connect_port = 513; cmdline = cmdline })

abbrev asked : Agent
asked = record start { vchan_incoming = request; send_results = [] }

abbrev command : ParsedCommand
command = record {
  cmdline = codes "u:QUBESRPC q a";
  username = some (codes "u");
  nogui = false;
  command = codes "QUBESRPC q a";
  service_descriptor = some (codes "q+");
  service_name = some (codes "q");
  source_domain = some (codes "a");
  wait_for_session = false;
  send_service_descriptor = true;
  exit_on_stdin_eof = false;
  exit_on_stdout_eof = false;
  arg = none;
}

parsed_run : parse_qubes_rpc_command (codes "u:QUBESRPC q a") true ≡ some command
unfolding parse_qubes_rpc_command strip_user strip_nogui parse_stripped parse_service
    parse_descriptor
parsed_run = refl

abbrev loaded : ParsedCommand
loaded = record command { wait_for_session = true }

loaded_run :
    load_service_config_v2 outside.files (codes "/e") (codes "q+") (codes "q") command ≡ some loaded
unfolding load_service_config_v2 with_config_user load_service_config_raw load_found find_service
    find_file search_path look_up after_lstat qubes_toml_config_parse lines chop chop_newline
    chop_blanks read_key read_entry read_line key_of set set_once set_key parse_entry parse_lines
    read_digits strtoull read_string read_value parse_toml_value is_key_byte at_end
loaded_run = refl

abbrev params : ExecParams
params = record { connect_domain = 3; connect_port = 513; cmdline = codes "u:QUBESRPC q a" }

abbrev waiting : WaitingRequest
waiting = record { type = msg_exec_cmdline; params = params; cmd = some loaded }

-- The request is kept in the first slot, and a child waits for the session.
abbrev waits : Agent
waits = record start {
  requests_waiting_for_session = update start.requests_waiting_for_session 0 (some waiting);
  wait_for_session_pid = some 7;
}

received_run :
    handle_server_cmd outside asked ≡ done (with_params outside msg_exec_cmdline params start)
unfolding handle_server_cmd vchan_recv_or_exit dispatch_server_cmd handle_server_exec_request_init
    wake_meminfo_writer
received_run = refl

command_run :
    (a : Agent)
    → with_command outside msg_exec_cmdline command params a
      ≡ maybe_wait outside msg_exec_cmdline loaded params a
unfolding with_command
command_run a = rw (loaded_run, with_command) refl

params_run :
    (a : Agent)
    → with_params outside msg_exec_cmdline params a
      ≡ maybe_wait outside msg_exec_cmdline loaded params a
unfolding with_params
params_run a = rw (parsed_run, with_params) (command_run a)

waits_run : with_params outside msg_exec_cmdline params start ≡ waits
unfolding maybe_wait wait_for_session_maybe postpone first_from
waits_run = params_run start

-- The session is there: the child is forked, and has the first entry of the table.
abbrev entry : Connection
entry = record { pid = some 9; fd = none; connect_domain = 3; connect_port = 513 }

abbrev runs : Agent
runs = record start {
  connection_info = update start.connection_info 0 entry;
  requests_waiting_for_session = update waits.requests_waiting_for_session 0 none;
  processes =
      record { type = msg_exec_cmdline; connect_domain = 3; connect_port = 513; cmd = some loaded }
      ∷ [];
  registered = entry ∷ [];
}

abbrev session_child : List (ℕ × (ℕ → Outside))
session_child = (7, λ slot. outside) ∷ []

runs_run : reap_children session_child waits ≡ done runs
unfolding reap_children reap_child session_ready resume_waiting resume_slot
    handle_server_exec_request_do start_process register_vchan_connection qrexec_cmd_use_fork_server
    try_fork_server first_from ◌>>=◌
runs_run = refl

reports : All IsReport session_child
reports = (record { is_child = λ e. cc e; children = λ i e. cc e }, tt)

reached : Reach start runs
reached =
    next
      (next (next here (arrival request []))
        (server_message outside (λ e. cc e) (received_run ∙ ap (λ a. done a) waits_run)))
      (children_exited session_child reports runs_run)

connections-IsBalanced_example : IsBalanced runs
connections-IsBalanced_example = connections-IsBalanced runs reached

-- An entry that was registered when `fork` failed.
abbrev leaks : Agent
leaks = record start {
  connection_info =
      update start.connection_info 0
        (record { pid = none; fd = none; connect_domain = 3; connect_port = 513 });
  vchan_incoming = request;
}

abbrev leaks_on : Agent
leaks_on = record leaks {
  vchan_incoming = [];
  requests_waiting_for_session = waits.requests_waiting_for_session;
  wait_for_session_pid = some 7;
}

leaks_received :
    handle_server_cmd outside leaks
    ≡ done (with_params outside msg_exec_cmdline params (record leaks { vchan_incoming = [] }))
unfolding handle_server_cmd vchan_recv_or_exit dispatch_server_cmd handle_server_exec_request_init
    wake_meminfo_writer
leaks_received = refl

leaks_run :
    with_params outside msg_exec_cmdline params (record leaks { vchan_incoming = [] }) ≡ leaks_on
unfolding maybe_wait wait_for_session_maybe postpone first_from
leaks_run = params_run (record leaks { vchan_incoming = [] })

leaked_connection-stays_example : leaks_on.connection_info 0 ≡ leaks.connection_info 0
leaked_connection-stays_example =
    leaked_connection-stays leaks leaks_on 0
      (next here (server_message outside (λ e. cc e) (leaks_received ∙ ap (λ a. done a) leaks_run)))
      refl refl

abbrev sending : Agent
sending = record start { send_results = [] }

trigger_request-Forwards_example :
    (a' : Agent) × (handle_trigger_io
        (some 5)
        (trigger_request (codes "$dispvm") (codes "q.X+a"))
        sending
      ≡ done a')
    × Forwards 5 (codes "@dispvm") (codes "q.X+a") sending a'
trigger_request-Forwards_example =
    trigger_request-Forwards 5 (codes "$dispvm") (codes "q.X+a") sending (omega arith) refl
      (omega arith) (omega arith) refl

abbrev forking : Outside
forking = record outside { has_fork_server = true; fork_server = λ user. some 4 }

fork_server-same_example :
    (try_fork_server forking 0x201 3 513 (codes "u:ls") (some (codes "u")) start
      ≡ (some 4, handed_over 4 (cmd_info_bytes 0x201 3 513 3) (codes "ls" ++ (0 ∷ [])) start))
    × (serve (cmd_info_bytes 0x201 3 513 3 ++ (codes "ls" ++ (0 ∷ [])))
        ≡ new_process
            (record { type = 0x201; connect_domain = 3; connect_port = 513; cmdline_len = 3 })
            (parse_qubes_rpc_command (codes "ls") false))
fork_server-same_example =
    fork_server-same forking 4 0x201 3 513 (codes "u:ls") (codes "u") (codes "ls")
      (some (codes "u")) start refl refl refl refl refl refl (omega arith) (omega arith)
      (omega arith) (omega arith)
