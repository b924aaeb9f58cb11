-- ===== src/Dom0/Tests.antt =====
-- The theorems on connections of dom0 and of the agent's processes at concrete inputs.
use qubes_core_qrexec.Prelude.{
  decimal, ℕ, ◌+◌, ◌↔◌, bytes_eq, if◌then◌else◌, ◌≡◌, refl, Bool, true, false, Option, none, some,
  List, [], ◌∷◌, ◌++◌, arith, drop, Bytes, codes,
}
use qubes_core_qrexec.Protocol.{
  protocol_version, msg_exec_cmdline, msg_just_exec, sizeof_header, header_bytes,
  sizeof_exec_params, sizeof_service_params,
}
use qubes_core_qrexec.Io.Memory.{empty_buffer}
use qubes_core_qrexec.Io.Channel.Receiver.{Receiver}
use qubes_core_qrexec.Agent.Ident.{number, socket_ident, scan_socket}
use qubes_core_qrexec.Agent.Requests.{received_params}
use qubes_core_qrexec.Agent.Data.{
  DataProcess, service_missing, data_request, handle_just_exec, handle_new_process_common,
}
use qubes_core_qrexec.Agent.Data.Stream.{OnlyExitCode, new_process-HasStream}
use qubes_core_qrexec.Dom0.Link.{Link, write_link, read_link}
use qubes_core_qrexec.Dom0.Handshake.{
  hello_bytes, Agrees, fresh, receive_hello, handle_agent_handshake, handle_daemon_handshake,
  handle_handshake, handshakes-agree,
}
use qubes_core_qrexec.Dom0.Connect.{
  Attempt, missing, reached, granted_params, connect_unix_socket, negotiate_connection_params,
  send_service_connect, service_connect-socket,
}
use qubes_core_qrexec.Dom0.Execute.{
  Execution, World, Executed, returned, create_disposable, start_vm, kill_vm, kill_if, announce,
  with_socket, after_start, autostarts, after_create, execute_disposable, qrexec_execute_vm,
}
use qubes_core_qrexec.Dom0.Execute.Disposable.{Disposes, execute_vm-Disposes}
use qubes_core_qrexec.Dom0.Execute.Requests.{AnnouncesIfTrue}
use qubes_core_qrexec.Dom0.Execute.Announce.{execute_vm-Announces}
use qubes_core_qrexec.Dom0.Run.{Local, HandshakeParams, not_found, select_request, handshake_and_go}
use qubes_core_qrexec.Dom0.Run.Stream.{HasStream, handshake_and_go-HasStream}

handshakes-agree_example :
    let l : Link = fresh (hello_bytes 2 ++ codes "x") in
    ((first : Bool) → Agrees 2 (handle_agent_handshake first l).0)
    × Agrees 2 (handle_handshake l).0
    × (((handle_daemon_handshake l).0 ≡ true) ↔ (◌≡◌ {A = ℕ} 2 3))
handshakes-agree_example = handshakes-agree 2 (codes "x") (omega arith)

service_connect-socket_example :
    let sent =
      (send_service_connect
        (socket_ident 12)
        7
        513
        (record { incoming = []; sent = []; send_results = [] })).1.sent in
    let params =
      received_params (sizeof_exec_params + sizeof_service_params) (drop sizeof_header sent) in
    (scan_socket params.cmdline ≡ number 12)
    × (params.connect_domain ≡ 7)
    × (params.connect_port ≡ 513)
service_connect-socket_example =
    service_connect-socket 12 7 513 (omega arith) (omega arith) (omega arith)

-- A disposable is created and started; both daemons answer.
abbrev execution : Execution
execution = record {
  target = codes "@dispvm:t";
  autostart = true;
  remote_domain_id = 3;
  cmd = codes "user:ls" ++ (0 ∷ []);
  request_id = codes "SOCKET5";
  just_exec = false;
  wait_connection_end = false;
}

abbrev daemon_link : Bytes → Link
daemon_link answer = fresh (hello_bytes protocol_version ++ answer)

-- A daemon by this name, which answers so, and no other one.
abbrev only : Bytes → Bytes → Bytes → Attempt
only name answer asked = if bytes_eq asked name then reached (daemon_link answer) else missing

abbrev world : World
world = record {
  socket_dir = codes "/run";
  qubesd = λ dest method. some (b'0' ∷ 0 ∷ codes "disp1");
  attempts =
      only (codes "disp1") (
        header_bytes (record { type = msg_exec_cmdline; len = sizeof_exec_params })
        ++ granted_params 7 513)
      ∷ only (codes "3") []
      ∷ [];
  called = [];
  requests = [];
}

execute_vm-Disposes_example : Disposes execution world (qrexec_execute_vm execution world)
execute_vm-Disposes_example = execute_vm-Disposes execution world refl

execute_vm-Announces_example : AnnouncesIfTrue execution world (qrexec_execute_vm execution world)
execute_vm-Announces_example = execute_vm-Announces execution world

-- It succeeds, with these calls.
abbrev calls_of : Executed → Option (Bool × List (Bytes × Bytes))
calls_of (returned ok w) = some (ok, w.called)
calls_of _ = none

executed_run :
    calls_of (qrexec_execute_vm execution world)
    ≡ some (
      true,
      (codes "t", create_disposable) ∷ (codes "disp1", start_vm) ∷ (codes "disp1", kill_vm) ∷ [],
    )
unfolding qrexec_execute_vm execute_disposable after_create autostarts after_start with_socket
    announce kill_if connect_unix_socket handle_daemon_handshake receive_hello read_link write_link
    negotiate_connection_params send_service_connect decimal
executed_run = refl

abbrev receiver : Receiver
receiver = record {
  incoming = [];
  stdin = record { written = []; results = []; buffer = empty_buffer; total_mem = 0 };
  stderr = [];
  status = 0;
}

abbrev local : Local
local = record {
  stdin_fd = 10;
  stdout_fd = 11;
  local_pid = 5;
  is_pipe = λ fd. true;
  exit_on_stdin_eof = false;
  exit_on_stdout_eof = false;
  receiver = receiver;
  events = [];
  last = none;
}

-- A service in dom0 that is not found.
abbrev params : HandshakeParams
params = record {
  vchan_open = true;
  remote_send_first = true;
  prepare_ret = not_found;
  exit_with_code = true;
  replace_chars_stdout = false;
  replace_chars_stderr = false;
}

handshake_and_go-HasStream_example :
    HasStream
      (select_request params local 2)
      (handshake_and_go params local (fresh (hello_bytes 2 ++ [])))
handshake_and_go-HasStream_example =
    handshake_and_go-HasStream params local 2 2 [] refl refl refl (omega arith) refl

abbrev process : DataProcess
process = record {
  vchan_connects = true;
  service = service_missing;
  fork_succeeds = true;
  execution = not_found;
  stdin_fd = 10;
  stdout_fd = 11;
  stderr_fd = some 12;
  pid = 5;
  is_pipe = λ fd. true;
  replace_chars_stdout = false;
  replace_chars_stderr = false;
  receiver = receiver;
  events = [];
  last = none;
}

new_process-HasStream_example :
    HasStream
      (data_request process true none 3)
      (handle_new_process_common msg_exec_cmdline process none (fresh (hello_bytes 3 ++ [])))
    × OnlyExitCode
        (handle_just_exec process none)
        (handle_new_process_common msg_just_exec process none (fresh (hello_bytes 3 ++ [])))
new_process-HasStream_example = new_process-HasStream process none 3 3 [] refl (omega arith) refl
