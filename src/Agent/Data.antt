-- ===== src/Agent/Data.antt =====
-- agent/qrexec-agent-data.c: the processes that handle one connection, for a service
-- (`handle_new_process_common`, `handle_just_exec`) and for a client (`handle_data_client`).
pub mod Stream
use qubes_core_qrexec.Prelude.{
  ℕ, ◌-◌, ◌/◌, Bool, true, false, not, Option, none, some, List, [], ◌==◌, if◌then◌else◌, Bytes,
}
use qubes_core_qrexec.Protocol.{
  msg_exec_cmdline, msg_just_exec, msg_data_stdout, msg_data_stderr, exit_service_not_found,
  exit_problem, header_bytes,
}
use qubes_core_qrexec.Rpc.Command.{ParsedCommand}
use qubes_core_qrexec.Io.Channel.Sender.{Sender, send, send_exit_code}
use qubes_core_qrexec.Io.Channel.Receiver.{Receiver}
use qubes_core_qrexec.Io.Process.State.{Request, ChildStatus, Events}
use qubes_core_qrexec.Io.Process.Loop.{returns, qrexec_process_io}
use qubes_core_qrexec.Dom0.Link.{Link}
use qubes_core_qrexec.Dom0.Handshake.{handle_handshake}
use qubes_core_qrexec.Dom0.Run.{
  Prepared, prepared, not_found, problem, Ended, ends, dies, link_sender, after_loop,
}

-- What `find_qrexec_service` finds: nothing, an error, a socket and whether the write to it
-- succeeds, or a command.
pub data Service : Type 0 where
  service_missing service_problem service_command : Service
  service_socket : Bool → Service

-- What the outside answers, and the local process with what happens in the loop.
pub record DataProcess : Type 0 where
  -- Whether the data vchan is opened and connected in time.
  pub vchan_connects : Bool
  pub service : Service
  pub fork_succeeds : Bool
  -- What `execute_parsed_qubes_rpc_command` returns, and its descriptors and process.
  pub execution : Prepared
  pub stdin_fd : ℕ
  pub stdout_fd : ℕ
  pub stderr_fd : Option ℕ
  pub pid : ℕ
  pub is_pipe : ℕ → Bool
  pub replace_chars_stdout : Bool
  pub replace_chars_stderr : Bool
  pub receiver : Receiver
  pub events : List Events
  pub last : Option ChildStatus

abbrev fork_code : DataProcess → ℕ
fork_code c = if c.fork_succeeds then 0 else exit_problem

abbrev service_result : DataProcess → Service → ℕ
service_result c service_missing = exit_service_not_found
service_result c service_problem = exit_problem
service_result c (service_socket ok) = if ok then 0 else exit_problem
service_result c service_command = fork_code c

unfoldable pub handle_just_exec : DataProcess → Option ParsedCommand → ℕ
handle_just_exec c none = exit_problem
handle_just_exec c (some cmd) = elim cmd.service_descriptor [
  | none ↦ fork_code c
  | some descriptor ↦ service_result c c.service
]

abbrev pub after_just_exec : Bool × Sender → Ended
after_just_exec (true, k) = ends 0 k.sent
after_just_exec (false, k) = dies k.sent

abbrev pub eof : ℕ → Sender → Sender
eof type k = (send (header_bytes (record { type = type; len = 0 })) k).1

-- The ends of stdout and stderr and the exit code; that they fail to be sent is passed over.
unfoldable pub fail_process : ℕ → Sender → Ended
fail_process exit_code k =
    ends exit_code (send_exit_code exit_code (eof msg_data_stderr (eof msg_data_stdout k))).1.sent

abbrev pub exits_on_eof : (ParsedCommand → Bool) → Option ParsedCommand → Bool
exits_on_eof field none = false
exits_on_eof field (some cmd) = field cmd

abbrev pub data_request : DataProcess → Bool → Option ParsedCommand → ℕ → Request
data_request c is_service cmd version = record {
  is_service = is_service;
  exit_on_stdin_eof = exits_on_eof (λ x. x.exit_on_stdin_eof) cmd;
  exit_on_stdout_eof = exits_on_eof (λ x. x.exit_on_stdout_eof) cmd;
  replace_chars_stdout = c.replace_chars_stdout;
  replace_chars_stderr = c.replace_chars_stderr;
  data_protocol_version = version;
  local_pid = c.pid;
  is_pipe = c.is_pipe;
}

abbrev pub execute : DataProcess → Option ParsedCommand → Prepared
execute c none = problem
execute c (some cmd) = c.execution

-- MSG_EXEC_CMDLINE.
abbrev pub run_process : DataProcess → Option ParsedCommand → ℕ → Prepared → Link → Ended
run_process c cmd version not_found l = fail_process exit_service_not_found (link_sender l)
run_process c cmd version problem l = fail_process exit_problem (link_sender l)
run_process c cmd version prepared l = after_loop true l.sent (
    qrexec_process_io (data_request c true cmd version) (some c.stdin_fd) (some c.stdout_fd)
      c.stderr_fd [] c.receiver l.send_results c.events c.last)

abbrev pub by_type : ℕ → DataProcess → Option ParsedCommand → Option ℕ × Link → Ended
by_type type c cmd (none, l) = dies l.sent
by_type type c cmd (some version, l) =
    if type == msg_just_exec
    then after_just_exec (send_exit_code (handle_just_exec c cmd) (link_sender l))
    else if type == msg_exec_cmdline
    then run_process c cmd version (execute c cmd) l
    else ends 0 l.sent

unfoldable pub handle_new_process_common : ℕ → DataProcess → Option ParsedCommand → Link → Ended
handle_new_process_common type c cmd l =
    if not c.vchan_connects then dies l.sent else by_type type c cmd (handle_handshake l)

abbrev pub client_loop : DataProcess → Bytes → Option ℕ × Link → Ended
client_loop c extra_data (none, l) = dies l.sent
client_loop c extra_data (some version, l) = after_loop true l.sent (
    qrexec_process_io (data_request c false none version) (some c.stdin_fd) (some c.stdout_fd) none
      extra_data c.receiver l.send_results c.events c.last)

-- `extra_data` is a C string; NULL is the empty one.
unfoldable pub handle_data_client : DataProcess → Bytes → Link → Ended
handle_data_client c extra_data l =
    if not c.vchan_connects then dies l.sent else client_loop c extra_data (handle_handshake l)
