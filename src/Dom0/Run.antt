-- ===== src/Dom0/Run.antt =====
-- daemon/qrexec-daemon-common.c: a connection to or from dom0 (`run_qrexec_to_dom0`,
-- `handshake_and_go`, `select_loop`, `handle_failed_exec`, `wait_for_session_maybe`).
pub mod Stream
use qubes_core_qrexec.Prelude.{
  decimal, ℕ, ◌+◌, ◌-◌, ◌/◌, Bool, true, false, not, Option, none, some, List, [], ◌++◌,
  if◌then◌else◌, Bytes,
}
use qubes_core_qrexec.Protocol.{
  msg_service_connect, msg_data_stdout, msg_data_stderr, exit_service_not_found, exit_problem,
  header_bytes,
}
use qubes_core_qrexec.Rpc.Command.{ParsedCommand, parse_qubes_rpc_command}
use qubes_core_qrexec.Rpc.Find.{FileSystem, load_service_config_v2}
use qubes_core_qrexec.Io.Channel.Sender.{Sender, send, send_exit_code}
use qubes_core_qrexec.Io.Channel.Receiver.{Receiver}
use qubes_core_qrexec.Io.Process.State.{Request, ChildStatus, Events}
use qubes_core_qrexec.Io.Process.Loop.{
  IoResult, returns, exits_in_loop, memory_ends, still_runs, qrexec_process_io,
}
use qubes_core_qrexec.Dom0.Link.{Link}
use qubes_core_qrexec.Dom0.Handshake.{handle_agent_handshake}
use qubes_core_qrexec.Dom0.Connect.{
  Attempt, connected, not_running, no_socket, connect_unix_socket, Negotiated, granted, denied,
  asserts, negotiate_connection_params,
}

-- What `prepare_local_fds` returns: 0, -1 where the service is not found, or another error.
pub data Prepared : Type 0 where
  prepared not_found problem : Prepared

-- The local process, and what happens in the loop.
pub record Local : Type 0 where
  pub stdin_fd : ℕ
  pub stdout_fd : ℕ
  pub local_pid : ℕ
  pub is_pipe : ℕ → Bool
  pub exit_on_stdin_eof : Bool
  pub exit_on_stdout_eof : Bool
  pub receiver : Receiver
  pub events : List Events
  pub last : Option ChildStatus

-- `struct handshake_params`, with the vchan where it could be opened.
pub record HandshakeParams : Type 0 where
  pub vchan_open : Bool
  pub remote_send_first : Bool
  pub prepare_ret : Prepared
  pub exit_with_code : Bool
  pub replace_chars_stdout : Bool
  pub replace_chars_stderr : Bool

-- The result, with what was sent on the data vchan: an exit code, an exit of the process by
-- `handle_vchan_error` or for want of memory, or the loop still runs.
pub data Ended : Type 0 where
  ends : ℕ → Bytes → Ended
  dies : Bytes → Ended
  goes_on : Bytes → Ended

abbrev pub link_sender : Link → Sender
link_sender l = record {
  prefix_data = [];
  source = [];
  sent = l.sent;
  write_results = l.send_results;
}

-- The headers of stderr and stdout go out in one call; its failure is passed over.
abbrev pub eof_headers : Bytes
eof_headers =
    header_bytes (record { type = msg_data_stderr; len = 0 })
    ++ header_bytes (record { type = msg_data_stdout; len = 0 })

unfoldable pub handle_failed_exec : Bool → ℕ → Sender → Sender
handle_failed_exec is_service exit_code k =
    if is_service then (send_exit_code exit_code (send eof_headers k).1).1 else k

abbrev pub select_request : HandshakeParams → Local → ℕ → Request
select_request params local version = record {
  is_service = params.remote_send_first;
  exit_on_stdin_eof = local.exit_on_stdin_eof;
  exit_on_stdout_eof = local.exit_on_stdout_eof;
  replace_chars_stdout = params.replace_chars_stdout;
  replace_chars_stderr = params.replace_chars_stderr;
  data_protocol_version = version;
  local_pid = local.local_pid;
  is_pipe = local.is_pipe;
}

-- The result of the loop, on a vchan on which `before` was sent.
abbrev pub after_loop : Bool → Bytes → IoResult → Ended
after_loop exit_with_code before (returns code p) =
    ends (if exit_with_code then code else 0) (before ++ p.sent)
after_loop exit_with_code before (exits_in_loop p) = dies (before ++ p.sent)
after_loop exit_with_code before memory_ends = dies before
after_loop exit_with_code before (still_runs p) = goes_on (before ++ p.sent)

unfoldable pub select_loop : HandshakeParams → Local → ℕ → Link → Ended
select_loop params local version l = after_loop params.exit_with_code l.sent (
    qrexec_process_io (select_request params local version) (some local.stdin_fd)
      (some local.stdout_fd) none [] local.receiver l.send_results local.events local.last)

abbrev pub failure_code : Prepared → ℕ
failure_code not_found = exit_service_not_found
failure_code prepared = exit_problem
failure_code problem = exit_problem

abbrev pub fails_exec : HandshakeParams → Link → Ended
fails_exec params l =
    let code = failure_code params.prepare_ret in
    ends code (handle_failed_exec params.remote_send_first code (link_sender l)).sent

abbrev pub go : HandshakeParams → Local → ℕ → Prepared → Link → Ended
go params local version prepared l = select_loop params local version l
go params local version not_found l = fails_exec params l
go params local version problem l = fails_exec params l

abbrev pub after_agreement : HandshakeParams → Local → Option ℕ × Link → Ended
after_agreement params local (none, l) = ends exit_problem l.sent
after_agreement params local (some version, l) = go params local version params.prepare_ret l

unfoldable pub handshake_and_go : HandshakeParams → Local → Link → Ended
handshake_and_go params local l =
    if not params.vchan_open
    then ends exit_problem l.sent
    else after_agreement params local (handle_agent_handshake params.remote_send_first l)

-- What the outside answers in `run_qrexec_to_dom0`.
pub record Host : Type 0 where
  pub socket_dir : Bytes
  pub attempt : Attempt
  pub files : FileSystem
  pub config_path : Bytes
  -- Whether the child that waits for the session is forked.
  pub session_forks : Bool
  -- What `execute_parsed_qubes_rpc_command` returns.
  pub execution : Prepared
  -- Whether the data vchan is opened and connected in time, and what arrives on it.
  pub vchan_connects : Bool
  pub vchan : Link

-- True where the service may be started.
unfoldable pub wait_for_session_maybe : Host → ParsedCommand → Bool
wait_for_session_maybe host cmd = if cmd.nogui then true else elim cmd.service_descriptor [
  | none ↦ true
  | some descriptor ↦
      elim (load_service_config_v2 host.files host.config_path descriptor
        (elim cmd.service_name [ none ↦ [] | some name ↦ name ]) cmd) [
          | none ↦ false
          | some cmd' ↦ if not cmd'.wait_for_session then true else host.session_forks
        ]
]

-- `prepare_ret`.
unfoldable pub prepare : Host → Option ParsedCommand → Prepared
prepare host none = problem
prepare host (some cmd) = if not (wait_for_session_maybe host cmd) then problem else host.execution

abbrev pub to_dom0_params : Bool → Prepared → HandshakeParams
to_dom0_params exit_with_code prepare_ret = record {
  vchan_open = true;
  remote_send_first = true;
  prepare_ret = prepare_ret;
  exit_with_code = exit_with_code;
  replace_chars_stdout = false;
  replace_chars_stderr = false;
}

-- `none` where the assertion on the daemon's answer fails.
abbrev pub after_grant : Host → Local → Bytes → Bool → Negotiated × Link → Option Ended
after_grant host local remote_cmdline exit_with_code (granted domain port, l) =
    if not host.vchan_connects
    then some (ends exit_problem [])
    else some (
        handshake_and_go
          (to_dom0_params exit_with_code
            (prepare host (parse_qubes_rpc_command remote_cmdline false)))
          local host.vchan)
after_grant host local remote_cmdline exit_with_code (denied, l) = some (ends exit_problem [])
after_grant host local remote_cmdline exit_with_code (asserts, l) = none

unfoldable pub run_qrexec_to_dom0 : Host → Local → Bytes → ℕ → Bytes → Bool → Option Ended
run_qrexec_to_dom0 host local svc_params src_domain_id remote_cmdline exit_with_code =
    elim (connect_unix_socket host.socket_dir (decimal src_domain_id []) host.attempt) [
      | connected l ↦
          after_grant host local remote_cmdline exit_with_code
            (negotiate_connection_params 0 msg_service_connect svc_params l)
      | not_running ↦ some (ends exit_problem [])
      | no_socket ↦ some (ends exit_problem [])
    ]
