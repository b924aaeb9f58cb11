-- ===== src/Agent/Requests.antt =====
-- agent/qrexec-agent.c: the requests of the daemon (`wake_meminfo_writer`, `try_fork_server`,
-- `wait_for_session_maybe`, `handle_server_exec_request_init`, `handle_server_exec_request_do`,
-- `handle_service_refused`, `handle_server_cmd`).
use qubes_core_qrexec.Prelude.{
  ℕ, ◌+◌, ◌-◌, Bool, true, false, not, ◌&&◌, ◌||◌, Option, none, some, [], ◌∷◌, ◌++◌, ltb, leb,
  ◌==◌, if◌then◌else◌, update, length, take, drop, Bytes, split_at, c_string, first_from,
}
use qubes_core_qrexec.Protocol.{
  max_fds, max_qrexec_cmd_len, msg_exec_cmdline, msg_just_exec, msg_service_connect,
  msg_service_refused, u32_bytes, MsgHeader, sizeof_header, header_at, ExecParams,
  sizeof_exec_params, exec_params_bytes, exec_params_at, sizeof_service_params,
}
use qubes_core_qrexec.Rpc.Command.{ParsedCommand, parse_qubes_rpc_command}
use qubes_core_qrexec.Rpc.Find.{load_service_config_v2, qrexec_cmd_use_fork_server}
use qubes_core_qrexec.Agent.State.{
  WaitingRequest, NewProcess, Agent, IdentWrite, succeeds, bad_descriptor, write_error, Outside,
  Outcome, done, exit, vchan_recv_or_exit,
}
use qubes_core_qrexec.Agent.Ident.{end_of_input, mismatch, number, negative, scan_socket}
use qubes_core_qrexec.Agent.Connections.{register_vchan_connection}

unfoldable pub wake_meminfo_writer : Outside → Agent → Agent
wake_meminfo_writer outside a = if a.meminfo_write_started then a else elim outside.meminfo_pid [
  | none ↦ a
  | some pid ↦
      if leb pid 1 || ltb 0xffff pid
      then a
      else if outside.kill_succeeds
      then record a { meminfo_write_started = true; signals = a.signals ++ (pid ∷ []) }
      else a
]

-- `struct qrexec_cmd_info`.
abbrev pub cmd_info_bytes : ℕ → ℕ → ℕ → ℕ → Bytes
cmd_info_bytes type domain port cmdline_len =
    u32_bytes type ++ (u32_bytes domain ++ (u32_bytes port ++ u32_bytes cmdline_len))

-- The two writes to the fork server, on a socket that is closed when one fails. The command line
-- goes out behind its user, with its NUL.
unfoldable pub send_to_fork_server : Outside → ℕ → Bytes → Bytes → Agent → Option ℕ × Agent
send_to_fork_server outside s info cmdline a =
    let first = record a { written = a.written ++ ((s, info) ∷ []) } in
    if not outside.info_written
    then (none, record a { closed = a.closed ++ (s ∷ []) })
    else if not outside.cmdline_written
    then (none, record first { closed = first.closed ++ (s ∷ []) })
    else (some s, record first { written = first.written ++ ((s, cmdline) ∷ []) })

-- The socket, or `none` for -1. `cmdline` is a C string, and `cmdline_len` its size with the NUL.
unfoldable pub try_fork_server :
    Outside → ℕ → ℕ → ℕ → Bytes → Option Bytes → Agent → Option ℕ × Agent
try_fork_server outside type domain port cmdline username a =
    let cmdline_len = length cmdline + 1 in
    if not outside.has_fork_server
    then (none, a)
    else if ltb max_qrexec_cmd_len cmdline_len
    then (none, a)
    else elim (split_at b':' cmdline) [
      | none ↦ (none, a)
      | some (user, rest) ↦ elim (outside.fork_server username) [
        | none ↦ (none, a)
        | some s ↦
            send_to_fork_server outside s
              (cmd_info_bytes type domain port (cmdline_len - (length user + 1))) (rest ++ (0 ∷ []))
              a
      ]
    ]

-- `handle_new_process`, and the registration of its child, also where there is none.
unfoldable pub start_process : Outside → ℕ → Option ParsedCommand → ExecParams → Agent → Agent
start_process outside type cmd params a =
    let process : NewProcess = record {
      type = type;
      connect_domain = params.connect_domain;
      connect_port = params.connect_port;
      cmd = cmd;
    } in
    register_vchan_connection outside.child none params.connect_domain params.connect_port
      (elim outside.child [
        | none ↦ a
        | some _ ↦ record a { processes = a.processes ++ (process ∷ []) }
      ])

abbrev username_of : Option ParsedCommand → Option Bytes
username_of none = none
username_of (some cmd) = cmd.username

abbrev pub after_fork_server :
    Outside → ℕ → Option ParsedCommand → ExecParams → Option ℕ × Agent → Agent
after_fork_server outside type cmd params (some s, a) =
    register_vchan_connection none (some s) params.connect_domain params.connect_port a
after_fork_server outside type cmd params (none, a) = start_process outside type cmd params a

-- The client that waits for its request gets the parameters, and is registered unless its
-- descriptor is not one.
unfoldable pub connect_client : IdentWrite → ℕ → ExecParams → Agent → Agent
connect_client bad_descriptor fd params a = a
connect_client write_error fd params a =
    register_vchan_connection none (some fd) params.connect_domain params.connect_port a
connect_client succeeds fd params a =
    register_vchan_connection none (some fd) params.connect_domain params.connect_port (record a {
      written = a.written ++ ((fd, exec_params_bytes (record params { cmdline = [] })) ∷ []);
    })

-- A negative descriptor is a bad one.
unfoldable pub handle_service_connect : Outside → ExecParams → Agent → Agent
handle_service_connect outside params a = elim (scan_socket params.cmdline) [
  | number fd ↦ connect_client outside.ident_write fd params a
  | negative _ ↦ a
  | mismatch ↦ a
  | end_of_input ↦ a
]

unfoldable pub handle_server_exec_request_do :
    Outside → ℕ → Option ParsedCommand → ExecParams → Agent → Agent
handle_server_exec_request_do outside type cmd params a =
    if type == msg_service_connect
    then handle_service_connect outside params a
    else if qrexec_cmd_use_fork_server cmd
    then after_fork_server outside type cmd params (
        try_fork_server outside type params.connect_domain params.connect_port params.cmdline
          (username_of cmd) a)
    else start_process outside type cmd params a

unfoldable pub wait_for_session_maybe : Outside → Agent → Bool × Agent
wait_for_session_maybe outside a = elim a.wait_for_session_pid [
  | some _ ↦ (true, a)
  | none ↦ elim outside.session_child [
    | none ↦ (false, a)
    | some pid ↦ (true, record a { wait_for_session_pid = some pid })
  ]
]

abbrev pub is_empty : Option WaitingRequest → Bool
is_empty none = true
is_empty (some _) = false

-- The request is kept for later, or handled at once where no slot is free.
unfoldable pub postpone : Outside → ℕ → ParsedCommand → ExecParams → Agent → Agent
postpone outside type cmd params a =
    let w : WaitingRequest = record { type = type; params = params; cmd = some cmd } in
    elim (first_from (λ i. is_empty (a.requests_waiting_for_session i)) 1 max_fds max_fds 0) [
      | none ↦ handle_server_exec_request_do outside type (some cmd) params a
      | some i ↦ record a {
        requests_waiting_for_session = update a.requests_waiting_for_session i (some w);
      }
    ]

abbrev pub after_wait : Outside → ℕ → ParsedCommand → ExecParams → Bool × Agent → Agent
after_wait outside type cmd params (true, a) = postpone outside type cmd params a
after_wait outside type cmd params (false, a) =
    handle_server_exec_request_do outside type (some cmd) params a

-- A service request whose configuration is loaded.
unfoldable pub maybe_wait : Outside → ℕ → ParsedCommand → ExecParams → Agent → Agent
maybe_wait outside type cmd params a =
    if not cmd.nogui && cmd.wait_for_session
    then after_wait outside type cmd params (wait_for_session_maybe outside a)
    else handle_server_exec_request_do outside type (some cmd) params a

abbrev pub bytes_of : Option Bytes → Bytes
bytes_of none = []
bytes_of (some s) = s

-- A command line that was parsed; only a service has a configuration.
unfoldable pub with_command : Outside → ℕ → ParsedCommand → ExecParams → Agent → Agent
with_command outside type cmd params a = elim cmd.service_descriptor [
  | none ↦ handle_server_exec_request_do outside type (some cmd) params a
  | some descriptor ↦
      elim (load_service_config_v2 outside.files outside.config_path descriptor
        (bytes_of cmd.service_name) cmd) [
          | none ↦ handle_server_exec_request_do outside type none params a
          | some cmd' ↦ maybe_wait outside type cmd' params a
        ]
]

unfoldable pub with_params : Outside → ℕ → ExecParams → Agent → Agent
with_params outside type params a =
    if type == msg_service_connect
    then handle_server_exec_request_do outside type none params a
    else elim (parse_qubes_rpc_command params.cmdline true) [
      | none ↦ handle_server_exec_request_do outside type none params a
      | some cmd ↦ with_command outside type cmd params a
    ]

-- The parameters that arrive; the last byte of the command line is set to NUL.
abbrev pub received_params : ℕ → Bytes → ExecParams
received_params len s = record (exec_params_at s) {
  cmdline = c_string (take (len - sizeof_exec_params - 1) (drop sizeof_exec_params s));
}

unfoldable pub handle_server_exec_request_init : Outside → MsgHeader → Agent → Outcome
handle_server_exec_request_init outside hdr a =
    if leb hdr.len sizeof_exec_params || ltb 0x7fff_ffff hdr.len
    then exit 1 a
    else vchan_recv_or_exit hdr.len
        (λ s a'. done (with_params outside hdr.type (received_params hdr.len s) a')) a

-- `sscanf` that finds no input returns EOF, which counts as a success: then `socket_fd` was not set.
unfoldable pub close_refused : Outside → Bytes → Agent → Agent
close_refused outside ident a = elim (scan_socket ident) [
  | number fd ↦ record a { closed = a.closed ++ (fd ∷ []) }
  | negative _ ↦ a
  | mismatch ↦ a
  | end_of_input ↦ record a { closed = a.closed ++ (outside.uninitialized ∷ []) }
]

unfoldable pub handle_service_refused : Outside → MsgHeader → Agent → Outcome
handle_service_refused outside hdr a =
    if not (hdr.len == sizeof_service_params)
    then exit 1 a
    else vchan_recv_or_exit sizeof_service_params
        (λ s a'. done (close_refused outside (c_string s) a')) a

abbrev pub is_exec_type : ℕ → Bool
is_exec_type type = type == msg_exec_cmdline || type == msg_just_exec || type == msg_service_connect

unfoldable pub dispatch_server_cmd : Outside → MsgHeader → Agent → Outcome
dispatch_server_cmd outside hdr a =
    if is_exec_type hdr.type
    then handle_server_exec_request_init outside hdr (wake_meminfo_writer outside a)
    else if hdr.type == msg_service_refused
    then handle_service_refused outside hdr a
    else exit 1 a

unfoldable pub handle_server_cmd : Outside → Agent → Outcome
handle_server_cmd outside a =
    vchan_recv_or_exit sizeof_header (λ s a'. dispatch_server_cmd outside (header_at s) a') a
