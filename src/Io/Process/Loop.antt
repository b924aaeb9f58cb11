-- ===== src/Io/Process/Loop.antt =====
-- libqrexec/process_io.c: the rounds of the loop of `qrexec_process_io`, its start and what comes after
-- it. A round takes what the outside does in it.
use qubes_core_qrexec.Prelude.{
  ℕ, Bool, true, false, not, ◌&&◌, ◌||◌, Option, none, some, List, [], ◌∷◌, ◌++◌, ltb, ◌==◌,
  if◌then◌else◌, length, Bytes,
}
use qubes_core_qrexec.Protocol.{msg_data_stderr, sizeof_header}
use qubes_core_qrexec.Io.Channel.{Rc, remote_exited, remote_eof, remote_error, remote_ok}
use qubes_core_qrexec.Io.Channel.Sender.{Sender, handle_input_v2, send_exit_code}
use qubes_core_qrexec.Io.Channel.Receiver.{Options, Receiver, handle_remote_data_v2}
use qubes_core_qrexec.Io.Process.State.{
  ChildStatus, Events, Next, Poll, Process, Request, after_exit_code, all_closed, close_stderr,
  close_stdin, close_stdout, exits, goes_on, interrupted, is_negative, is_open, leaves, local_done,
  max_chunk, out_of_memory, poll_fails, polled, react_to_child, send_eof, sender, service_code,
  status_of, stdout_msg_type, use_one_socket, with_sent,
}

abbrev pub options : Request → Process → Options
options req p = record {
  max_len = max_chunk req;
  stdin_open = is_open p.stdin_fd;
  replace_chars_stdout = req.replace_chars_stdout;
  replace_chars_stderr = req.replace_chars_stderr;
  is_service = req.is_service;
}

-- After `handle_input_v2` on stderr.
abbrev pub after_stderr : Process → Rc × Sender → Next
after_stderr p (remote_error, k) = exits (with_sent p k)
after_stderr p (remote_eof, k) =
    goes_on
      (record (close_stderr p.stderr_fd (with_sent p k)) { stderr = k.source; stderr_fd = none })
after_stderr p (_, k) = goes_on (record (with_sent p k) { stderr = k.source })

unfoldable pub read_stderr : Request → Events → Bool → Process → Next
read_stderr req e ready p =
    if is_open p.stderr_fd && ready
    then after_stderr p
        (handle_input_v2 msg_data_stderr (max_chunk req) e.stderr_spaces (sender [] p.stderr p))
    else goes_on p

-- After `handle_input_v2` on stdout.
abbrev pub after_stdout : Request → (Process → Next) → Process → Rc × Sender → Next
after_stdout req next p (remote_error, k) = exits (with_sent p k)
after_stdout req next p (remote_eof, k) =
    next
      (close_stdout req (record (with_sent p k) { stdout = k.source; prefix_data = k.prefix_data }))
after_stdout req next p (_, k) =
    next (record (with_sent p k) { stdout = k.source; prefix_data = k.prefix_data })

unfoldable pub read_stdout : Request → Events → Bool → (Process → Next) → Process → Next
read_stdout req e ready next p =
    if not (length p.prefix_data == 0) || (is_open p.stdout_fd && ready)
    then after_stdout req next p (
        handle_input_v2 (stdout_msg_type req) (max_chunk req) e.stdout_spaces
          (sender p.prefix_data p.stdout p))
    else next p

-- After `handle_remote_data_v2`.
unfoldable pub after_remote : Request → (Process → Next) → Process → Option (Rc × Receiver) → Next
after_remote req next p none = out_of_memory
after_remote req next p (some (remote_error, r)) = exits (record p { receiver = r })
after_remote req next p (some (remote_eof, r)) = next (close_stdin req (record p { receiver = r }))
after_remote req next p (some (remote_exited, r)) =
    let p' = record p { receiver = r } in
    next (close_stdout req (if is_open p.stdout_fd then send_eof (stdout_msg_type req) p' else p'))
after_remote req next p (some (remote_ok, r)) = next (record p { receiver = r })

-- What `poll` was asked to look at is ready.
abbrev pub stdout_polled : Events → Process → Bool
stdout_polled e p =
    ltb sizeof_header e.buffer_space
    && length p.prefix_data == 0
    && is_open p.stdout_fd
    && e.stdout_ready

abbrev pub stderr_polled : Events → Process → Bool
stderr_polled e p = ltb sizeof_header e.buffer_space && is_open p.stderr_fd && e.stderr_ready

-- The part of a round after `ppoll` has returned.
unfoldable pub handle_events : Request → Events → Process → Next
handle_events req e p =
    let p1 = if is_open p.stdin_fd && e.stdin_hup then close_stdin req p else p in
    if e.vchan_wait_fails
    then exits p
    else after_remote req
        (read_stdout req e (stdout_polled e p) (read_stderr req e (stderr_polled e p))) p1
        (handle_remote_data_v2 (options req p1) p1.receiver)

unfoldable pub after_poll : Request → Events → Poll → Process → Next
after_poll req e polled p = handle_events req e p
after_poll req e interrupted p = goes_on p
after_poll req e poll_fails p = leaves p

-- The vchan is closed, and there is nothing to read and nothing to write.
abbrev pub is_cut_off : Events → Process → Bool
is_cut_off e p =
    not e.vchan_open && length p.receiver.incoming == 0 && p.receiver.stdin.buffer.buflen == 0

unfoldable pub go_on : Request → Events → Process → Next
go_on req e p =
    if is_cut_off e p then leaves p else after_poll req e e.poll (use_one_socket req e.sigusr1 p)

-- The end of the loop, where all descriptors are closed.
unfoldable pub finish_or_go_on : Request → Events → Process → Next
finish_or_go_on req e p =
    if all_closed p && req.is_service && local_done req p
    then after_exit_code p (send_exit_code (service_code req p) (sender [] [] p))
    else if all_closed p
        && not req.is_service
        && local_done req p
        && not (is_negative p.receiver.status)
    then leaves p
    else go_on req e p

-- What has arrived since the last round.
abbrev pub arrived : Events → Process → Process
arrived e p = record p {
  receiver = record p.receiver {
    incoming = p.receiver.incoming ++ e.arrival;
    stdin = record p.receiver.stdin { results = e.stdin_results };
  };
  stdout = p.stdout ++ e.stdout_more;
  stderr = p.stderr ++ e.stderr_more;
}

unfoldable pub round : Request → Events → Process → Next
round req e p = finish_or_go_on req e (react_to_child req e.child (arrived e p))

-- The loop on the rounds that the outside gives it; `goes_on` where they are used up.
unfoldable pub rounds : Request → List Events → Process → Next
rounds req [] p = goes_on p
rounds req (e ∷ es) p = elim (round req e p) [
  | goes_on p' ↦ rounds req es p'
  | leaves p' ↦ leaves p'
  | exits p' ↦ exits p'
  | out_of_memory ↦ out_of_memory
]

abbrev pub same_fd : Option ℕ → Option ℕ → Bool
same_fd none none = true
same_fd (some a) (some b) = a == b
same_fd _ _ = false

-- The state before the loop, on the descriptors of the request.
unfoldable pub begin :
    Request → Option ℕ → Option ℕ → Option ℕ → Bytes → Receiver → List Bool → Process
begin req stdin_fd stdout_fd stderr_fd prefix receiver write_results =
    let p : Process = record {
      stdin_fd = stdin_fd;
      stdout_fd = stdout_fd;
      stderr_fd = stderr_fd;
      saved_stdin_fd = stdin_fd;
      use_stdio_socket = same_fd stdin_fd stdout_fd;
      local_status = none;
      receiver = record receiver { status = 0xffff_ffff };
      prefix_data = prefix;
      stdout = [];
      stderr = [];
      sent = [];
      write_results = write_results;
      closed = [];
    } in
    if req.is_service && not (is_open stderr_fd) then send_eof msg_data_stderr p else p

-- After the loop: what is open is closed, and a local process that has not ended is waited for;
-- `none` where `waitpid` fails. The result is that of the process.
unfoldable pub finish : Request → Option ChildStatus → Process → Process × ℕ
finish req last p =
    let p1 = close_stdout req (close_stdin req p) in
    let p2 = record (close_stderr p1.stderr_fd p1) {
      local_status =
          if req.local_pid == 0 || is_open p1.local_status
          then p1.local_status
          else elim last [ none ↦ none | some s ↦ some (status_of s) ];
    } in
    (
      p2,
      if not req.is_service && not (p2.receiver.status == 0)
          then p2.receiver.status
          else service_code req p2,
    )

-- How `qrexec_process_io` ends: it returns, the process exits with 1 or runs out of memory, or the
-- rounds are used up.
pub data IoResult : Type 0 where
  returns : ℕ → Process → IoResult
  exits_in_loop : Process → IoResult
  memory_ends : IoResult
  still_runs : Process → IoResult

abbrev pub after_finish : Process × ℕ → IoResult
after_finish (p, code) = returns code p

-- `events` are the rounds, and `last` is how a local process ends that is waited for after them.
unfoldable pub qrexec_process_io :
    Request
    → Option ℕ
    → Option ℕ
    → Option ℕ
    → Bytes
    → Receiver
    → List Bool
    → List Events
    → Option ChildStatus
    → IoResult
qrexec_process_io req stdin_fd stdout_fd stderr_fd prefix receiver write_results events last =
    elim (rounds req events
      (begin req stdin_fd stdout_fd stderr_fd prefix receiver write_results)) [
        | goes_on p ↦ still_runs p
        | leaves p ↦ after_finish (finish req last p)
        | exits p ↦ exits_in_loop p
        | out_of_memory ↦ memory_ends
      ]
