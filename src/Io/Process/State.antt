-- ===== src/Io/Process/State.antt =====
-- libqrexec/process_io.c: the state of `qrexec_process_io`, and the ways to close its descriptors.
-- `none` stands for a descriptor of -1.
use qubes_core_qrexec.Prelude.{
  ℕ, ◌+◌, Bool, true, false, not, ◌&&◌, ◌||◌, Option, none, some, List, [], ◌∷◌, ltb, leb, ◌==◌,
  if◌then◌else◌, Bytes,
}
use qubes_core_qrexec.Protocol.{msg_data_stdin, msg_data_stdout, max_data_chunk_size, header_bytes}
use qubes_core_qrexec.Io.Stdin.{WriteResult}
use qubes_core_qrexec.Io.Channel.Sender.{Source, Sender, send}
use qubes_core_qrexec.Io.Channel.Receiver.{Receiver}

-- `struct process_io_request` and the command, as far as they do not change. `is_pipe` says of which
-- descriptors `shutdown` answers ENOTSOCK.
pub record Request : Type 0 where
  pub is_service : Bool
  pub exit_on_stdin_eof : Bool
  pub exit_on_stdout_eof : Bool
  pub replace_chars_stdout : Bool
  pub replace_chars_stderr : Bool
  pub data_protocol_version : ℕ
  -- 0 where there is no local process.
  pub local_pid : ℕ
  pub is_pipe : ℕ → Bool

pub record Process : Type 0 where
  pub stdin_fd : Option ℕ
  pub stdout_fd : Option ℕ
  pub stderr_fd : Option ℕ
  pub saved_stdin_fd : Option ℕ
  pub use_stdio_socket : Bool
  -- `none` is -1; the remote status is the `status` of the receiver, a word.
  pub local_status : Option ℕ
  pub receiver : Receiver
  pub prefix_data : Bytes
  -- What the local process writes, and what went to the vchan.
  pub stdout : List Source
  pub stderr : List Source
  pub sent : Bytes
  pub write_results : List Bool
  -- The descriptors that were closed, not only shut down.
  pub closed : List ℕ

-- How the local process ends.
pub data ChildStatus : Type 0 where
  exited signaled : ℕ → ChildStatus

pub data Poll : Type 0 where
  polled interrupted poll_fails : Poll

-- What the outside does in one round.
pub record Events : Type 0 where
  -- The result of `waitpid`, where SIGCHLD has come.
  pub child : Option ChildStatus
  pub sigusr1 : Bool
  pub vchan_open : Bool
  pub vchan_wait_fails : Bool
  pub arrival : Bytes
  pub poll : Poll
  pub stdin_hup : Bool
  pub stdout_ready : Bool
  pub stderr_ready : Bool
  pub buffer_space : ℕ
  -- The answers of `write` to stdin, what there is to read, and the spaces of the vchan after it.
  pub stdin_results : List WriteResult
  pub stdout_more : List Source
  pub stderr_more : List Source
  pub stdout_spaces : List ℕ
  pub stderr_spaces : List ℕ

-- The loop goes on, is left, or the process exits: with 1, or where a buffer cannot grow.
pub data Next : Type 0 where
  goes_on leaves exits : Process → Next
  out_of_memory : Next

abbrev pub stdout_msg_type : Request → ℕ
stdout_msg_type req = if req.is_service then msg_data_stdout else msg_data_stdin

abbrev pub max_chunk : Request → ℕ
max_chunk req = max_data_chunk_size req.data_protocol_version

abbrev pub is_open : Option ℕ → Bool
is_open none = false
is_open (some _) = true

abbrev pub all_closed : Process → Bool
all_closed p = not (is_open p.stdin_fd) && not (is_open p.stdout_fd) && not (is_open p.stderr_fd)

-- The sender of `handle_input_v2` on some prefix and source, and the state with what it leaves.
abbrev pub sender : Bytes → List Source → Process → Sender
sender prefix source p = record {
  prefix_data = prefix;
  source = source;
  sent = p.sent;
  write_results = p.write_results;
}

abbrev pub with_sent : Process → Sender → Process
with_sent p k = record p { sent = k.sent; write_results = k.write_results }

-- `libvchan_send` of the header of an empty message, whose failure is passed over.
unfoldable pub send_eof : ℕ → Process → Process
send_eof type p =
    with_sent p (send (header_bytes (record { type = type; len = 0 })) (sender [] [] p)).1

abbrev pub close_fd : ℕ → Process → Process
close_fd fd p = record p { closed = fd ∷ p.closed }

-- True where the descriptor is closed, and not only shut down.
unfoldable pub close_stdio : Request → Option ℕ → Process → Bool × Process
close_stdio req none p = (false, p)
close_stdio req (some fd) p =
    if p.use_stdio_socket || ltb 2 fd
    then if req.is_pipe fd && not p.use_stdio_socket then (true, close_fd fd p) else (false, p)
    else (true, close_fd fd p)

abbrev pub close_stderr : Option ℕ → Process → Process
close_stderr none p = p
close_stderr (some fd) p = close_fd fd p

abbrev pub forget_stdin : Bool × Process → Process
forget_stdin (true, p) = record p { stdin_fd = none; saved_stdin_fd = none }
forget_stdin (false, p) = record p { stdin_fd = none }

unfoldable pub close_stdin : Request → Process → Process
close_stdin req p =
    if req.exit_on_stdin_eof
    then record (if is_open p.stdout_fd then send_eof (stdout_msg_type req) p else p) {
      stdin_fd = none;
      stdout_fd = none;
    }
    else forget_stdin (close_stdio req p.stdin_fd p)

unfoldable pub close_stdout : Request → Process → Process
close_stdout req p =
    if req.exit_on_stdout_eof
    then record p { stdin_fd = none; stdout_fd = none }
    else record (close_stdio req p.stdout_fd p).1 { stdout_fd = none }

abbrev pub status_of : ChildStatus → ℕ
status_of (exited n) = n
status_of (signaled n) = 128 + n

-- SIGCHLD.
unfoldable pub react_to_child : Request → Option ChildStatus → Process → Process
react_to_child req none p = p
react_to_child req (some s) p =
    if ltb 0 req.local_pid
    then close_stdin req (record p { local_status = some (status_of s) })
    else p

abbrev pub local_done : Request → Process → Bool
local_done req p = req.local_pid == 0 || is_open p.local_status

-- An `int` below 0, as a word.
abbrev pub is_negative : ℕ → Bool
is_negative n = leb 0x8000_0000 n

abbrev pub status_or : ℕ → Option ℕ → ℕ
status_or n none = n
status_or n (some m) = m

-- The exit code that a service sends: that of the local process, or 0 where there is none.
abbrev pub service_code : Request → Process → ℕ
service_code req p = if req.local_pid == 0 then 0 else status_or 0xffff_ffff p.local_status

abbrev pub after_exit_code : Process → Bool × Sender → Next
after_exit_code p (true, k) = leaves (with_sent p k)
after_exit_code p (false, k) = exits (with_sent p k)

-- SIGUSR1: one socket for both directions.
unfoldable pub use_one_socket : Request → Bool → Process → Process
use_one_socket req sigusr1 p =
    if sigusr1 && not p.use_stdio_socket
    then record (close_stdout req p) { stdout_fd = p.saved_stdin_fd; use_stdio_socket = true }
    else p
