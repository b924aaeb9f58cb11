-- ===== src/Io/Process/Tests.antt =====
-- The theorems on `qrexec_process_io` at concrete inputs.
use qubes_core_qrexec.Prelude.{
  ℕ, ◌≡◌, refl, true, false, Option, none, some, List, [], ◌∷◌, arith, Bytes, codes,
}
use qubes_core_qrexec.Protocol.{
  protocol_v3, msg_data_stdin, msg_data_stdout, msg_data_stderr, msg_data_exit_code, u32_bytes,
}
use qubes_core_qrexec.Io.Memory.{empty_buffer}
use qubes_core_qrexec.Io.Stdin.{takes, flush_loop, flush_client_data, write_loop, write_stdin}
use qubes_core_qrexec.Io.Channel.{frames}
use qubes_core_qrexec.Io.Channel.Sender.{
  chunk, handle_input_v2, next_data, read_fd, send_data, send_round, send, send_exit_code,
}
use qubes_core_qrexec.Io.Channel.Receiver.{
  Receiver, handle_data, handle_stderr, handle_exit_code, handle_type, handle_remote_data_v2,
  receive_all, receive, with_header, with_length, with_body,
}
use qubes_core_qrexec.Io.Process.State.{
  Request, exited, polled, Events, Next, leaves, send_eof, close_stdio, close_stdin, close_stdout,
  react_to_child, use_one_socket,
}
use qubes_core_qrexec.Io.Process.Loop.{
  read_stderr, read_stdout, after_remote, handle_events, after_poll, go_on, finish_or_go_on, round,
  rounds, begin,
}
use qubes_core_qrexec.Io.Process.Loop.{qrexec_process_io}
use qubes_core_qrexec.Io.Process.Exit.{IoStream, process_io-IoStream}
use qubes_core_qrexec.Io.Process.Kept.{Keeps}
use qubes_core_qrexec.Io.Process.Descriptors.{KeepsFds, rounds-KeepsFds}
use qubes_core_qrexec.Io.Process.Messages.{wire}

-- A service with three pipes.
abbrev request : Request
request = record {
  is_service = true;
  exit_on_stdin_eof = false;
  exit_on_stdout_eof = false;
  replace_chars_stdout = false;
  replace_chars_stderr = false;
  data_protocol_version = protocol_v3;
  local_pid = 5;
  is_pipe = λ fd. true;
}

abbrev receiver : Receiver
receiver = record {
  incoming = [];
  stdin = record { written = []; results = []; buffer = empty_buffer; total_mem = 0 };
  stderr = [];
  status = 0;
}

-- Input arrives and output is there; the process ends with 3, and closes stdout and stderr.
abbrev events : List Events
events =
    record {
      child = none;
      sigusr1 = false;
      vchan_open = true;
      vchan_wait_fails = false;
      arrival = frames msg_data_stdin (codes "in" ∷ []);
      poll = polled;
      stdin_hup = false;
      stdout_ready = true;
      stderr_ready = false;
      buffer_space = 4096;
      stdin_results = takes 8 ∷ [];
      stdout_more = chunk (codes "out") ∷ [];
      stderr_more = [];
      stdout_spaces = 100 ∷ 100 ∷ [];
      stderr_spaces = [];
    }
    ∷ record {
      child = some (exited 3);
      sigusr1 = false;
      vchan_open = true;
      vchan_wait_fails = false;
      arrival = [];
      poll = polled;
      stdin_hup = false;
      stdout_ready = true;
      stderr_ready = true;
      buffer_space = 4096;
      stdin_results = [];
      stdout_more = chunk [] ∷ [];
      stderr_more = chunk [] ∷ [];
      stdout_spaces = 100 ∷ [];
      stderr_spaces = 100 ∷ [];
    }
    ∷ record {
      child = none;
      sigusr1 = false;
      vchan_open = true;
      vchan_wait_fails = false;
      arrival = [];
      poll = polled;
      stdin_hup = false;
      stdout_ready = false;
      stderr_ready = false;
      buffer_space = 4096;
      stdin_results = [];
      stdout_more = [];
      stderr_more = [];
      stdout_spaces = [];
      stderr_spaces = [];
    }
    ∷ []

abbrev sent_of : Next → Option (Bytes × List ℕ)
sent_of (leaves p) = some (p.sent, p.closed)
sent_of _ = none

rounds_run :
    sent_of (rounds request events (begin request (some 10) (some 11) (some 12) [] receiver []))
    ≡ some (
      wire (
          (msg_data_stdout, codes "out")
          ∷ (msg_data_stdout, [])
          ∷ (msg_data_stderr, [])
          ∷ (msg_data_exit_code, u32_bytes 3)
          ∷ []),
      12 ∷ 11 ∷ 10 ∷ [],
    )
unfolding rounds begin round finish_or_go_on go_on after_poll handle_events after_remote read_stdout
    read_stderr use_one_socket react_to_child close_stdout close_stdin close_stdio send_eof
    handle_input_v2 next_data read_fd send_data send_round send send_exit_code handle_data
    handle_stderr handle_exit_code handle_type handle_remote_data_v2 flush_loop flush_client_data
    write_loop write_stdin receive_all receive with_header with_length with_body
rounds_run = refl

rounds-KeepsFds_example :
    Keeps
      (KeepsFds request)
      (KeepsFds request)
      (rounds request events (begin request (some 10) (some 11) (some 12) [] receiver []))
rounds-KeepsFds_example =
    rounds-KeepsFds request (some 10) (some 11) (some 12) [] receiver [] events
      (λ fd e. (λ z. absurd (ground (arith, e, z)), λ z. absurd (ground (arith, e, z))))

process_io-IoStream_example :
    IoStream request
      (qrexec_process_io request (some 10) (some 11) (some 12) [] receiver [] events none)
process_io-IoStream_example =
    process_io-IoStream request (some 10) (some 11) (some 12) [] receiver [] events none
