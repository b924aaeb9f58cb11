-- ===== src/Io/Tests.antt =====
-- The theorems on buffers and the data channel at concrete inputs.
use qubes_core_qrexec.Prelude.{
  ◌≡◌, refl, sym, ◌∙◌, ◌≢◌, inl, true, false, some, List, [], ◌∷◌, ◌++◌, arith, length, All, Bytes,
  codes,
}
use qubes_core_qrexec.Protocol.{msg_data_stdin}
use qubes_core_qrexec.Io.Memory.{Buffer, buffer_append, buffer_remove, empty_buffer}
use qubes_core_qrexec.Io.Memory.Account.{IsBuffer}
use qubes_core_qrexec.Io.Replace.{is_kept, do_replace_chars, do_replace_chars_lem, Replaces}
use qubes_core_qrexec.Io.Stdin.{
  takes, would_block, Sink, flush_client_data, write_stdin, write_loop, flush_loop,
}
use qubes_core_qrexec.Io.Stdin.Stream.{stream, IsSink}
use qubes_core_qrexec.Io.Stdin.Calls.{Call, give, flush, calls, all_given, calls-fifo}
use qubes_core_qrexec.Io.Channel.{remote_error, remote_eof, frames}
use qubes_core_qrexec.Io.Channel.Sender.{
  Sender, chunk, handle_input_v2, next_data, read_fd, send_data, send_round, send,
}
use qubes_core_qrexec.Io.Channel.Sender.Frames.{Sends}
use qubes_core_qrexec.Io.Channel.Sender.Loop.{handle_input_v2-Sends}
use qubes_core_qrexec.Io.Channel.Receiver.{Options, Receiver, handle_remote_data_v2}
use qubes_core_qrexec.Io.Channel.Receiver.Frames.{ReceivesAll}
use qubes_core_qrexec.Io.Channel.Receiver.Loop.{handle_remote_data_v2-Receives}
use qubes_core_qrexec.Io.Memory.{limited_malloc, limited_free, buffer_free}

abbrev abc : Buffer
abc = record { buflen = 3; bytes = codes "abc" }

abc-IsBuffer : IsBuffer abc
abc-IsBuffer = record { size = refl }

do_replace_chars_lem_example :
    Replaces (27 ∷ codes "a") (do_replace_chars (27 ∷ codes "a"))
    × (length (do_replace_chars (27 ∷ codes "a")) ≡ 2)
    × All (λ c. is_kept c ≡ true) (do_replace_chars (27 ∷ codes "a"))
    × (do_replace_chars (do_replace_chars (27 ∷ codes "a")) ≡ do_replace_chars (27 ∷ codes "a"))
    × (do_replace_chars ((27 ∷ codes "a") ++ codes "b")
        ≡ do_replace_chars (27 ∷ codes "a") ++ do_replace_chars (codes "b"))
do_replace_chars_lem_example = do_replace_chars_lem (27 ∷ codes "a") (codes "b")

-- A pipe that takes two bytes, then would block, then takes up to nine.
abbrev sink : Sink
sink = record {
  written = [];
  results = takes 1 ∷ would_block ∷ takes 8 ∷ [];
  buffer = empty_buffer;
  total_mem = 0;
}

sink-IsSink : IsSink sink
sink-IsSink = record { is_buffer = record { size = refl }; accounted = omega arith }

abbrev filled : Sink
filled = record sink { buffer = abc; total_mem = 3 }

filled-IsSink : IsSink filled
filled-IsSink = record { is_buffer = abc-IsBuffer; accounted = omega arith }

abbrev emptied : Sink
emptied = record { written = codes "hello!"; results = []; buffer = empty_buffer; total_mem = 0 }

abbrev three_calls : List Call
three_calls = give (codes "hello") ∷ give (codes "!") ∷ flush ∷ []

calls_run : calls three_calls sink ≡ some emptied
unfolding calls write_stdin write_loop flush_client_data flush_loop buffer_append buffer_remove
    limited_malloc limited_free buffer_free
calls_run = refl

calls-fifo_example : (stream emptied ≡ stream sink ++ all_given three_calls) × IsSink emptied
calls-fifo_example = calls-fifo three_calls sink emptied sink-IsSink calls_run

abbrev sender : Sender
sender = record {
  prefix_data = codes "pre";
  source = chunk (codes "hello") ∷ chunk [] ∷ [];
  sent = [];
  write_results = [];
}

sends_run : (handle_input_v2 msg_data_stdin 4 (100 ∷ 100 ∷ 100 ∷ 100 ∷ []) sender).0 ≡ remote_eof
unfolding handle_input_v2 next_data read_fd send_round send_data send
sends_run = refl

no_send_error :
    (handle_input_v2 msg_data_stdin 4 (100 ∷ 100 ∷ 100 ∷ 100 ∷ []) sender).0 ≢ remote_error
no_send_error e = let z : remote_eof ≡ remote_error = sym sends_run ∙ e in cc z

handle_input_v2-Sends_example :
    Sends msg_data_stdin 4 sender
      (handle_input_v2 msg_data_stdin 4 (100 ∷ 100 ∷ 100 ∷ 100 ∷ []) sender).1
handle_input_v2-Sends_example =
    handle_input_v2-Sends msg_data_stdin 4 (100 ∷ 100 ∷ 100 ∷ 100 ∷ []) sender no_send_error

abbrev options : Options
options = record {
  max_len = 4096;
  stdin_open = true;
  replace_chars_stdout = false;
  replace_chars_stderr = false;
  is_service = true;
}

abbrev two_chunks : List Bytes
two_chunks = codes "hel" ∷ codes "lo" ∷ []

abbrev receiver : Receiver
receiver = record {
  incoming = frames msg_data_stdin two_chunks;
  stdin = sink;
  stderr = [];
  status = 0;
}

handle_remote_data_v2-Receives_example :
    ReceivesAll msg_data_stdin two_chunks [] (handle_remote_data_v2 options receiver)
handle_remote_data_v2-Receives_example =
    handle_remote_data_v2-Receives options msg_data_stdin two_chunks receiver
      (record { is_open = refl; no_replace = refl }) (inl refl)
      (
        record { nonempty = omega arith; fits = omega arith; in_u32 = omega arith },
        (record { nonempty = omega arith; fits = omega arith; in_u32 = omega arith }, tt),
      )
      refl sink-IsSink
