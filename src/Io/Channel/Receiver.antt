-- ===== src/Io/Channel/Receiver.antt =====
-- libqrexec/remote.c: `handle_remote_data_v2`.
pub mod Frames
pub mod Loop
use qubes_core_qrexec.Prelude.{
  ℕ, zero, suc, ◌+◌, ◌-◌, ◌*◌, ◌/◌, Bool, not, ◌||◌, Option, none, some, ◌++◌, ltb, ◌==◌,
  if◌then◌else◌, length, Bytes,
}
use qubes_core_qrexec.Protocol.{
  msg_data_stdin, msg_data_stdout, msg_data_stderr, msg_data_exit_code, u32_at, MsgHeader,
  sizeof_header, header_at, read_exact,
}
use qubes_core_qrexec.Io.Channel.{Rc, remote_exited, remote_eof, remote_error, remote_ok}
use qubes_core_qrexec.Io.Replace.{do_replace_chars}
use qubes_core_qrexec.Io.Stdin.{
  Sink, write_stdin_ok, write_stdin_buffered, write_stdin_error, StdinResult, flush_client_data,
  write_stdin,
}

-- The arguments that stay: the buffer's size, whether `stdin_fd` is open, and the flags.
pub record Options : Type 0 where
  pub max_len : ℕ
  pub stdin_open : Bool
  pub replace_chars_stdout : Bool
  pub replace_chars_stderr : Bool
  pub is_service : Bool

-- The bytes that are ready on the vchan, the local process's stdin, what went to stderr, and
-- `*status`.
pub record Receiver : Type 0 where
  pub incoming : Bytes
  pub stdin : Sink
  pub stderr : Bytes
  pub status : ℕ

-- `some rc` where the function is left; the whole is `none` where the process exits.
abbrev pub Round : Type 0
Round = Option (Option Rc × Receiver)

abbrev pub replaced : Bool → Bytes → Bytes
replaced b s = if b then do_replace_chars s else s

abbrev pub after_write : Receiver → StdinResult → Round
after_write k none = none
after_write k (some (write_stdin_ok, sink)) = some (none, record k { stdin = sink })
after_write k (some (write_stdin_buffered, sink)) = some (some remote_ok, record k { stdin = sink })
after_write k (some (write_stdin_error, sink)) = some (some remote_eof, record k { stdin = sink })

-- MSG_DATA_STDIN and MSG_DATA_STDOUT; without a descriptor the data is dropped.
unfoldable pub handle_data : Options → Bytes → Receiver → Round
handle_data o buf k =
    if not o.stdin_open
    then some (none, k)
    else if length buf == 0
    then some (some remote_eof, k)
    else after_write k (write_stdin (replaced o.replace_chars_stdout buf) k.stdin)

-- A failure of the write to stderr is passed over, and not modelled.
unfoldable pub handle_stderr : Options → Bytes → Receiver → Round
handle_stderr o buf k =
    if o.is_service
    then some (none, k)
    else some (none, record k { stderr = k.stderr ++ replaced o.replace_chars_stderr buf })

unfoldable pub handle_exit_code : Options → Bytes → Receiver → Round
handle_exit_code o buf k =
    if o.is_service
    then some (none, k)
    else some
        (some remote_exited, record k { status = if ltb (length buf) 4 then 255 else u32_at buf })

unfoldable pub handle_type : Options → ℕ → Bytes → Receiver → Round
handle_type o type buf k =
    if type == msg_data_stdin || type == msg_data_stdout
    then handle_data o buf k
    else if type == msg_data_stderr
    then handle_stderr o buf k
    else if type == msg_data_exit_code
    then handle_exit_code o buf k
    else some (some remote_error, k)

-- The body of a message, and what follows it on the vchan.
unfoldable pub with_body : Options → ℕ → Receiver → Option (Bytes × Bytes) → Round
with_body o type k none = some (some remote_error, k)
with_body o type k (some (buf, rest)) = handle_type o type buf (record k { incoming = rest })

-- The check of the length, and the body.
unfoldable pub with_length : Options → Receiver → Bytes → MsgHeader → Round
with_length o k rest hdr =
    if ltb o.max_len hdr.len
    then some (some remote_error, record k { incoming = rest })
    else with_body o hdr.type (record k { incoming = rest }) (read_exact hdr.len rest)

-- A header, and what follows it on the vchan.
unfoldable pub with_header : Options → Receiver → Option (Bytes × Bytes) → Round
with_header o k none = some (some remote_error, k)
with_header o k (some (s, rest)) = with_length o k rest (header_at s)

-- One message; a vchan that closes inside one is an error.
unfoldable pub receive : Options → Receiver → Round
receive o k = with_header o k (read_exact sizeof_header k.incoming)

-- After a round.
abbrev pub after_receive : (Receiver → Option (Rc × Receiver)) → Round → Option (Rc × Receiver)
after_receive next none = none
after_receive next (some (none, k)) = next k
after_receive next (some (some rc, k)) = some (rc, k)

-- The loop while data is ready. A round takes at least a header, so that fuel for the length of
-- what is ready is enough.
unfoldable pub receive_all : ℕ → Options → Receiver → Option (Rc × Receiver)
receive_all zero o k = some (remote_ok, k)
receive_all (suc fuel) o k =
    if length k.incoming == 0
    then some (remote_ok, k)
    else after_receive (λ k'. receive_all fuel o k') (receive o k)

abbrev pub after_flush : Options → Receiver → StdinResult → Option (Rc × Receiver)
after_flush o k none = none
after_flush o k (some (write_stdin_ok, sink)) =
    receive_all (length k.incoming) o (record k { stdin = sink })
after_flush o k (some (write_stdin_buffered, sink)) = some (remote_ok, record k { stdin = sink })
after_flush o k (some (write_stdin_error, sink)) = some (remote_eof, record k { stdin = sink })

unfoldable pub handle_remote_data_v2 : Options → Receiver → Option (Rc × Receiver)
handle_remote_data_v2 o k = after_flush o k (flush_client_data o.stdin_open k.stdin)
