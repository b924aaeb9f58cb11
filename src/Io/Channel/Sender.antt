-- ===== src/Io/Channel/Sender.antt =====
-- libqrexec/remote.c: `handle_input_v2` and `send_exit_code`.
pub mod Frames
pub mod Loop
use qubes_core_qrexec.Prelude.{
  ℕ, ◌+◌, ◌-◌, ◌/◌, min, Bool, true, false, Option, none, some, List, [], ◌∷◌, ◌++◌, ltb, ◌==◌,
  if◌then◌else◌, length, take, drop, Bytes,
}
use qubes_core_qrexec.Protocol.{msg_data_exit_code, u32_bytes, sizeof_header, header_bytes}
use qubes_core_qrexec.Io.Channel.{Rc, remote_eof, remote_error, remote_ok}

-- What `read` finds on the descriptor: bytes, none of them at the end of the file, a connection
-- that was reset, or an error. Where the list has ended it would block.
pub data Source : Type 0 where
  chunk : Bytes → Source
  reset : Source
  failing : Source

pub data ReadResult : Type 0 where
  got : Bytes → ReadResult
  would_block : ReadResult
  read_failed : ReadResult

abbrev pub push_back : Bytes → List Source → List Source
push_back [] es = es
push_back (c ∷ s) es = chunk (c ∷ s) ∷ es

-- `read` of at most `len` bytes; ECONNRESET counts as the end of the file.
unfoldable pub read_fd : ℕ → List Source → ReadResult × List Source
read_fd len [] = (would_block, [])
read_fd len (chunk s ∷ es) = (got (take len s), push_back (drop len s) es)
read_fd len (reset ∷ es) = (got [], es)
read_fd len (failing ∷ es) = (read_failed, es)

-- `prefix_data`, the descriptor, what was sent on the vchan, and whether its writes succeed; where
-- that list has ended they do.
pub record Sender : Type 0 where
  pub prefix_data : Bytes
  pub source : List Source
  pub sent : Bytes
  pub write_results : List Bool

abbrev pub next_write : List Bool → Bool
next_write [] = true
next_write (b ∷ _) = b

abbrev pub later_writes : List Bool → List Bool
later_writes [] = []
later_writes (_ ∷ bs) = bs

-- `libvchan_send` of a header, or `write_vchan_all`.
unfoldable pub send : Bytes → Sender → Bool × Sender
send s k =
    if next_write k.write_results
    then (true, record k { sent = k.sent ++ s; write_results = later_writes k.write_results })
    else (false, record k { write_results = later_writes k.write_results })

-- The data of one round: from the prefix as long as there is some, else from the descriptor.
unfoldable pub next_data : ℕ → Sender → ReadResult × Sender
next_data len k =
    if length k.prefix_data == 0
    then (let r = read_fd len k.source in (r.0, record k { source = r.1 }))
    else (got (take len k.prefix_data), record k { prefix_data = drop len k.prefix_data })

abbrev pub after_data : Bool × Sender → Option Rc × Sender
after_data (true, k) = (none, k)
after_data (false, k) = (some remote_error, k)

-- The data goes out once its header has.
abbrev pub after_header : Bytes → Bool × Sender → Option Rc × Sender
after_header s (true, k) = after_data (send s k)
after_header s (false, k) = (some remote_error, k)

-- A header and its data, or the header of an empty message for the end of the file, whose failure
-- to be sent is passed over. `none` where the loop goes on.
unfoldable pub send_data : ℕ → Bytes → Sender → Option Rc × Sender
send_data msg_type [] k =
    (some remote_eof, (send (header_bytes (record { type = msg_type; len = 0 })) k).1)
send_data msg_type (c ∷ s) k =
    after_header (c ∷ s) (send (header_bytes (record { type = msg_type; len = length (c ∷ s) })) k)

unfoldable pub send_round : ℕ → ReadResult → Sender → Option Rc × Sender
send_round msg_type (got s) k = send_data msg_type s k
send_round msg_type would_block k = (some remote_ok, k)
send_round msg_type read_failed k = (some remote_error, k)

abbrev pub after_round : (Sender → Rc × Sender) → Option Rc × Sender → Rc × Sender
after_round next (none, k) = next k
after_round next (some rc, k) = (rc, k)

-- The data of one round, sent.
abbrev pub round : ℕ → ℕ → Sender → Option Rc × Sender
round msg_type len k = let (r, k1) = next_data len k in send_round msg_type r k1

-- `spaces` are the answers of `libvchan_buffer_space`, at whose end there is no space. The length
-- is that of the buffer at most.
unfoldable pub handle_input_v2 : ℕ → ℕ → List ℕ → Sender → Rc × Sender
handle_input_v2 msg_type max_len [] k = (remote_ok, k)
handle_input_v2 msg_type max_len (space ∷ spaces) k =
    let rest =
      after_round (λ k'. handle_input_v2 msg_type max_len spaces k')
        (round msg_type (min (space - sizeof_header) max_len) k) in
    if ltb sizeof_header space then rest else (remote_ok, k)

-- False for -1.
unfoldable pub send_exit_code : ℕ → Sender → Bool × Sender
send_exit_code status k =
    let (header_sent, k1) = send (header_bytes (record { type = msg_data_exit_code; len = 4 })) k in
    if header_sent then send (u32_bytes status) k1 else (false, k1)
