-- ===== src/Io/Channel/Receiver/Frames.antt =====
-- What `handle_remote_data_v2` makes of the messages of its peer.
use qubes_core_qrexec.Prelude.{
  ℕ, ◌≤◌, ◌<◌, ◌≡◌, refl, sym, ap, ◌∙◌, ◌≢◌, ◌⊎◌, inl, inr, true, false, ◌||◌, Option, none, some,
  List, [], ◌∷◌, ◌++◌, append_assoc, append-nil, arith, ltb, ◌==◌, length, Bytes,
}
use qubes_core_qrexec.Protocol.{
  u32_mod, msg_data_stdin, msg_data_stdout, sizeof_header, header_bytes, header_at, read_exact,
}
use qubes_core_qrexec.Protocol.Header.{header_at-header_bytes, read_exact-append}
use qubes_core_qrexec.Io.Channel.{Rc, remote_eof, remote_error, remote_ok, frame, frames, concat}
use qubes_core_qrexec.Io.Channel.Receiver.{
  Options, Receiver, replaced, after_write, handle_data, handle_type, with_body, with_length,
  with_header, receive,
}
use qubes_core_qrexec.Io.Stdin.{Status, write_stdin_buffered, write_stdin_error, write_stdin}
use qubes_core_qrexec.Io.Stdin.Stream.{stream, IsSink, Keeps}

-- A message of data that the receiver's buffer holds.
pub record IsChunk (o : Options) (s : Bytes) : Type 0 where
  pub nonempty : length s ≢ 0
  pub fits : length s ≤ o.max_len
  pub in_u32 : length s < u32_mod

abbrev pub IsData : ℕ → Type 0
IsData type = (type ≡ msg_data_stdin) ⊎ (type ≡ msg_data_stdout)

abbrev data_type :
    (type : ℕ) → IsData type → (type == msg_data_stdin || type == msg_data_stdout) ≡ true
data_type type (inl e) = rw e refl
data_type type (inr e) = rw e refl

abbrev in_word : (type : ℕ) → IsData type → type < u32_mod
in_word type (inl e) = rw e (omega arith)
in_word type (inr e) = rw e (omega arith)

pub receive-frame :
    (o : Options) (type : ℕ) (s rest : Bytes) (k : Receiver)
    → IsData type
    → o.stdin_open ≡ true
    → IsChunk o s
    → k.incoming ≡ frame type s ++ rest
    → receive o k
      ≡ after_write
          (record k { incoming = rest })
          (write_stdin (replaced o.replace_chars_stdout s) k.stdin)
unfolding receive with_header with_length with_body handle_type handle_data
receive-frame o type s rest k d op c q =
    let hdr : Bytes = header_bytes (record { type = type; len = length s }) in
    let q' : k.incoming ≡ hdr ++ (s ++ rest) = q ∙ append_assoc hdr s rest in
    let r1 : read_exact sizeof_header k.incoming ≡ some (hdr, s ++ rest) =
      rw q' (read_exact-append hdr (s ++ rest) 8 refl) in
    let hd : header_at hdr ≡ record { type = type; len = length s } =
      header_at-header_bytes (record { type = type; len = length s }) [] (in_word type d)
        c.in_u32 in
    let r2 : read_exact (length s) (s ++ rest) ≡ some (s, rest) =
      read_exact-append s rest (length s) refl in
    let small : ltb o.max_len (length s) ≡ false = (let u = c.fits in ground arith) in
    let some_data : (length s == 0) ≡ false = (let u = c.nonempty in ground arith) in
    let at_header : receive o k ≡ with_header o k (some (hdr, s ++ rest)) =
      ap (with_header o k) r1 in
    let at_body : with_header o k (some (hdr, s ++ rest))
        ≡ with_body o type (record k { incoming = s ++ rest }) (read_exact (length s) (s ++ rest)) =
      ap (with_length o k (s ++ rest)) hd ∙ rw (with_length, small) refl in
    let at_type : with_body o type (record k { incoming = s ++ rest })
          (read_exact (length s) (s ++ rest))
        ≡ handle_type o type s (record k { incoming = rest }) =
      ap (with_body o type (record k { incoming = s ++ rest })) r2 in
    let at_data : handle_type o type s (record k { incoming = rest })
        ≡ after_write (record k { incoming = rest })
            (write_stdin (replaced o.replace_chars_stdout s) k.stdin) =
      rw (handle_type, handle_data, data_type type d, op, some_data) refl in
    at_header ∙ (at_body ∙ (at_type ∙ at_data))

-- What the receiver makes of the messages `chunks`: it stops after some of them, or when its peer's process closes its stdin; the rest stays on the vchan, and unless a write failed the stream of the local stdin has grown by the data of those it took.
pub record Receives (type : ℕ) (chunks : List Bytes) (before : Bytes) (rc : Rc) (k : Receiver)
    : Type 0 where
  pub taken : List Bytes
  pub left : List Bytes
  pub split : chunks ≡ taken ++ left
  pub remains : k.incoming ≡ frames type left
  pub delivered : rc ≢ remote_eof → stream k.stdin ≡ before ++ concat taken
  pub no_error : rc ≢ remote_error
  pub all_taken : rc ≡ remote_ok → k.stdin.buffer.buflen ≡ 0 → left ≡ []
  pub is_sink : IsSink k.stdin

abbrev pub ReceivesAll : ℕ → List Bytes → Bytes → Option (Rc × Receiver) → Type 0
ReceivesAll type chunks before none = Unit
ReceivesAll type chunks before (some (rc, k)) = Receives type chunks before rc k

-- The receiver after it has taken a message.
pub Receives-after :
    (type : ℕ) (s : Bytes) (chunks : List Bytes) (b1 before : Bytes) (rc : Rc) (k : Receiver)
    → b1 ≡ before ++ s
    → Receives type chunks b1 rc k
    → Receives type (s ∷ chunks) before rc k
Receives-after type s chunks b1 before rc k q r = record {
  taken = s ∷ r.taken;
  left = r.left;
  split = ap (λ x. s ∷ x) r.split;
  remains = r.remains;
  delivered = λ ne.
      r.delivered ne ∙ (ap (λ x. x ++ concat r.taken) q ∙ append_assoc before s (concat r.taken));
  no_error = r.no_error;
  all_taken = r.all_taken;
  is_sink = r.is_sink;
}

-- The receiver when it stops at a message that it has taken.
pub Receives-last :
    (type : ℕ) (s : Bytes) (chunks : List Bytes) (before : Bytes) (rc : Rc) (st : Status)
    (k : Receiver)
    → k.incoming ≡ frames type chunks
    → Keeps before s st k.stdin
    → (rc ≢ remote_eof → st ≢ write_stdin_error)
    → (rc ≡ remote_ok → st ≡ write_stdin_buffered)
    → rc ≢ remote_error
    → Receives type (s ∷ chunks) before rc k
Receives-last type s chunks before rc st k q kp ne_ b_ no_ = record {
  taken = s ∷ [];
  left = chunks;
  split = refl;
  remains = q;
  delivered = λ h.
      sym (append-nil (stream k.stdin))
      ∙ (ap (λ x. stream k.stdin ++ x) (sym (kp.nothing_lost (ne_ h)))
          ∙ (kp.conserved ∙ ap (λ x. before ++ x) (sym (append-nil s))));
  no_error = no_;
  all_taken = λ h z. absurd (kp.some_wait (b_ h) z);
  is_sink = kp.is_sink;
}
