-- ===== src/Io/Channel/Sender/Frames.antt =====
-- What `handle_input_v2` puts on the vchan.
use qubes_core_qrexec.Prelude.{
  ℕ, ◌≤◌, ◌≡◌, refl, sym, ap, ◌∙◌, ◌≢◌, inl, inr, Bool, true, false, some, List, [], ◌∷◌, ◌++◌,
  append_assoc, append-nil, arith, ◌==◌, if◌then◌else◌, Bool-cases, length, take, drop, All,
  take-append-drop, length-take, Bytes,
}
use qubes_core_qrexec.Protocol.{header_bytes}
use qubes_core_qrexec.Io.Channel.{remote_error, frames, concat}
use qubes_core_qrexec.Io.Channel.Sender.{
  Source, chunk, reset, failing, ReadResult, got, would_block, read_failed, push_back, read_fd,
  Sender, next_write, send, next_data, after_data, after_header, send_data, send_round,
}

abbrev pub source_bytes : List Source → Bytes
source_bytes [] = []
source_bytes (chunk s ∷ es) = s ++ source_bytes es
source_bytes (reset ∷ es) = source_bytes es
source_bytes (failing ∷ es) = source_bytes es

-- What is still to be sent.
abbrev pub waiting : Sender → Bytes
waiting k = k.prefix_data ++ source_bytes k.source

-- What a call sends: frames of the message type, each of at most `max_len` bytes, which together hold the bytes that no longer wait.
pub record Sends (msg_type max_len : ℕ) (k k' : Sender) : Type 0 where
  pub chunks : List Bytes
  pub framed : k'.sent ≡ k.sent ++ frames msg_type chunks
  pub conserved : concat chunks ++ waiting k' ≡ waiting k
  pub small : All (λ s. length s ≤ max_len) chunks

-- What a read leaves.
abbrev pub Takes : ℕ → Sender → ReadResult → Sender → Type 0
Takes len k (got s) k1 = (s ++ waiting k1 ≡ waiting k) × (length s ≤ len) × (k1.sent ≡ k.sent)
Takes len k would_block k1 = (waiting k1 ≡ waiting k) × (k1.sent ≡ k.sent)
Takes len k read_failed k1 = Unit

push_back-bytes :
    (s : Bytes) (es : List Source) → source_bytes (push_back s es) ≡ s ++ source_bytes es
push_back-bytes [] es = refl
push_back-bytes (c ∷ s) es = refl

-- With an empty prefix.
read_fd-Takes :
    (len : ℕ) (es : List Source) (k : Sender)
    → k.prefix_data ≡ []
    → k.source ≡ es
    → Takes len k (read_fd len es).0 (record k { source = (read_fd len es).1 })
unfolding read_fd
read_fd-Takes len [] k p q = rw (p, q) (refl, refl)
read_fd-Takes len (chunk s ∷ es) k p q = (
  rw (p, q)
      (ap (λ x. take len s ++ x) (push_back-bytes (drop len s) es)
        ∙ (sym (append_assoc (take len s) (drop len s) (source_bytes es))
            ∙ ap (λ x. x ++ source_bytes es) (take-append-drop len s))),
  omega (arith, length-take len s),
  refl,
)
read_fd-Takes len (reset ∷ es) k p q = (rw (p, q) refl, omega arith, refl)
read_fd-Takes len (failing ∷ es) k p q = tt

pub next_data-Takes : (len : ℕ) (k : Sender) → Takes len k (next_data len k).0 (next_data len k).1
unfolding next_data
next_data-Takes len k = elim (Bool-cases (length k.prefix_data == 0)) [
  | inl e ↦ rw (next_data, e) (read_fd-Takes len k.source k (nil_of k.prefix_data e) refl)
  | inr e ↦
      rw (next_data, e)
        (
          sym (
                append_assoc (take len k.prefix_data) (drop len k.prefix_data)
                  (source_bytes k.source))
              ∙ ap (λ x. x ++ source_bytes k.source) (take-append-drop len k.prefix_data),
          omega (arith, length-take len k.prefix_data),
          refl,
        )
]
  where
    nil_of : (s : Bytes) → (length s == 0) ≡ true → s ≡ []
    nil_of [] h = refl
    nil_of (c ∷ s) h = absurd (ground arith)

-- The outcome of a send.
pub record Sent (s : Bytes) (k : Sender) (ok : Bool) (k' : Sender) : Type 0 where
  pub kept : waiting k' ≡ waiting k
  pub sent_if : k'.sent ≡ k.sent ++ (if ok then s else [])

pub send-Sent : (s : Bytes) (k : Sender) → Sent s k (send s k).0 (send s k).1
unfolding send
send-Sent s k = elim (Bool-cases (next_write k.write_results)) [
  | inl e ↦ rw (send, e) (record { kept = refl; sent_if = refl })
  | inr e ↦ rw (send, e) (record { kept = refl; sent_if = sym (append-nil k.sent) })
]

-- The data of one round, sent as one frame, or not at all at the end of the file.
record SendsData (msg_type : ℕ) (s : Bytes) (k k' : Sender) : Type 0 where
  chunks : List Bytes
  framed : k'.sent ≡ k.sent ++ frames msg_type chunks
  whole : concat chunks ≡ s
  kept : waiting k' ≡ waiting k
  small : All (λ c. length c ≤ length s) chunks

after_data-SendsData :
    (msg_type : ℕ) (s : Bytes) (k k1 k2 : Sender) (ok : Bool)
    → Sent (header_bytes (record { type = msg_type; len = length s })) k true k1
    → Sent s k1 ok k2
    → (after_data (ok, k2)).0 ≢ some remote_error
    → SendsData msg_type s k (after_data (ok, k2)).1
after_data-SendsData msg_type s k k1 k2 true t1 t2 h = record {
  chunks = s ∷ [];
  framed =
      t2.sent_if
      ∙ (ap (λ x. x ++ s) t1.sent_if
          ∙ (append_assoc k.sent (header_bytes (record { type = msg_type; len = length s })) s
              ∙ ap (λ x. k.sent ++ x)
                  (sym (
                    append-nil (header_bytes (record { type = msg_type; len = length s }) ++ s)))));
  whole = append-nil s;
  kept = t2.kept ∙ t1.kept;
  small = (omega arith, tt);
}
after_data-SendsData msg_type s k k1 k2 false t1 t2 h = absurd (h refl)

after_header-SendsData :
    (msg_type : ℕ) (s : Bytes) (k k1 : Sender) (ok : Bool)
    → Sent (header_bytes (record { type = msg_type; len = length s })) k ok k1
    → (after_header s (ok, k1)).0 ≢ some remote_error
    → SendsData msg_type s k (after_header s (ok, k1)).1
after_header-SendsData msg_type s k k1 true t h =
    after_data-SendsData msg_type s k k1 (send s k1).1 (send s k1).0 t (send-Sent s k1) h
after_header-SendsData msg_type s k k1 false t h = absurd (h refl)

send_data-SendsData :
    (msg_type : ℕ) (s : Bytes) (k : Sender)
    → (send_data msg_type s k).0 ≢ some remote_error
    → SendsData msg_type s k (send_data msg_type s k).1
unfolding send_data
send_data-SendsData msg_type [] k h = by_sent (send hdr k).0 (send hdr k).1 (send-Sent hdr k)
  where
    hdr : Bytes
    hdr = header_bytes (record { type = msg_type; len = 0 })

    by_sent : (ok : Bool) (k' : Sender) → Sent hdr k ok k' → SendsData msg_type [] k k'
    by_sent true k' t = record {
      chunks = [] ∷ [];
      framed = t.sent_if;
      whole = refl;
      kept = t.kept;
      small = (omega arith, tt);
    }
    by_sent false k' t = record {
      chunks = [];
      framed = t.sent_if;
      whole = refl;
      kept = t.kept;
      small = tt;
    }
send_data-SendsData msg_type (c ∷ s) k h =
    let hdr = header_bytes (record { type = msg_type; len = length (c ∷ s) }) in
    after_header-SendsData msg_type (c ∷ s) k (send hdr k).1 (send hdr k).0 (send-Sent hdr k) h

-- A round that does not fail.
pub round-Sends :
    (msg_type len : ℕ) (k k1 : Sender) (r : ReadResult)
    → Takes len k r k1
    → (send_round msg_type r k1).0 ≢ some remote_error
    → Sends msg_type len k (send_round msg_type r k1).1
unfolding send_round
round-Sends msg_type len k k1 (got s) (q, u, same) h =
    let d = send_data-SendsData msg_type s k1 h in
    record {
      chunks = d.chunks;
      framed = d.framed ∙ ap (λ x. x ++ frames msg_type d.chunks) same;
      conserved =
          ap (λ x. x ++ waiting (send_data msg_type s k1).1) d.whole
          ∙ (ap (λ x. s ++ x) d.kept ∙ q);
      small = within_len d.chunks d.small;
    }
  where
    within_len :
        (cs : List Bytes) → All (λ c. length c ≤ length s) cs → All (λ c. length c ≤ len) cs
    within_len [] a = tt
    within_len (c ∷ cs) a = (omega (arith, a.0, u), within_len cs a.1)
round-Sends msg_type len k k1 would_block (q, same) h = record {
  chunks = [];
  framed = same ∙ sym (append-nil k.sent);
  conserved = q;
  small = tt;
}
round-Sends msg_type len k k1 read_failed t h = absurd (h refl)
