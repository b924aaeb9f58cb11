-- ===== src/Io/Channel/Sender/Loop.antt =====
-- The loop of `handle_input_v2`.
use qubes_core_qrexec.Prelude.{
  ℕ, ◌-◌, ◌≤◌, min, ◌≡◌, refl, sym, ap, ◌∙◌, ◌≢◌, inl, inr, Option, none, some, List, [], ◌∷◌, ◌++◌,
  append_assoc, append-nil, arith, ltb, Bool-cases, length, All, Bytes,
}
use qubes_core_qrexec.Protocol.{sizeof_header}
use qubes_core_qrexec.Io.Channel.{Rc, remote_error, frame, frames, concat}
use qubes_core_qrexec.Io.Channel.Sender.{Sender, next_data, round, after_round, handle_input_v2}
use qubes_core_qrexec.Io.Channel.Sender.Frames.{waiting, Sends, next_data-Takes, round-Sends}

frames-append :
    (type : ℕ) (a b : List Bytes) → frames type (a ++ b) ≡ frames type a ++ frames type b
frames-append type [] b = refl
frames-append type (s ∷ a) b =
    ap (λ x. frame type s ++ x) (frames-append type a b)
    ∙ sym (append_assoc (frame type s) (frames type a) (frames type b))

concat-append : (a b : List Bytes) → concat (a ++ b) ≡ concat a ++ concat b
concat-append [] b = refl
concat-append (s ∷ a) b =
    ap (λ x. s ++ x) (concat-append a b) ∙ sym (append_assoc s (concat a) (concat b))

All-append :
    (m n : ℕ) (a b : List Bytes)
    → m ≤ n
    → All (λ s. length s ≤ m) a
    → All (λ s. length s ≤ n) b
    → All (λ s. length s ≤ n) (a ++ b)
All-append m n [] b u x y = y
All-append m n (s ∷ a) b u x y = (omega (arith, x.0), All-append m n a b u x.1 y)

-- One round and the rest.
Sends-trans :
    (type m n : ℕ) (k k1 k2 : Sender)
    → m ≤ n
    → Sends type m k k1
    → Sends type n k1 k2
    → Sends type n k k2
Sends-trans type m n k k1 k2 u a b = record {
  chunks = a.chunks ++ b.chunks;
  framed =
      b.framed
      ∙ (ap (λ x. x ++ frames type b.chunks) a.framed
          ∙ (append_assoc k.sent (frames type a.chunks) (frames type b.chunks)
              ∙ ap (λ x. k.sent ++ x) (sym (frames-append type a.chunks b.chunks))));
  conserved =
      ap (λ x. x ++ waiting k2) (concat-append a.chunks b.chunks)
      ∙ (append_assoc (concat a.chunks) (concat b.chunks) (waiting k2)
          ∙ (ap (λ x. concat a.chunks ++ x) b.conserved ∙ a.conserved));
  small = All-append m n a.chunks b.chunks u a.small b.small;
}

Sends-none : (type n : ℕ) (k : Sender) → Sends type n k k
Sends-none type n k = record {
  chunks = [];
  framed = sym (append-nil k.sent);
  conserved = refl;
  small = tt;
}

-- The rest of the loop after a round.
after_round-Sends :
    (type m n : ℕ) (k : Sender) (next : Sender → Rc × Sender) (rc : Option Rc) (k1 : Sender)
    → m ≤ n
    → (rc ≢ some remote_error → Sends type m k k1)
    → ((k' : Sender) → (next k').0 ≢ remote_error → Sends type n k' (next k').1)
    → (after_round next (rc, k1)).0 ≢ remote_error
    → Sends type n k (after_round next (rc, k1)).1
after_round-Sends type m n k next none k1 u a ih h =
    Sends-trans type m n k k1 (next k1).1 u (a (λ q. cc q)) (ih k1 h)
after_round-Sends type m n k next (some rc) k1 u a ih h =
    Sends-trans type m n k k1 k1 u (a (λ q. h (cc q))) (Sends-none type n k1)

-- Unless `handle_input_v2` reports an error, what it has put on the vchan is a sequence of whole messages of the given type, none longer than the buffer, whose data is the prefix and what the descriptor had, in order, up to what still waits.
pub handle_input_v2-Sends :
    (msg_type max_len : ℕ) (spaces : List ℕ) (k : Sender)
    → (handle_input_v2 msg_type max_len spaces k).0 ≢ remote_error
    → Sends msg_type max_len k (handle_input_v2 msg_type max_len spaces k).1
unfolding handle_input_v2
handle_input_v2-Sends msg_type max_len [] k h = Sends-none msg_type max_len k
handle_input_v2-Sends msg_type max_len (space ∷ spaces) k h =
    elim (Bool-cases (ltb sizeof_header space)) [
      | inl e ↦
          let len = min (space - sizeof_header) max_len in
          let t = next_data-Takes len k in
          rw (handle_input_v2, e)
            (after_round-Sends msg_type len max_len k
              (λ k'. handle_input_v2 msg_type max_len spaces k') (round msg_type len k).0
              (round msg_type len k).1 (omega arith)
              (round-Sends msg_type len k (next_data len k).1 (next_data len k).0 t)
              (handle_input_v2-Sends msg_type max_len spaces) (rw (handle_input_v2, e) at h))
      | inr e ↦ rw (handle_input_v2, e) (Sends-none msg_type max_len k)
    ]
