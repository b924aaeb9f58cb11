-- ===== src/Io/Channel/Receiver/Loop.antt =====
-- The loop of `handle_remote_data_v2` on the messages of a peer.
use qubes_core_qrexec.Prelude.{
  ℕ, zero, suc, ◌≤◌, ◌≡◌, refl, sym, ap, ◌∙◌, subst, ◌≢◌, true, false, Option, none, some, List, [],
  ◌∷◌, ◌++◌, append-nil, arith, ◌==◌, length, All, length-append, Bytes,
}
use qubes_core_qrexec.Io.Channel.{Rc, remote_eof, remote_error, remote_ok, frame, frames}
use qubes_core_qrexec.Io.Channel.Receiver.{
  Options, Receiver, replaced, after_write, after_receive, receive_all, after_flush,
  handle_remote_data_v2,
}
use qubes_core_qrexec.Io.Channel.Receiver.Frames.{
  IsChunk, IsData, receive-frame, Receives, ReceivesAll, Receives-after, Receives-last,
}
use qubes_core_qrexec.Io.Stdin.{
  Status, write_stdin_ok, write_stdin_buffered, write_stdin_error, StdinResult, flush_client_data,
  write_stdin,
}
use qubes_core_qrexec.Io.Stdin.Stream.{
  stream, IsSink, Keeps, KeepsAll, write_stdin-Keeps, flush_client_data-Keeps,
}

-- A receiver that forwards to an open descriptor as it is.
pub record IsPlain (o : Options) : Type 0 where
  pub is_open : o.stdin_open ≡ true
  pub no_replace : o.replace_chars_stdout ≡ false

nothing_left :
    (type : ℕ) (k : Receiver)
    → k.incoming ≡ []
    → IsSink k.stdin
    → Receives type [] (stream k.stdin) remote_ok k
nothing_left type k q i = record {
  taken = [];
  left = [];
  split = refl;
  remains = q;
  delivered = λ _. sym (append-nil (stream k.stdin));
  no_error = λ e. cc e;
  all_taken = λ _ _. refl;
  is_sink = i;
}

-- What the loop does after a write, given what it does on the messages that follow.
after_write-Receives :
    (type : ℕ) (s : Bytes) (chunks : List Bytes) (k : Receiver)
    (next : Receiver → Option (Rc × Receiver)) (r : StdinResult)
    → k.incoming ≡ frames type chunks
    → KeepsAll (stream k.stdin) s r
    → ((k' : Receiver)
        → k'.incoming ≡ frames type chunks
        → IsSink k'.stdin
        → ReceivesAll type chunks (stream k'.stdin) (next k'))
    → ReceivesAll type (s ∷ chunks) (stream k.stdin) (after_receive next (after_write k r))
after_write-Receives type s chunks k next none q kp ih = tt
after_write-Receives type s chunks k next (some (write_stdin_ok, sink)) q kp ih =
    grown (next (record k { stdin = sink })) (ih (record k { stdin = sink }) q kp.is_sink)
  where
    b : stream sink ≡ stream k.stdin ++ s
    b =
        sym (append-nil (stream sink))
        ∙ (ap (λ x. stream sink ++ x) (sym (kp.nothing_lost (λ e. cc e))) ∙ kp.conserved)

    grown :
        (o : Option (Rc × Receiver))
        → ReceivesAll type chunks (stream sink) o
        → ReceivesAll type (s ∷ chunks) (stream k.stdin) o
    grown none h = tt
    grown (some (rc, k')) h = Receives-after type s chunks (stream sink) (stream k.stdin) rc k' b h
after_write-Receives type s chunks k next (some (write_stdin_buffered, sink)) q kp ih =
    Receives-last type s chunks (stream k.stdin) remote_ok write_stdin_buffered
      (record k { stdin = sink }) q kp (λ _ e. cc e) (λ _. refl) (λ e. cc e)
after_write-Receives type s chunks k next (some (write_stdin_error, sink)) q kp ih =
    Receives-last type s chunks (stream k.stdin) remote_eof write_stdin_error
      (record k { stdin = sink }) q kp (λ h. absurd (h refl)) (λ e. absurd (cc e)) (λ e. cc e)

receive_all-Receives :
    (o : Options) (type fuel : ℕ) (chunks : List Bytes) (k : Receiver)
    → IsPlain o
    → IsData type
    → All (IsChunk o) chunks
    → length chunks ≤ fuel
    → k.incoming ≡ frames type chunks
    → IsSink k.stdin
    → ReceivesAll type chunks (stream k.stdin) (receive_all fuel o k)
unfolding receive_all
receive_all-Receives o type zero [] k p d a u q i = nothing_left type k q i
receive_all-Receives o type (suc fuel) [] k p d a u q i =
    let z : (length k.incoming == 0) ≡ true = rw q refl in
    rw (receive_all, z) (nothing_left type k q i)
receive_all-Receives o type zero (s ∷ chunks) k p d a u q i = absurd (omega arith)
receive_all-Receives o type (suc fuel) (s ∷ chunks) k p d a u q i =
    let some_ready : (length k.incoming == 0) ≡ false = rw q (ground arith) in
    let step = receive-frame o type s (frames type chunks) k d p.is_open a.0 q in
    let plain : replaced o.replace_chars_stdout s ≡ s = rw p.no_replace refl in
    rw (receive_all, some_ready, step, plain)
      (after_write-Receives type s chunks (record k { incoming = frames type chunks })
        (λ k'. receive_all fuel o k') (write_stdin s k.stdin) refl (write_stdin-Keeps s k.stdin i)
        (λ k' q' i'. receive_all-Receives o type fuel chunks k' p d a.1 (omega arith) q' i'))

length-frames : (type : ℕ) (chunks : List Bytes) → length chunks ≤ length (frames type chunks)
length-frames type [] = omega arith
length-frames type (s ∷ chunks) =
    omega (arith, length-append (frame type s) (frames type chunks), length-frames type chunks)

-- The receiver when it stops before the first message.
Receives-none :
    (type : ℕ) (chunks : List Bytes) (before : Bytes) (rc : Rc) (st : Status) (k : Receiver)
    → k.incoming ≡ frames type chunks
    → Keeps before [] st k.stdin
    → (rc ≢ remote_eof → st ≢ write_stdin_error)
    → (rc ≡ remote_ok → st ≡ write_stdin_buffered)
    → rc ≢ remote_error
    → Receives type chunks before rc k
Receives-none type chunks before rc st k q kp ne_ b_ no_ = record {
  taken = [];
  left = chunks;
  split = refl;
  remains = q;
  delivered = λ h.
      sym (append-nil (stream k.stdin))
      ∙ (ap (λ x. stream k.stdin ++ x) (sym (kp.nothing_lost (ne_ h))) ∙ kp.conserved);
  no_error = no_;
  all_taken = λ h z. absurd (kp.some_wait (b_ h) z);
  is_sink = kp.is_sink;
}

after_flush-Receives :
    (o : Options) (type : ℕ) (chunks : List Bytes) (k : Receiver) (r : StdinResult)
    → IsPlain o
    → IsData type
    → All (IsChunk o) chunks
    → k.incoming ≡ frames type chunks
    → KeepsAll (stream k.stdin) [] r
    → ReceivesAll type chunks (stream k.stdin) (after_flush o k r)
after_flush-Receives o type chunks k none p d a q kp = tt
after_flush-Receives o type chunks k (some (write_stdin_ok, sink)) p d a q kp =
    same (receive_all (length k.incoming) o (record k { stdin = sink })) (
      receive_all-Receives o type (length k.incoming) chunks (record k { stdin = sink }) p d a
        (rw q (length-frames type chunks)) q kp.is_sink)
  where
    b : stream sink ≡ stream k.stdin
    b =
        sym (append-nil (stream sink))
        ∙ (ap (λ x. stream sink ++ x) (sym (kp.nothing_lost (λ e. cc e)))
            ∙ (kp.conserved ∙ append-nil (stream k.stdin)))

    same :
        (r : Option (Rc × Receiver))
        → ReceivesAll type chunks (stream sink) r
        → ReceivesAll type chunks (stream k.stdin) r
    same none h = tt
    same (some (rc, k')) h = subst (λ x. Receives type chunks x rc k') b h
after_flush-Receives o type chunks k (some (write_stdin_buffered, sink)) p d a q kp =
    Receives-none type chunks (stream k.stdin) remote_ok write_stdin_buffered
      (record k { stdin = sink }) q kp (λ _ e. cc e) (λ _. refl) (λ e. cc e)
after_flush-Receives o type chunks k (some (write_stdin_error, sink)) p d a q kp =
    Receives-none type chunks (stream k.stdin) remote_eof write_stdin_error
      (record k { stdin = sink }) q kp (λ h. absurd (h refl)) (λ e. absurd (cc e)) (λ e. cc e)

-- On a vchan that holds messages of data and no empty one, each within the receiver's buffer, `handle_remote_data_v2` (to an open descriptor, without replacing characters), where it returns, takes whole messages from the front and leaves the rest on the vchan, reports no error, and unless it reports the end of the file the local stdin's stream has grown by exactly the data it took, in order; it stops early with REMOTE_OK only while bytes wait in the buffer.
pub handle_remote_data_v2-Receives :
    (o : Options) (type : ℕ) (chunks : List Bytes) (k : Receiver)
    → IsPlain o
    → IsData type
    → All (IsChunk o) chunks
    → k.incoming ≡ frames type chunks
    → IsSink k.stdin
    → ReceivesAll type chunks (stream k.stdin) (handle_remote_data_v2 o k)
unfolding handle_remote_data_v2
handle_remote_data_v2-Receives o type chunks k p d a q i =
    let f : flush_client_data o.stdin_open k.stdin ≡ flush_client_data true k.stdin =
      ap (λ b. flush_client_data b k.stdin) p.is_open in
    rw (handle_remote_data_v2, f)
      (after_flush-Receives o type chunks k (flush_client_data true k.stdin) p d a q
        (flush_client_data-Keeps k.stdin i))
