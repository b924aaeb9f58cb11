-- ===== src/Io/Stdin/Stream.antt =====
-- The stream of bytes that goes through `write_stdin` and `flush_client_data`.
use qubes_core_qrexec.Prelude.{
  ℕ, suc, ◌+◌, ◌≤◌, min, ◌≡◌, refl, sym, ap, ◌∙◌, ◌≢◌, inl, inr, true, none, some, List, [], ◌∷◌,
  ◌++◌, append_assoc, append-nil, arith, ◌==◌, Bool-cases, length, take, drop, length-append,
  take-append-drop, Bytes,
}
use qubes_core_qrexec.Io.Memory.{Buffer, Result, ok, exit_1, abort, buffer_append}
use qubes_core_qrexec.Io.Memory.Account.{
  IsBuffer, Holds, none_left, buffer_append-Holds, buffer_remove-Holds,
}
use qubes_core_qrexec.Io.Stdin.{
  WriteResult, takes, would_block, fails, Sink, Status, write_stdin_ok, write_stdin_buffered,
  write_stdin_error, StdinResult, with_buffer, flush_loop, flush_client_data, append_rest,
  write_loop, write_stdin,
}

-- All that has been given to the sink and not lost: what is in the pipe and what waits for it.
abbrev pub stream : Sink → Bytes
stream k = k.written ++ k.buffer.bytes

-- The buffer is well formed and accounted for.
pub record IsSink (k : Sink) : Type 0 where
  pub is_buffer : IsBuffer k.buffer
  pub accounted : k.buffer.buflen ≤ k.total_mem

-- What a call leaves of the stream `before`, where it returns: the sink is well formed; after an error the stream has lost an end of the data, and otherwise it has grown by the data; WRITE_STDIN_OK means that nothing waits, WRITE_STDIN_BUFFERED that something does.
pub record Keeps (before : Bytes) (s : Bytes) (st : Status) (k' : Sink) : Type 0 where
  pub is_sink : IsSink k'
  pub lost : Bytes
  pub conserved : stream k' ++ lost ≡ before ++ s
  pub nothing_lost : st ≢ write_stdin_error → lost ≡ []
  pub nothing_waits : st ≡ write_stdin_ok → k'.buffer.bytes ≡ []
  pub some_wait : st ≡ write_stdin_buffered → k'.buffer.buflen ≢ 0

abbrev pub KeepsAll : Bytes → Bytes → StdinResult → Type 0
KeepsAll before s none = Unit
KeepsAll before s (some (st, k')) = Keeps before s st k'

no_bytes : (b : Buffer) → IsBuffer b → (b.buflen == 0) ≡ true → b.bytes ≡ []
no_bytes b i h = none_left b.bytes (rw (← i.size) h)

append_rest-Keeps :
    (s : Bytes) (k : Sink)
    → IsSink k
    → length s + k.buffer.buflen ≢ 0
    → KeepsAll (stream k) s (append_rest s k)
append_rest-Keeps s k i nz =
    by_result (buffer_append k.buffer s k.total_mem)
      (buffer_append-Holds k.buffer s k.total_mem i.is_buffer i.accounted)
  where
    by_result :
        (r : Result Buffer)
        → Holds k.buffer k.total_mem (k.buffer.bytes ++ s) r
        → KeepsAll (stream k) s (
            with_buffer r
              (λ b total. some (write_stdin_buffered, record k { buffer = b; total_mem = total })))
    by_result (ok b total) (q, b_ok, acc) = record {
      is_sink = record { is_buffer = b_ok; accounted = omega (arith, i.accounted) };
      lost = [];
      conserved = rw (q, append-nil) (sym (append_assoc k.written k.buffer.bytes s));
      nothing_lost = λ _. refl;
      nothing_waits = λ e. absurd (cc e);
      some_wait = λ _.
          omega
            (arith, b_ok.size, ap length q, length-append k.buffer.bytes s, i.is_buffer.size, nz);
    }
    by_result exit_1 h = tt
    by_result abort h = absurd h

-- The same bytes, split elsewhere between what was given before and what is given now.
Keeps-shift :
    (a s b t : Bytes) (r : StdinResult) → a ++ s ≡ b ++ t → KeepsAll a s r → KeepsAll b t r
Keeps-shift a s b t none q h = tt
Keeps-shift a s b t (some (st, k)) q h = record {
  is_sink = h.is_sink;
  lost = h.lost;
  conserved = h.conserved ∙ q;
  nothing_lost = h.nothing_lost;
  nothing_waits = h.nothing_waits;
  some_wait = h.some_wait;
}

-- Bytes taken from the front of the data go to the end of the pipe.
moved :
    (n : ℕ) (written s : Bytes) → ((written ++ take n s) ++ []) ++ drop n s ≡ (written ++ []) ++ s
moved n written s =
    rw (append-nil (written ++ take n s), append-nil written)
      (append_assoc written (take n s) (drop n s) ∙ ap (λ x. written ++ x) (take-append-drop n s))

-- A step that moves bytes from the front of the data into the pipe.
write_loop-Keeps :
    (rs : List WriteResult) (s : Bytes) (k : Sink)
    → IsSink k
    → k.buffer.bytes ≡ []
    → KeepsAll (stream k) s (write_loop rs s k)
unfolding write_loop
write_loop-Keeps rs [] k i e = record {
  is_sink = record { is_buffer = i.is_buffer; accounted = i.accounted };
  lost = [];
  conserved = refl;
  nothing_lost = λ _. refl;
  nothing_waits = λ _. e;
  some_wait = λ q. absurd (cc q);
}
write_loop-Keeps [] (c ∷ s) k i e =
    append_rest-Keeps (c ∷ s) (record k { results = [] })
      (record { is_buffer = i.is_buffer; accounted = i.accounted }) (omega arith)
write_loop-Keeps (would_block ∷ rs) (c ∷ s) k i e =
    append_rest-Keeps (c ∷ s) (record k { results = rs })
      (record { is_buffer = i.is_buffer; accounted = i.accounted }) (omega arith)
write_loop-Keeps (fails ∷ rs) (c ∷ s) k i e = record {
  is_sink = record { is_buffer = i.is_buffer; accounted = i.accounted };
  lost = c ∷ s;
  conserved = refl;
  nothing_lost = λ h. absurd (h refl);
  nothing_waits = λ h. absurd (cc h);
  some_wait = λ q. absurd (cc q);
}
write_loop-Keeps (takes n ∷ rs) (c ∷ s) k i e =
    let ret = min (suc n) (length (c ∷ s)) in
    Keeps-shift ((k.written ++ take ret (c ∷ s)) ++ k.buffer.bytes) (drop ret (c ∷ s)) (stream k)
      (c ∷ s) _ (rw e (moved ret k.written (c ∷ s)))
      (write_loop-Keeps rs (drop ret (c ∷ s))
        (record k { written = k.written ++ take ret (c ∷ s); results = rs })
        (record { is_buffer = i.is_buffer; accounted = i.accounted }) e)

-- `write_stdin`, where it returns: unless it reports an error, the bytes in the pipe followed by the buffer are those before the call followed by the data, all of them and in order, WRITE_STDIN_OK means that the buffer is empty and WRITE_STDIN_BUFFERED that it is not; after an error they are a beginning of that.
pub write_stdin-Keeps : (s : Bytes) (k : Sink) → IsSink k → KeepsAll (stream k) s (write_stdin s k)
unfolding write_stdin
write_stdin-Keeps s k i = elim (Bool-cases (k.buffer.buflen == 0)) [
  | inl e ↦ rw (write_stdin, e) (write_loop-Keeps k.results s k i (no_bytes k.buffer i.is_buffer e))
  | inr e ↦ rw (write_stdin, e) (append_rest-Keeps s k i (ground arith))
]

-- Where nothing waits a flush is done.
flushed :
    (k : Sink) → IsSink k → (k.buffer.buflen == 0) ≡ true → Keeps (stream k) [] write_stdin_ok k
flushed k i e = record {
  is_sink = i;
  lost = [];
  conserved = refl;
  nothing_lost = λ _. refl;
  nothing_waits = λ _. no_bytes k.buffer i.is_buffer e;
  some_wait = λ q. absurd (cc q);
}

-- Where the loop stops with the sink as it is.
stopped :
    (st : Status) (rs : List WriteResult) (k : Sink)
    → IsSink k
    → st ≢ write_stdin_ok
    → k.buffer.buflen ≢ 0
    → Keeps (stream k) [] st (record k { results = rs })
stopped st rs k i ne nz = record {
  is_sink = record { is_buffer = i.is_buffer; accounted = i.accounted };
  lost = [];
  conserved = refl;
  nothing_lost = λ _. refl;
  nothing_waits = λ e. absurd (ne e);
  some_wait = λ _. nz;
}

-- One `write` and the removal of what it took, given what the rest of the loop does.
taken :
    (rs : List WriteResult) (k : Sink) (ret : ℕ) (r : Result Buffer)
    → IsSink k
    → ret ≤ k.buffer.buflen
    → ((k' : Sink) → IsSink k' → KeepsAll (stream k') [] (flush_loop rs k'))
    → Holds k.buffer k.total_mem (drop ret k.buffer.bytes) r
    → KeepsAll (stream k) [] (
        with_buffer r (λ b total. flush_loop rs (record {
          written = k.written ++ take ret k.buffer.bytes;
          results = rs;
          buffer = b;
          total_mem = total;
        })))
taken rs k ret (ok b total) i u ih (q, b_ok, acc) =
    Keeps-shift ((k.written ++ take ret k.buffer.bytes) ++ b.bytes) [] (stream k) [] _
      (ap (λ x. x ++ [])
        (rw q (
          append_assoc k.written (take ret k.buffer.bytes) (drop ret k.buffer.bytes)
          ∙ ap (λ x. k.written ++ x) (take-append-drop ret k.buffer.bytes))))
      (ih _ (record { is_buffer = b_ok; accounted = omega (arith, i.accounted) }))
taken rs k ret exit_1 i u ih h = tt
taken rs k ret abort i u ih h = absurd h

flush_loop-Keeps :
    (rs : List WriteResult) (k : Sink) → IsSink k → KeepsAll (stream k) [] (flush_loop rs k)
unfolding flush_loop
flush_loop-Keeps [] k i = elim (Bool-cases (k.buffer.buflen == 0)) [
  | inl e ↦ rw (flush_loop, e) (flushed k i e)
  | inr e ↦ rw (flush_loop, e) (stopped write_stdin_buffered [] k i (λ q. cc q) (ground arith))
]
flush_loop-Keeps (would_block ∷ rs) k i = elim (Bool-cases (k.buffer.buflen == 0)) [
  | inl e ↦ rw (flush_loop, e) (flushed k i e)
  | inr e ↦ rw (flush_loop, e) (stopped write_stdin_buffered rs k i (λ q. cc q) (ground arith))
]
flush_loop-Keeps (fails ∷ rs) k i = elim (Bool-cases (k.buffer.buflen == 0)) [
  | inl e ↦ rw (flush_loop, e) (flushed k i e)
  | inr e ↦ rw (flush_loop, e) (stopped write_stdin_error rs k i (λ q. cc q) (ground arith))
]
flush_loop-Keeps (takes n ∷ rs) k i = elim (Bool-cases (k.buffer.buflen == 0)) [
  | inl e ↦ rw (flush_loop, e) (flushed k i e)
  | inr e ↦
      rw (flush_loop, e)
        (taken rs k (min (suc n) k.buffer.buflen) _ i (omega arith) (flush_loop-Keeps rs) (
          buffer_remove-Holds k.buffer (min (suc n) k.buffer.buflen) k.total_mem i.is_buffer
            i.accounted))
]

-- `flush_client_data` on an open descriptor, where it returns: the bytes in the pipe followed by the buffer stay the same, WRITE_STDIN_OK means that the buffer is empty and WRITE_STDIN_BUFFERED that it is not.
pub flush_client_data-Keeps :
    (k : Sink) → IsSink k → KeepsAll (stream k) [] (flush_client_data true k)
unfolding flush_client_data
flush_client_data-Keeps k i = flush_loop-Keeps k.results k i
