-- ===== src/Io/Stdin/Calls.antt =====
-- A sequence of calls of `write_stdin` and `flush_client_data`, as `handle_remote_data_v2` and its
-- callers make them, against a first-in first-out stream.
use qubes_core_qrexec.Prelude.{
  ◌≡◌, sym, ap, ◌∙◌, ◌≢◌, true, Option, none, some, List, [], ◌∷◌, ◌++◌, append_assoc, append-nil,
  Bytes,
}
use qubes_core_qrexec.Io.Stdin.{
  Sink, Status, write_stdin_ok, write_stdin_buffered, write_stdin_error, StdinResult,
  flush_client_data, write_stdin,
}
use qubes_core_qrexec.Io.Stdin.Stream.{
  stream, IsSink, Keeps, KeepsAll, write_stdin-Keeps, flush_client_data-Keeps,
}

pub data Call : Type 0 where
  give : Bytes → Call
  flush : Call

abbrev pub call : Call → Sink → StdinResult
call (give s) k = write_stdin s k
call flush k = flush_client_data true k

abbrev pub given : Call → Bytes
given (give s) = s
given flush = []

abbrev pub all_given : List Call → Bytes
all_given [] = []
all_given (c ∷ cs) = given c ++ all_given cs

-- `none` once a call exits or reports an error.
unfoldable pub calls : List Call → Sink → Option Sink
calls [] k = some k
calls (c ∷ cs) k = elim (call c k) [
  | none ↦ none
  | some (write_stdin_ok, k') ↦ calls cs k'
  | some (write_stdin_buffered, k') ↦ calls cs k'
  | some (write_stdin_error, k') ↦ none
]

call-Keeps : (c : Call) (k : Sink) → IsSink k → KeepsAll (stream k) (given c) (call c k)
call-Keeps (give s) k i = write_stdin-Keeps s k i
call-Keeps flush k i = flush_client_data-Keeps k i

-- After any sequence of calls without an error, the bytes in the pipe followed by those in the buffer are the bytes there were before followed by all that was given, in order: none is lost, repeated or overtaken.
pub calls-fifo :
    (cs : List Call) (k k' : Sink)
    → IsSink k
    → calls cs k ≡ some k'
    → (stream k' ≡ stream k ++ all_given cs) × IsSink k'
unfolding calls
calls-fifo [] k k' i h = let q : k ≡ k' = cc h in rw (← q) (sym (append-nil (stream k)), i)
calls-fifo (c ∷ cs) k k' i h = by_result (λ k1. calls-fifo cs k1 k') (call c k) (call-Keeps c k i) h
  where
    grown :
        ((k1 : Sink)
          → IsSink k1
          → calls cs k1 ≡ some k'
          → (stream k' ≡ stream k1 ++ all_given cs) × IsSink k')
        → (st : Status) (k1 : Sink) → Keeps (stream k) (given c) st k1
        → st ≢ write_stdin_error
        → calls cs k1 ≡ some k'
        → (stream k' ≡ stream k ++ (given c ++ all_given cs)) × IsSink k'
    grown ih st k1 kp ne h1 =
        let (q, i') = ih k1 kp.is_sink h1 in
        (
          q
              ∙ (ap (λ x. x ++ all_given cs)
                    (sym (append-nil (stream k1))
                      ∙ (ap (λ x. stream k1 ++ x) (sym (kp.nothing_lost ne)) ∙ kp.conserved))
                  ∙ append_assoc (stream k) (given c) (all_given cs)),
          i',
        )

    by_result :
        ((k1 : Sink)
          → IsSink k1
          → calls cs k1 ≡ some k'
          → (stream k' ≡ stream k1 ++ all_given cs) × IsSink k')
        → (r : StdinResult) → KeepsAll (stream k) (given c) r
        → (let o : Option Sink = elim r [
          | none ↦ none
          | some (write_stdin_ok, k1) ↦ calls cs k1
          | some (write_stdin_buffered, k1) ↦ calls cs k1
          | some (write_stdin_error, k1) ↦ none
        ] in
            o ≡ some k')
        → (stream k' ≡ stream k ++ (given c ++ all_given cs)) × IsSink k'
    by_result ih none kp h1 = absurd (cc h1)
    by_result ih (some (write_stdin_ok, k1)) kp h1 = grown ih write_stdin_ok k1 kp (λ q. cc q) h1
    by_result ih (some (write_stdin_buffered, k1)) kp h1 =
        grown ih write_stdin_buffered k1 kp (λ q. cc q) h1
    by_result ih (some (write_stdin_error, k1)) kp h1 = absurd (cc h1)
