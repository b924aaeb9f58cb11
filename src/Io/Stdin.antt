-- ===== src/Io/Stdin.antt =====
-- libqrexec/write-stdin.c: `flush_client_data` and `write_stdin`. What `write` returns is a list of
-- results to come: once it has ended, `write` would block.
pub mod Stream
pub mod Calls
use qubes_core_qrexec.Prelude.{
  ℕ, suc, ◌+◌, ◌-◌, ◌/◌, min, Bool, false, Option, none, some, List, [], ◌∷◌, ◌++◌, ◌==◌,
  if◌then◌else◌, length, take, drop, Bytes,
}
use qubes_core_qrexec.Io.Memory.{Buffer, Result, ok, exit_1, abort, buffer_append, buffer_remove}

-- `write` takes from one byte to all of them, would block, or fails; `takes n` is at most `n + 1`.
pub data WriteResult : Type 0 where
  takes : ℕ → WriteResult
  would_block : WriteResult
  fails : WriteResult

-- The pipe, its buffer and `total_mem`; `written` is what has gone into the pipe.
pub record Sink : Type 0 where
  pub written : Bytes
  pub results : List WriteResult
  pub buffer : Buffer
  pub total_mem : ℕ

-- WRITE_STDIN_OK, WRITE_STDIN_BUFFERED, WRITE_STDIN_ERROR.
pub data Status : Type 0 where
  write_stdin_ok write_stdin_buffered write_stdin_error : Status

-- Where the process exits or aborts there is no sink.
abbrev pub StdinResult : Type 0
StdinResult = Option (Status × Sink)

abbrev pub with_buffer : Result Buffer → (Buffer → ℕ → StdinResult) → StdinResult
with_buffer r k = elim r [ ok b total ↦ k b total | exit_1 ↦ none | abort ↦ none ]

-- The loop, on the results of `write`.
unfoldable pub flush_loop : List WriteResult → Sink → StdinResult
flush_loop [] k =
    if k.buffer.buflen == 0
    then some (write_stdin_ok, k)
    else some (write_stdin_buffered, record k { results = [] })
flush_loop (would_block ∷ rs) k =
    if k.buffer.buflen == 0
    then some (write_stdin_ok, k)
    else some (write_stdin_buffered, record k { results = rs })
flush_loop (fails ∷ rs) k =
    if k.buffer.buflen == 0
    then some (write_stdin_ok, k)
    else some (write_stdin_error, record k { results = rs })
flush_loop (takes n ∷ rs) k =
    let ret = min (suc n) k.buffer.buflen in
    let rest = with_buffer (buffer_remove k.buffer ret k.total_mem) (λ b total.
      flush_loop rs (record {
        written = k.written ++ take ret k.buffer.bytes;
        results = rs;
        buffer = b;
        total_mem = total;
      })) in
    if k.buffer.buflen == 0 then some (write_stdin_ok, k) else rest

-- `fd_open` is false for a descriptor of -1.
unfoldable pub flush_client_data : Bool → Sink → StdinResult
flush_client_data fd_open k = if fd_open then flush_loop k.results k else some (write_stdin_ok, k)

abbrev pub append_rest : Bytes → Sink → StdinResult
append_rest s k =
    with_buffer (buffer_append k.buffer s k.total_mem)
      (λ b total. some (write_stdin_buffered, record k { buffer = b; total_mem = total }))

-- The loop on the data that is left.
unfoldable pub write_loop : List WriteResult → Bytes → Sink → StdinResult
write_loop rs [] k = some (write_stdin_ok, record k { results = rs })
write_loop [] (c ∷ s) k = append_rest (c ∷ s) (record k { results = [] })
write_loop (would_block ∷ rs) (c ∷ s) k = append_rest (c ∷ s) (record k { results = rs })
write_loop (fails ∷ rs) (c ∷ s) k = some (write_stdin_error, record k { results = rs })
write_loop (takes n ∷ rs) (c ∷ s) k =
    let ret = min (suc n) (length (c ∷ s)) in
    write_loop rs (drop ret (c ∷ s))
      (record k { written = k.written ++ take ret (c ∷ s); results = rs })

unfoldable pub write_stdin : Bytes → Sink → StdinResult
write_stdin s k = if k.buffer.buflen == 0 then write_loop k.results s k else append_rest s k
