-- ===== src/Io/All.antt =====
-- libqrexec/ioall.c: `write_all`, `read_all`, `qubes_read_all_to_malloc`, `qubes_sendmsg_all`. What a system call does is a list of answers to come; where it has
-- ended the call blocks.
pub mod Loops
pub mod Growth
pub mod Vectors
mod Tests
use qubes_core_qrexec.Prelude.{
  ℕ, suc, ◌+◌, ◌-◌, ◌/◌, min, Bool, true, false, not, ◌||◌, none, List, [], ◌∷◌, ◌++◌, ltb, leb,
  ◌==◌, if◌then◌else◌, length, take, drop, Bytes,
}

-- A call transfers from one byte to all that it is asked for (`moves n` is at most `n + 1`), is
-- interrupted, or fails; EAGAIN is the latter for `read_all` and `write_all`.
pub data Answer : Type 0 where
  moves : ℕ → Answer
  again : Answer
  fails : Answer

pub data Transfer : Type 0 where
  -- Returned 1, and returned 0.
  all_done : Bytes → Transfer
  failed : Bytes → Transfer
  blocked : Transfer

-- `write_all`, with what was written before.
unfoldable pub write_all : List Answer → Bytes → Bytes → Transfer
write_all rs [] written = all_done written
write_all [] (c ∷ s) written = blocked
write_all (again ∷ rs) (c ∷ s) written = write_all rs (c ∷ s) written
write_all (fails ∷ rs) (c ∷ s) written = failed written
write_all (moves n ∷ rs) (c ∷ s) written =
    let ret = min (suc n) (length (c ∷ s)) in
    write_all rs (drop ret (c ∷ s)) (written ++ take ret (c ∷ s))

-- A round of a loop: it is left with a result, or goes on.
pub data ReadStep : Type 0 where
  ends : Transfer → ReadStep
  goes : Bytes → Bytes → ReadStep

-- A `read` that returned: at the end of the file it returns 0.
unfoldable pub read_step : ℕ → ℕ → Bytes → Bytes → ReadStep
read_step n size buf input =
    let ret = min (suc n) (min (size - length buf) (length input)) in
    if ret == 0 then ends (failed buf) else goes (buf ++ take ret input) (drop ret input)

-- `read_all` of `size` bytes from a descriptor with `input` up to its end, after `buf`.
unfoldable pub read_all : List Answer → ℕ → Bytes → Bytes → Transfer
read_all [] size buf input = if leb size (length buf) then all_done buf else blocked
read_all (again ∷ rs) size buf input =
    let rest = read_all rs size buf input in if leb size (length buf) then all_done buf else rest
read_all (fails ∷ rs) size buf input = if leb size (length buf) then all_done buf else failed buf
read_all (moves n ∷ rs) size buf input =
    let rest : Transfer = elim (read_step n size buf input) [
      | ends r ↦ r
      | goes buf' input' ↦ read_all rs size buf' input'
    ] in
    if leb size (length buf) then all_done buf else rest

-- How often a call transfers something, and that none fails.
abbrev pub move_count : List Answer → ℕ
move_count [] = 0
move_count (moves _ ∷ rs) = 1 + move_count rs
move_count (again ∷ rs) = move_count rs
move_count (fails ∷ rs) = move_count rs

abbrev pub has_failure : List Answer → Bool
has_failure [] = false
has_failure (moves _ ∷ rs) = has_failure rs
has_failure (again ∷ rs) = has_failure rs
has_failure (fails ∷ rs) = true

-- The results of `qubes_read_all_to_malloc`: the bytes up to the end of the file, or NULL with the
-- reason.
pub data Slurp : Type 0 where
  whole : Bytes → Slurp
  too_many no_memory read_fails aborts waits : Slurp

pub data SlurpStep : Type 0 where
  returns : Slurp → SlurpStep
  continues : ℕ → Bytes → Bytes → SlurpStep

-- The new size of a full buffer.
abbrev pub grown : ℕ → ℕ → ℕ
grown max_bytes buf_size =
    if ltb (buf_size / 2) (max_bytes - buf_size) then buf_size + buf_size / 2 else max_bytes

unfoldable pub slurp_step : (ℕ → Bool) → ℕ → ℕ → ℕ → Bytes → Bytes → SlurpStep
slurp_step realloc max_bytes n buf_size buf input =
    let to_read = buf_size - length buf in
    let ret = min (suc n) (min to_read (length input)) in
    if ret == 0
    then returns (whole buf)
    else if not (ret == to_read)
    then continues buf_size (buf ++ take ret input) (drop ret input)
    else if leb max_bytes buf_size
    then returns too_many
    else if realloc (grown max_bytes buf_size)
    then continues (grown max_bytes buf_size) (buf ++ take ret input) (drop ret input)
    else returns no_memory

-- The loop; `realloc` says of which sizes there is a buffer.
unfoldable pub slurp_loop : (ℕ → Bool) → ℕ → List Answer → ℕ → Bytes → Bytes → Slurp
slurp_loop realloc max_bytes [] buf_size buf input = waits
slurp_loop realloc max_bytes (again ∷ rs) buf_size buf input =
    slurp_loop realloc max_bytes rs buf_size buf input
slurp_loop realloc max_bytes (fails ∷ rs) buf_size buf input = read_fails
slurp_loop realloc max_bytes (moves n ∷ rs) buf_size buf input =
    elim (slurp_step realloc max_bytes n buf_size buf input) [
      | returns r ↦ r
      | continues size buf' input' ↦ slurp_loop realloc max_bytes rs size buf' input'
    ]

unfoldable pub qubes_read_all_to_malloc : (ℕ → Bool) → List Answer → ℕ → ℕ → Bytes → Slurp
qubes_read_all_to_malloc realloc rs initial_buffer_size max_bytes input =
    if ltb 0x7fff_ffff max_bytes
    then aborts
    else if ltb initial_buffer_size 2 || ltb max_bytes initial_buffer_size
    then aborts
    else if realloc initial_buffer_size
    then slurp_loop realloc max_bytes rs initial_buffer_size [] input
    else aborts

-- The vectors that are left after `n` bytes of them were sent.
unfoldable pub advance : ℕ → List Bytes → List Bytes
advance n [] = []
advance n (v ∷ vs) = if ltb n (length v) then drop n v ∷ vs else advance (n - length v) vs

abbrev pub gather : List Bytes → Bytes
gather [] = []
gather (v ∷ vs) = v ++ gather vs

-- `qubes_sendmsg_all`, with what was sent before. A `sendmsg` of empty vectors sends 0 bytes.
unfoldable pub qubes_sendmsg_all : List Answer → List Bytes → Bytes → Transfer
qubes_sendmsg_all rs [] sent = all_done sent
qubes_sendmsg_all [] (v ∷ vs) sent = blocked
qubes_sendmsg_all (again ∷ rs) (v ∷ vs) sent = qubes_sendmsg_all rs (v ∷ vs) sent
qubes_sendmsg_all (fails ∷ rs) (v ∷ vs) sent = failed sent
qubes_sendmsg_all (moves n ∷ rs) (v ∷ vs) sent =
    let s = gather (v ∷ vs) in
    let res = min (suc n) (length s) in
    qubes_sendmsg_all rs (advance res (v ∷ vs)) (sent ++ take res s)
