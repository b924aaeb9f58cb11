-- ===== src/Io/Memory.antt =====
-- libqrexec/buffer.c: the buffers and the account of their memory. That `malloc` succeeds is taken
-- for granted. An `int` that the code keeps at 0 or above is a number.
pub mod Account
use qubes_core_qrexec.Prelude.{
  ℕ, ◌+◌, ◌-◌, ◌/◌, ◌||◌, [], ◌++◌, ltb, ◌==◌, if◌then◌else◌, length, drop, Bytes,
}

abbrev pub buffer_limit : ℕ
buffer_limit = 50000000

abbrev int_max : ℕ
int_max = 0x7fff_ffff

-- `struct buffer`; `data`, here `bytes`, holds `buflen` bytes.
pub record Buffer : Type 0 where
  pub buflen : ℕ
  pub bytes : Bytes

-- A function returns with a value and `total_mem`, or the process exits or aborts.
pub data Result (A : Type 0) : Type 0 where
  ok : A → ℕ → Result A
  exit_1 : Result A
  abort : Result A

-- The new `total_mem`.
unfoldable pub limited_malloc : ℕ → ℕ → Result (Unit {0})
limited_malloc len total =
    if ltb int_max (len + total) || ltb buffer_limit (len + total) || len == 0
    then exit_1
    else ok tt (len + total)

unfoldable pub limited_free : ℕ → ℕ → Result (Unit {0})
limited_free len total = if ltb total len then abort else ok tt (total - len)

abbrev pub empty_buffer : Buffer
empty_buffer = record { buflen = 0; bytes = [] }

abbrev pub then_do : {A B : Type 0} → Result A → (A → ℕ → Result B) → Result B
then_do r k = elim r [ ok a total ↦ k a total | exit_1 ↦ exit_1 | abort ↦ abort ]

unfoldable pub buffer_free : Buffer → ℕ → Result Buffer
buffer_free b total =
    if b.buflen == 0
    then ok empty_buffer total
    else then_do (limited_free b.buflen total) (λ _ total'. ok empty_buffer total')

-- The new area is allocated before the old one is freed.
unfoldable pub buffer_append : Buffer → Bytes → ℕ → Result Buffer
buffer_append b s total =
    let len = length s in
    if ltb buffer_limit b.buflen || ltb buffer_limit len
    then exit_1
    else if len == 0
    then ok b total
    else then_do (limited_malloc (len + b.buflen) total) (λ _ total1.
      then_do (buffer_free b total1)
        (λ _ total2. ok (record { buflen = len + b.buflen; bytes = b.bytes ++ s }) total2))

unfoldable pub buffer_remove : Buffer → ℕ → ℕ → Result Buffer
buffer_remove b len total =
    let newsize = b.buflen - len in
    let allocated = if newsize == 0 then ok tt total else limited_malloc newsize total in
    if ltb b.buflen len
    then exit_1
    else then_do allocated (λ _ total1.
      then_do (buffer_free b total1)
        (λ _ total2. ok (record { buflen = newsize; bytes = drop len b.bytes }) total2))
