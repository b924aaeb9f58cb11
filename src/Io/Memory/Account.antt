-- ===== src/Io/Memory/Account.antt =====
-- The account that libqrexec/buffer.c keeps of its memory.
use qubes_core_qrexec.Prelude.{
  ℕ, ◌+◌, ◌-◌, ◌≤◌, ◌≡◌, refl, sym, ap, ◌∙◌, ◌≢◌, ◌⊎◌, inl, inr, true, false, ◌||◌, [], ◌∷◌, ◌++◌,
  append-nil, arith, ltb, ◌==◌, Bool-cases, length, drop, length-append, length-drop, Bytes,
}
use qubes_core_qrexec.Io.Memory.{
  buffer_limit, Buffer, Result, ok, exit_1, abort, limited_malloc, limited_free, empty_buffer,
  buffer_free, buffer_append, buffer_remove,
}

-- A buffer whose length is that of its data.
pub record IsBuffer (b : Buffer) : Type 0 where
  pub size : b.buflen ≡ length b.bytes

-- What an operation does to a buffer: it exits, or the buffer holds `s` and `total_mem` has changed by as much as its length.
abbrev pub Holds : Buffer → ℕ → Bytes → Result Buffer → Type 0
Holds b total s (ok b' total') =
    (b'.bytes ≡ s) × IsBuffer b' × (total' + b.buflen ≡ total + b'.buflen)
Holds b total s exit_1 = Unit
Holds b total s abort = ⊥

limited_malloc-cases :
    (len total : ℕ)
    → (limited_malloc len total ≡ exit_1) ⊎ (limited_malloc len total ≡ ok tt (len + total))
unfolding limited_malloc
limited_malloc-cases len total = ground arith

buffer_free-ok :
    (b : Buffer) (total : ℕ)
    → b.buflen ≤ total
    → buffer_free b total ≡ ok empty_buffer (total - b.buflen)
unfolding buffer_free limited_free
buffer_free-ok b total h = elim (Bool-cases (b.buflen == 0)) [
  | inl e ↦ ground arith
  | inr e ↦
      let u : ltb total b.buflen ≡ false = ground arith in rw (buffer_free, limited_free, e, u) refl
]

pub none_left : (s : Bytes) → (length s == 0) ≡ true → s ≡ []
none_left [] h = refl
none_left (c ∷ s) h = absurd (ground arith)

-- `buffer_append` never aborts: it exits, or the buffer then holds its bytes followed by the new ones, and `total_mem` has grown by their number.
pub buffer_append-Holds :
    (b : Buffer) (s : Bytes) (total : ℕ)
    → IsBuffer b
    → b.buflen ≤ total
    → Holds b total (b.bytes ++ s) (buffer_append b s total)
unfolding buffer_append
buffer_append-Holds b s total i h =
    elim (Bool-cases (ltb buffer_limit b.buflen || ltb buffer_limit (length s))) [
      | inl e ↦ rw (buffer_append, e) tt
      | inr e ↦ elim (Bool-cases (length s == 0)) [
        | inl z ↦
            rw (buffer_append, e, z)
              (sym (ap (λ x. b.bytes ++ x) (none_left s z) ∙ append-nil b.bytes), i, refl)
        | inr z ↦ elim (limited_malloc-cases (length s + b.buflen) total) [
          | inl m ↦ rw (buffer_append, e, z, m) tt
          | inr m ↦
              rw
                (
                  buffer_append,
                  e,
                  z,
                  m,
                  buffer_free-ok b (length s + b.buflen + total) (omega arith),
                )
                (
                  refl,
                  record { size = omega (arith, length-append b.bytes s, i.size) },
                  omega arith,
                )
        ]
      ]
    ]

-- `buffer_remove` never aborts: it exits, or the buffer then holds what follows the first `len` of its bytes, and `total_mem` has shrunk by `len`.
pub buffer_remove-Holds :
    (b : Buffer) (len total : ℕ)
    → IsBuffer b
    → b.buflen ≤ total
    → Holds b total (drop len b.bytes) (buffer_remove b len total)
unfolding buffer_remove
buffer_remove-Holds b len total i h =
    let left : (b.buflen - len) ≡ length (drop len b.bytes) =
      omega (arith, length-drop len b.bytes, i.size) in
    elim (Bool-cases (ltb b.buflen len)) [
      | inl e ↦ rw (buffer_remove, e) tt
      | inr e ↦ elim (Bool-cases (b.buflen - len == 0)) [
        | inl z ↦
            rw (buffer_remove, e, z, buffer_free-ok b total h)
              (refl, record { size = left }, ground arith)
        | inr z ↦ elim (limited_malloc-cases (b.buflen - len) total) [
          | inl m ↦ rw (buffer_remove, e, z, m) tt
          | inr m ↦
              rw (buffer_remove, e, z, m, buffer_free-ok b (b.buflen - len + total) (omega arith))
                (refl, record { size = left }, omega arith)
        ]
      ]
    ]

-- `buffer_append` succeeds when the old and the new area fit under the limit together.
pub buffer_append-ok :
    (b : Buffer) (s : Bytes) (total : ℕ)
    → b.buflen ≤ total
    → length s ≢ 0
    → length s + b.buflen + total ≤ buffer_limit
    → buffer_append b s total
      ≡ ok (record { buflen = length s + b.buflen; bytes = b.bytes ++ s }) (total + length s)
unfolding buffer_append limited_malloc
buffer_append-ok b s total h nz u =
    let e : (ltb buffer_limit b.buflen || ltb buffer_limit (length s)) ≡ false = ground arith in
    let z : (length s == 0) ≡ false = ground arith in
    let m : limited_malloc (length s + b.buflen) total ≡ ok tt (length s + b.buflen + total) =
      ground arith in
    let f = buffer_free-ok b (length s + b.buflen + total) (omega arith) in
    let q : length s + b.buflen + total - b.buflen ≡ total + length s = omega arith in
    rw (buffer_append, e, z, m, f, q) refl
