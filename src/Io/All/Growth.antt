-- ===== src/Io/All/Growth.antt =====
-- libqrexec/ioall.c: what `qubes_read_all_to_malloc` returns.
use qubes_core_qrexec.Prelude.{
  ℕ, zero, suc, ◌+◌, ◌-◌, ◌≤◌, ◌<◌, min, ◌≡◌, refl, sym, ap, ◌∙◌, subst, inl, inr, Bool, true,
  false, not, ◌||◌, List, [], ◌∷◌, ◌++◌, append-nil, arith, ltb, leb, ◌==◌, if◌then◌else◌,
  Bool-cases, length, take, drop, length-append, length-take, length-drop, Bytes,
}
use qubes_core_qrexec.Io.All.{
  Answer, moves, again, fails, Slurp, whole, too_many, no_memory, SlurpStep, returns, continues,
  grown, slurp_step, slurp_loop, qubes_read_all_to_malloc, move_count, has_failure,
}
use qubes_core_qrexec.Io.All.Loops.{nil_of, append-take-drop}

-- The buffer grows, and not beyond the limit.
pub grown-bounds :
    (max_bytes buf_size : ℕ)
    → 2 ≤ buf_size
    → buf_size < max_bytes
    → (buf_size < grown max_bytes buf_size) × (grown max_bytes buf_size ≤ max_bytes)
grown-bounds max_bytes buf_size h u = (ground arith, ground arith)

-- What is returned for a file of these bytes, where no read fails and there is memory.
abbrev pub slurp_result : ℕ → Bytes → Slurp
slurp_result max_bytes s = if ltb (length s) max_bytes then whole s else too_many

module _ (realloc : ℕ → Bool) (max_bytes : ℕ)
    (enough : (size : ℕ) → size ≤ max_bytes → realloc size ≡ true) where
  whole-result :
      (buf : Bytes) → length buf < max_bytes → whole buf ≡ slurp_result max_bytes (buf ++ [])
  whole-result buf h =
      let l : ltb (length (buf ++ [])) max_bytes ≡ true = ground (arith, length-append buf []) in
      rw l (ap (λ x. whole x) (sym (append-nil buf)))

  many-result : (s : Bytes) → max_bytes ≤ length s → too_many ≡ slurp_result max_bytes s
  many-result s h = let l : ltb (length s) max_bytes ≡ false = ground arith in rw l refl

  -- The loop, with `buf` read and the buffer not full.
  loop-result :
      (rs : List Answer) (buf_size : ℕ) (buf input : Bytes)
      → has_failure rs ≡ false
      → 2 ≤ buf_size
      → buf_size ≤ max_bytes
      → length buf < buf_size
      → length input < move_count rs
      → slurp_loop realloc max_bytes rs buf_size buf input ≡ slurp_result max_bytes (buf ++ input)
  unfolding slurp_loop slurp_step
  loop-result [] buf_size buf input h two le lt e = absurd (omega (arith, e))
  loop-result (fails ∷ rs) buf_size buf input h two le lt e = absurd (cc h)
  loop-result (again ∷ rs) buf_size buf input h two le lt e =
      loop-result rs buf_size buf input h two le lt e
  loop-result (moves n ∷ rs) buf_size buf input h two le lt e =
      by_ret (min (suc n) (min (buf_size - length buf) (length input))) refl
        (λ size m. loop-result rs size (buf ++ take m input) (drop m input) h)
    where
      Ih : Type 0
      Ih =
          (size m : ℕ)
          → 2 ≤ size
          → size ≤ max_bytes
          → length (buf ++ take m input) < size
          → length (drop m input) < move_count rs
          → slurp_loop realloc max_bytes rs size (buf ++ take m input) (drop m input)
            ≡ slurp_result max_bytes ((buf ++ take m input) ++ drop m input)

      after : SlurpStep → Slurp
      after s = elim s [
        | returns r ↦ r
        | continues size buf' input' ↦ slurp_loop realloc max_bytes rs size buf' input'
      ]

      goes_on :
          (size m : ℕ)
          → suc m ≤ length input
          → length buf + suc m < size
          → size ≤ max_bytes
          → Ih
          → after (continues size (buf ++ take (suc m) input) (drop (suc m) input))
            ≡ slurp_result max_bytes (buf ++ input)
      goes_on size m k b c ih =
          let t = length-take (suc m) input in
          ih size (suc m) (omega arith) c (omega (arith, length-append buf (take (suc m) input), t))
            (omega (arith, length-drop (suc m) input, e))
          ∙ ap (λ x. slurp_result max_bytes x) (append-take-drop (suc m) buf input)

      full :
          (m : ℕ)
          → length buf + suc m ≡ buf_size
          → suc m ≤ length input
          → Ih
          → after (
              if leb max_bytes buf_size
              then returns too_many
              else if realloc (grown max_bytes buf_size)
              then continues
                  (grown max_bytes buf_size)
                  (buf ++ take (suc m) input)
                  (drop (suc m) input)
              else returns no_memory)
            ≡ slurp_result max_bytes (buf ++ input)
      full m q k ih = elim (Bool-cases (leb max_bytes buf_size)) [
        | inl z ↦ rw z (many-result (buf ++ input) (ground (arith, length-append buf input)))
        | inr z ↦
            let g = grown-bounds max_bytes buf_size two (ground arith) in
            rw (z, enough (grown max_bytes buf_size) g.1)
              (goes_on (grown max_bytes buf_size) m k (omega (arith, g.0, q)) g.1 ih)
      ]

      by_ret :
          (ret : ℕ)
          → min (suc n) (min (buf_size - length buf) (length input)) ≡ ret
          → Ih
          → after (
              if ret == 0
              then returns (whole buf)
              else if not (ret == buf_size - length buf)
              then continues buf_size (buf ++ take ret input) (drop ret input)
              else if leb max_bytes buf_size
              then returns too_many
              else if realloc (grown max_bytes buf_size)
              then continues (grown max_bytes buf_size) (buf ++ take ret input) (drop ret input)
              else returns no_memory)
            ≡ slurp_result max_bytes (buf ++ input)
      by_ret zero q ih =
          let none_left : input ≡ [] = nil_of input (omega (arith, q)) in
          subst (λ i. whole buf ≡ slurp_result max_bytes (buf ++ i)) (sym none_left)
            (whole-result buf (omega arith))
      by_ret (suc m) q ih =
          let nz : (suc m == 0) ≡ false = ground arith in
          elim (Bool-cases (suc m == buf_size - length buf)) [
            | inl z ↦ rw (nz, z) (full m (ground arith) (omega (arith, q)) ih)
            | inr z ↦ rw (nz, z) (goes_on buf_size m (omega (arith, q)) (ground (arith, q)) le ih)
          ]

-- With an initial size from 2 to the limit, which is an `int`, where no read fails, the reads are enough to come to the end of the file, and there is memory for buffers up to the limit: `qubes_read_all_to_malloc` returns all bytes of the file if they are fewer than the limit, so that their NUL fits as well, and else fails with "too many bytes"; it never cuts them off.
pub read_all_to_malloc-all :
    (realloc : ℕ → Bool) (rs : List Answer) (initial_buffer_size max_bytes : ℕ) (input : Bytes)
    → ((size : ℕ) → size ≤ max_bytes → realloc size ≡ true)
    → has_failure rs ≡ false
    → length input < move_count rs
    → 2 ≤ initial_buffer_size
    → initial_buffer_size ≤ max_bytes
    → max_bytes ≤ 0x7fff_ffff
    → qubes_read_all_to_malloc realloc rs initial_buffer_size max_bytes input
      ≡ slurp_result max_bytes input
unfolding qubes_read_all_to_malloc
read_all_to_malloc-all realloc rs initial_buffer_size max_bytes input enough h e two le int =
    let a : ltb 0x7fff_ffff max_bytes ≡ false = ground arith in
    let b : (ltb initial_buffer_size 2 || ltb max_bytes initial_buffer_size) ≡ false =
      ground arith in
    rw (a, b, enough initial_buffer_size le)
      (loop-result realloc max_bytes enough rs initial_buffer_size [] input h two le (omega arith)
        e)
