-- ===== src/Io/All/Loops.antt =====
-- libqrexec/ioall.c: `write_all` and `read_all` transfer all, or report an error.
use qubes_core_qrexec.Prelude.{
  ℕ, zero, suc, ◌+◌, ◌-◌, ◌≤◌, ◌<◌, min, ◌≡◌, refl, sym, ap, ◌∙◌, subst, inl, inr, true, false,
  List, [], ◌∷◌, ◌++◌, append_assoc, append-nil, arith, leb, ◌==◌, if◌then◌else◌, Bool-cases,
  length, take, drop, length-append, take-append-drop, length-take, length-drop, take-append, Bytes,
}
use qubes_core_qrexec.Io.All.{
  Answer, moves, again, fails, Transfer, all_done, failed, write_all, ends, goes, read_step,
  read_all, move_count, has_failure,
}

pub nil_of : (s : Bytes) → length s ≡ 0 → s ≡ []
nil_of [] z = refl
nil_of (c ∷ s) z = absurd (omega (arith, z))

-- With enough calls that transfer something, and none that fails, everything is written, whatever the calls take.
pub write_all-writes :
    (rs : List Answer) (s written : Bytes)
    → has_failure rs ≡ false
    → length s ≤ move_count rs
    → write_all rs s written ≡ all_done (written ++ s)
unfolding write_all
write_all-writes [] [] written h e = ap (λ x. all_done x) (sym (append-nil written))
write_all-writes (r ∷ rs) [] written h e = ap (λ x. all_done x) (sym (append-nil written))
write_all-writes [] (c ∷ s) written h e = absurd (omega (arith, e))
write_all-writes (again ∷ rs) (c ∷ s) written h e = write_all-writes rs (c ∷ s) written h e
write_all-writes (fails ∷ rs) (c ∷ s) written h e = absurd (cc h)
write_all-writes (moves n ∷ rs) (c ∷ s) written h e =
    let ret = min (suc n) (length (c ∷ s)) in
    write_all-writes rs (drop ret (c ∷ s)) (written ++ take ret (c ∷ s)) h
      (omega (arith, length-drop ret (c ∷ s), e))
    ∙ ap (λ x. all_done x)
        (append_assoc written (take ret (c ∷ s)) (drop ret (c ∷ s))
          ∙ ap (λ x. written ++ x) (take-append-drop ret (c ∷ s)))

-- What `read_all` returns where `size` bytes are wanted of `s`.
abbrev pub read_result : ℕ → Bytes → Transfer
read_result size s = if leb size (length s) then all_done (take size s) else failed s

full-read_result :
    (size : ℕ) (buf input : Bytes)
    → length buf ≡ size
    → all_done buf ≡ read_result size (buf ++ input)
full-read_result size buf input e =
    let l : leb size (length (buf ++ input)) ≡ true = ground (arith, length-append buf input) in
    rw l
      (ap (λ x. all_done x) (sym (ap (λ n. take n (buf ++ input)) (sym e) ∙ take-append buf input)))

short-read_result :
    (size : ℕ) (buf : Bytes) → length buf < size → failed buf ≡ read_result size (buf ++ [])
short-read_result size buf h =
    let l : leb size (length (buf ++ [])) ≡ false = ground (arith, length-append buf []) in
    rw l (ap (λ x. failed x) (sym (append-nil buf)))

-- A test that the buffer is not full yet.
unless_full :
    (size : ℕ) (buf input : Bytes) (r : Transfer)
    → length buf ≤ size
    → (length buf < size → r ≡ read_result size (buf ++ input))
    → (if leb size (length buf) then all_done buf else r) ≡ read_result size (buf ++ input)
unless_full size buf input r b h = elim (Bool-cases (leb size (length buf))) [
  | inl e ↦ rw e (full-read_result size buf input (ground arith))
  | inr e ↦ rw e (h (ground arith))
]

pub append-take-drop :
    (n : ℕ) (buf input : Bytes) → (buf ++ take n input) ++ drop n input ≡ buf ++ input
append-take-drop n buf input =
    append_assoc buf (take n input) (drop n input) ∙ ap (λ x. buf ++ x) (take-append-drop n input)

-- The loop, after `buf`, of at most `size` bytes.
read_loop :
    (rs : List Answer) (size : ℕ) (buf input : Bytes)
    → has_failure rs ≡ false
    → length buf ≤ size
    → size < length buf + move_count rs
    → read_all rs size buf input ≡ read_result size (buf ++ input)
unfolding read_all read_step
read_loop [] size buf input h b e = absurd (omega arith)
read_loop (fails ∷ rs) size buf input h b e = absurd (cc h)
read_loop (again ∷ rs) size buf input h b e =
    unless_full size buf input _ b (λ _. read_loop rs size buf input h b e)
read_loop (moves n ∷ rs) size buf input h b e = unless_full size buf input _ b (λ u.
    by_ret u (min (suc n) (min (size - length buf) (length input))) refl
      (λ ret k1 k2 k3. read_loop rs size (buf ++ take ret input) (drop ret input) h k2 k3))
  where
    by_ret :
        length buf < size
        → (ret : ℕ) → min (suc n) (min (size - length buf) (length input)) ≡ ret
        → ((m : ℕ)
            → 0 < m
            → length (buf ++ take m input) ≤ size
            → size < length (buf ++ take m input) + move_count rs
            → read_all rs size (buf ++ take m input) (drop m input)
              ≡ read_result size ((buf ++ take m input) ++ drop m input))
        → (let r : Transfer =
              elim (if ret == 0
                then ends (failed buf)
                else goes (buf ++ take ret input) (drop ret input)) [
                  | ends r ↦ r
                  | goes buf' input' ↦ read_all rs size buf' input'
                ] in
            r ≡ read_result size (buf ++ input))
    by_ret u zero q ih =
        let none_left : input ≡ [] = nil_of input (omega (arith, q)) in
        subst (λ i. failed buf ≡ read_result size (buf ++ i)) (sym none_left)
          (short-read_result size buf u)
    by_ret u (suc m) q ih =
        let nz : (suc m == 0) ≡ false = ground arith in
        let t : length (take (suc m) input) ≡ suc m = omega (arith, length-take (suc m) input, q) in
        rw nz (
          ih (suc m) (omega arith) (omega (arith, length-append buf (take (suc m) input), t, q))
            (omega (arith, length-append buf (take (suc m) input), t, q, e))
          ∙ ap (λ x. read_result size x) (append-take-drop (suc m) buf input))

-- With enough calls that transfer something, and none that fails, `read_all` returns the first `size` bytes of the input, and fails exactly where the input ends before.
pub read_all-reads :
    (rs : List Answer) (size : ℕ) (input : Bytes)
    → has_failure rs ≡ false
    → size < move_count rs
    → read_all rs size [] input ≡ read_result size input
read_all-reads rs size input h e = read_loop rs size [] input h (omega arith) (omega arith)
