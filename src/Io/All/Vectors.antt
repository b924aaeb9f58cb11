-- ===== src/Io/All/Vectors.antt =====
-- libqrexec/ioall.c: `qubes_sendmsg_all` sends the vectors' bytes.
use qubes_core_qrexec.Prelude.{
  ℕ, zero, suc, ◌-◌, ◌≤◌, min, ◌≡◌, refl, sym, ap, ◌∙◌, subst, inl, inr, List, [], ◌∷◌, ◌++◌,
  append_assoc, append-nil, arith, ltb, Bool-cases, length, take, drop, take-append-drop, drop_all,
  Bytes,
}
use qubes_core_qrexec.Io.All.{
  Answer, moves, again, fails, Transfer, all_done, failed, blocked, advance, gather,
  qubes_sendmsg_all,
}

-- What is left after a `sendmsg` are the bytes that it did not take.
pub advance-gather : (n : ℕ) (vs : List Bytes) → gather (advance n vs) ≡ drop n (gather vs)
unfolding advance
advance-gather n [] = sym (drop_all n [] (omega arith))
advance-gather n (v ∷ vs) = elim (Bool-cases (ltb n (length v))) [
  | inl e ↦ rw (e, advance) (sym (drop-short n v (gather vs) (ground arith)))
  | inr e ↦
      rw (e, advance)
        (advance-gather (n - length v) vs ∙ sym (drop-long n v (gather vs) (ground arith)))
]
  where
    drop-short : (n : ℕ) (a b : Bytes) → n ≤ length a → drop n (a ++ b) ≡ drop n a ++ b
    drop-short zero a b h = refl
    drop-short (suc n) [] b h = absurd (omega (arith, h))
    drop-short (suc n) (x ∷ a) b h = drop-short n a b (omega (arith, h))

    drop-long : (n : ℕ) (a b : Bytes) → length a ≤ n → drop n (a ++ b) ≡ drop (n - length a) b
    drop-long n [] b h = ap (λ k. drop k b) (omega arith)
    drop-long zero (x ∷ a) b h = absurd (omega (arith, h))
    drop-long (suc n) (x ∷ a) b h =
        drop-long n a b (omega (arith, h)) ∙ ap (λ k. drop k b) (omega arith)

-- What `qubes_sendmsg_all` has sent at its return: all of the bytes, or the first of them.
abbrev pub SendsAll : Bytes → Transfer → Type 0
SendsAll s (all_done sent) = sent ≡ s
SendsAll s (failed sent) = (left : Bytes) × (sent ++ left ≡ s)
SendsAll s blocked = Unit

-- Whatever the calls of `sendmsg` take of the vectors, they send the vectors' bytes in order, each once: all of them where `qubes_sendmsg_all` succeeds, and the first of them where it fails.
pub sendmsg_all-SendsAll :
    (rs : List Answer) (vs : List Bytes) (sent : Bytes)
    → SendsAll (sent ++ gather vs) (qubes_sendmsg_all rs vs sent)
unfolding qubes_sendmsg_all
sendmsg_all-SendsAll [] [] sent = sym (append-nil sent)
sendmsg_all-SendsAll (r ∷ rs) [] sent = sym (append-nil sent)
sendmsg_all-SendsAll [] (v ∷ vs) sent = tt
sendmsg_all-SendsAll (again ∷ rs) (v ∷ vs) sent = sendmsg_all-SendsAll rs (v ∷ vs) sent
sendmsg_all-SendsAll (fails ∷ rs) (v ∷ vs) sent = (gather (v ∷ vs), refl)
sendmsg_all-SendsAll (moves n ∷ rs) (v ∷ vs) sent =
    let s = gather (v ∷ vs) in
    let res = min (suc n) (length s) in
    subst (λ x. SendsAll x (qubes_sendmsg_all rs (advance res (v ∷ vs)) (sent ++ take res s)))
      (append_assoc sent (take res s) (gather (advance res (v ∷ vs)))
        ∙ ap (λ x. sent ++ x)
            (ap (λ x. take res s ++ x) (advance-gather res (v ∷ vs)) ∙ take-append-drop res s))
      (sendmsg_all-SendsAll rs (advance res (v ∷ vs)) (sent ++ take res s))
