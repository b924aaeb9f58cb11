-- ===== src/Prelude/Fields.antt =====
-- C strings in fields of a fixed size, and blocks of bytes one after the other.
use Prim.Native.Nat.{ℕ, zero, suc, ◌+◌, ◌≤◌, ◌<◌}
use mathlib.Core.Path.{◌≡◌, refl, ap, ◌∙◌, subst}
use mathlib.Core.Bool.{false}
use mathlib.Core.List.{[], ◌∷◌, ◌++◌}
use native.Mathlib.Omega.{arith}
use qubes_core_qrexec.Prelude.Tests.{◌==◌}
use qubes_core_qrexec.Prelude.Lists.{length, take, drop, replicate, take-append, drop-append}
use qubes_core_qrexec.Prelude.CStrings.{Bytes, contains, c_string}

pub c_string-same : (s : Bytes) → contains 0 s ≡ false → c_string s ≡ s
c_string-same [] h = refl
c_string-same (c ∷ s) h =
    let z : (c == 0) ≡ false = ground arith in
    rw z (ap (λ x. c ∷ x) (c_string-same s (ground arith)))

-- A string that is padded with NULs, of which the first `n` bytes are read.
pub c_string-padded :
    (n k : ℕ) (s : Bytes)
    → contains 0 s ≡ false
    → length s ≤ n
    → c_string (take n (s ++ replicate k 0)) ≡ s
c_string-padded zero k [] h l = refl
c_string-padded (suc n) zero [] h l = refl
c_string-padded (suc n) (suc k) [] h l = refl
c_string-padded zero k (c ∷ s) h l = absurd (omega (arith, l))
c_string-padded (suc n) k (c ∷ s) h l =
    let z : (c == 0) ≡ false = ground arith in
    rw z (ap (λ x. c ∷ x) (c_string-padded n k s (ground arith) (omega (arith, l))))

-- A string that ends within the first `n` bytes.
pub c_string-ended :
    (n : ℕ) (s rest : Bytes)
    → contains 0 s ≡ false
    → length s < n
    → c_string (take n (s ++ (0 ∷ rest))) ≡ s
c_string-ended zero s rest h l = absurd (omega (arith, l))
c_string-ended (suc n) [] rest h l = refl
c_string-ended (suc n) (c ∷ s) rest h l =
    let z : (c == 0) ≡ false = ground arith in
    rw z (ap (λ x. c ∷ x) (c_string-ended n s rest (ground arith) (omega (arith, l))))

pub take-block : (n : ℕ) (a b : Bytes) → length a ≡ n → take n (a ++ b) ≡ a
take-block n a b e = subst (λ k. take k (a ++ b) ≡ a) e (take-append a b)

pub drop-block : (n : ℕ) (a b : Bytes) → length a ≡ n → drop n (a ++ b) ≡ b
drop-block n a b e = subst (λ k. drop k (a ++ b) ≡ b) e (drop-append a b)

-- Past the first block.
pub drop-past : (k n : ℕ) (a b : Bytes) → length a ≡ n → drop (n + k) (a ++ b) ≡ drop k b
drop-past k n [] b e = let e2 : n + k ≡ k = omega (arith, e) in ap (λ m. drop m b) e2
drop-past k zero (x ∷ a) b e = absurd (omega (arith, e))
drop-past k (suc n) (x ∷ a) b e =
    let e2 : suc n + k ≡ suc (n + k) = omega arith in
    ap (λ m. drop m (x ∷ (a ++ b))) e2 ∙ drop-past k n a b (omega (arith, e))

-- In the first block.
pub drop-within : (n : ℕ) (a b : Bytes) → n ≤ length a → drop n (a ++ b) ≡ drop n a ++ b
drop-within zero a b h = refl
drop-within (suc n) [] b h = absurd (omega (arith, h))
drop-within (suc n) (x ∷ a) b h = drop-within n a b (omega (arith, h))
