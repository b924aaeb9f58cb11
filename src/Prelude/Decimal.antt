-- ===== src/Prelude/Decimal.antt =====
-- Decimal numbers as text, and how the C library reads them.
use Prim.Native.Nat.{ℕ, zero, suc, ◌+◌, ◌-◌, ◌*◌, ◌/◌, ◌%◌, ◌≤◌, ◌<◌}
use mathlib.Core.Path.{◌≡◌, refl, ◌∙◌}
use mathlib.Core.Logic.{◌≢◌, inl, inr}
use mathlib.Core.Bool.{Bool, true, false}
use mathlib.Core.List.{[], ◌∷◌}
use native.Mathlib.Omega.{arith}
use qubes_core_qrexec.Prelude.Tests.{◌==◌, if◌then◌else◌, Bool-cases}
use qubes_core_qrexec.Prelude.CStrings.{Bytes, within, contains}
use qubes_core_qrexec.Prelude.Lists.{length}

abbrev pub is_digit : ℕ → Bool
is_digit c = within b'0' b'9' c

-- The digits that the C library reads, on top of the number read so far, and what follows them.
unfoldable pub read_digits : ℕ → Bytes → ℕ × Bytes
read_digits n [] = (n, [])
read_digits n (c ∷ s) =
    let rest = read_digits (n * 10 + (c - b'0')) s in if is_digit c then rest else (n, c ∷ s)

-- The decimal digits of a number, most significant first, in front of `s`; the fuel bounds the number.
unfoldable pub digits : ℕ → ℕ → Bytes → Bytes
digits zero n s = s
digits (suc fuel) n s =
    let more = digits fuel (n / 10) ((n % 10 + b'0') ∷ s) in if n == 0 then s else more

unfoldable pub decimal : ℕ → Bytes → Bytes
unfolding digits
decimal n s = if n == 0 then b'0' ∷ s else digits n n s

pub read_digits-digits :
    (fuel n : ℕ) (s : Bytes) → n ≤ fuel → read_digits 0 (digits fuel n s) ≡ read_digits n s
unfolding digits read_digits
read_digits-digits zero n s h = ground arith
read_digits-digits (suc fuel) n s h = elim (Bool-cases (n == 0)) [
  | inl z ↦ ground arith
  | inr z ↦
      let ih = read_digits-digits fuel (n / 10) ((n % 10 + b'0') ∷ s) (ground arith) in ground arith
]

pub digits_zero : (fuel : ℕ) (s : Bytes) → digits fuel 0 s ≡ s
unfolding digits
digits_zero zero s = refl
digits_zero (suc fuel) s = refl

-- The first digit of a number that is not 0.
pub digits-first :
    (fuel n : ℕ) (s : Bytes)
    → n ≤ fuel
    → n ≢ 0
    → (c : ℕ) × (s' : Bytes) × (digits fuel n s ≡ c ∷ s') × (within b'1' b'9' c ≡ true)
unfolding digits
digits-first zero n s h z = absurd (z (omega arith))
digits-first (suc fuel) n s h z = elim (Bool-cases (n / 10 == 0)) [
  | inl q ↦
      let last : digits fuel (n / 10) ((n % 10 + b'0') ∷ s) ≡ (n % 10 + b'0') ∷ s =
        (let e : n / 10 ≡ 0 = ground arith in rw e (digits_zero fuel ((n % 10 + b'0') ∷ s))) in
      (n % 10 + b'0', s, ground arith, ground arith)
  | inr q ↦
      let (c, s', e, w) =
        digits-first fuel (n / 10) ((n % 10 + b'0') ∷ s) (ground arith) (ground arith) in
      (c, s', ground arith, w)
]

digits-contains : (fuel n : ℕ) (s : Bytes) → contains 0 (digits fuel n s) ≡ contains 0 s
unfolding digits
digits-contains zero n s = refl
digits-contains (suc fuel) n s = elim (Bool-cases (n == 0)) [
  | inl z ↦ rw (z, digits) refl
  | inr z ↦
      rw (z, digits)
        (digits-contains fuel (n / 10) ((n % 10 + b'0') ∷ s)
          ∙ (let e : ((n % 10 + b'0') == 0) ≡ false = ground arith in rw e refl))
]

-- The text of a number holds no NUL.
pub decimal-contains : (n : ℕ) (s : Bytes) → contains 0 (decimal n s) ≡ contains 0 s
unfolding decimal
decimal-contains n s = elim (Bool-cases (n == 0)) [
  | inl z ↦ rw (z, decimal) refl
  | inr z ↦ rw (z, decimal) (digits-contains n n s)
]

abbrev power_of_ten : ℕ → ℕ
power_of_ten zero = 1
power_of_ten (suc k) = 10 * power_of_ten k

digits-length :
    (k fuel n : ℕ) (s : Bytes) → n < power_of_ten k → length (digits fuel n s) ≤ k + length s
unfolding digits
digits-length k zero n s h = omega arith
digits-length zero (suc fuel) n s h =
    let z : (n == 0) ≡ true = ground arith in rw (z, digits) (omega arith)
digits-length (suc k) (suc fuel) n s h = elim (Bool-cases (n == 0)) [
  | inl z ↦ rw (z, digits) (omega arith)
  | inr z ↦
      rw (z, digits)
        (omega (arith, digits-length k fuel (n / 10) ((n % 10 + b'0') ∷ s) (omega (arith, h))))
]

-- An `int` has ten digits at most.
pub decimal-length : (n : ℕ) → n < 0x8000_0000 → length (decimal n []) ≤ 10
unfolding decimal
decimal-length n h = elim (Bool-cases (n == 0)) [
  | inl z ↦ rw (z, decimal) (omega arith)
  | inr z ↦ rw (z, decimal) (omega (arith, digits-length 10 n n [] (omega (arith, h))))
]
