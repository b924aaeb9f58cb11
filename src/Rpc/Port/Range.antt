-- ===== src/Rpc/Port/Range.antt =====
-- `validate_port` against the number that its argument spells.
use qubes_core_qrexec.Prelude.{
  ℕ, ◌+◌, ◌-◌, ◌*◌, ◌≤◌, ◌≡◌, ◌↔◌, true, false, [], ◌∷◌, arith, Bytes, starts_with,
}
use qubes_core_qrexec.Rpc.Port.{all_digits, validate_port}

-- The value of a run of decimal digits behind a number read so far.
abbrev pub decimal_from : ℕ → Bytes → ℕ
decimal_from n [] = n
decimal_from n (c ∷ s) = decimal_from (10 * n + (c - b'0')) s

-- A decimal numeral with no leading zero, of a value from 1 to 65535.
pub record IsPort (s : Bytes) : Type 0 where
  pub digits : all_digits s ≡ true
  pub no_leading_zero : starts_with (b'0' ∷ []) s ≡ false
  pub in_range : (1 ≤ decimal_from 0 s) × (decimal_from 0 s ≤ 65535)

decimal_from-le : (s : Bytes) (n : ℕ) → n ≤ decimal_from n s
decimal_from-le [] n = omega arith
decimal_from-le (c ∷ s) n = omega (arith, decimal_from-le s (10 * n + (c - b'0')))

-- With more than five digits and no leading zero the value is too large.
six_digits : (a b c d e f : ℕ) (s : Bytes) → IsPort (a ∷ b ∷ c ∷ d ∷ e ∷ f ∷ s) → ⊥
six_digits a b c d e f s p = ground (
  arith,
  p.digits,
  p.no_leading_zero,
  p.in_range,
  decimal_from-le s (decimal_from 0 (a ∷ b ∷ c ∷ d ∷ e ∷ f ∷ [])),
)

abbrev Accepts : Bytes → Type 0
Accepts s = (validate_port s ≡ true) ↔ IsPort s

one_digit : (a : ℕ) → Accepts (a ∷ [])
unfolding validate_port
one_digit a = ground arith

two_digits : (a b : ℕ) → Accepts (a ∷ b ∷ [])
unfolding validate_port
two_digits a b = ground arith

three_digits : (a b c : ℕ) → Accepts (a ∷ b ∷ c ∷ [])
unfolding validate_port
three_digits a b c = ground arith

four_digits : (a b c d : ℕ) → Accepts (a ∷ b ∷ c ∷ d ∷ [])
unfolding validate_port
four_digits a b c d = ground arith

five_digits : (a b c d e : ℕ) → Accepts (a ∷ b ∷ c ∷ d ∷ e ∷ [])
unfolding validate_port
five_digits a b c d e = ground arith

too_long : (a b c d e f : ℕ) (s : Bytes) → validate_port (a ∷ b ∷ c ∷ d ∷ e ∷ f ∷ s) ≡ false
unfolding validate_port
too_long a b c d e f s = ground arith

empty_port : Accepts []
unfolding validate_port
empty_port = (λ h. cc, λ p. absurd (omega (arith, p.in_range)))

-- `validate_port` accepts a string exactly when it is a decimal numeral without a leading zero whose value is from 1 to 65535.
pub validate_port_iff : (s : Bytes) → (validate_port s ≡ true) ↔ IsPort s
validate_port_iff [] = empty_port
validate_port_iff (a ∷ []) = one_digit a
validate_port_iff (a ∷ b ∷ []) = two_digits a b
validate_port_iff (a ∷ b ∷ c ∷ []) = three_digits a b c
validate_port_iff (a ∷ b ∷ c ∷ d ∷ []) = four_digits a b c d
validate_port_iff (a ∷ b ∷ c ∷ d ∷ e ∷ []) = five_digits a b c d e
validate_port_iff (a ∷ b ∷ c ∷ d ∷ e ∷ f ∷ s) =
    (λ h. absurd (cc (too_long a b c d e f s)), λ p. absurd (six_digits a b c d e f s p))
