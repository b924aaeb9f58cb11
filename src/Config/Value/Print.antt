-- ===== src/Config/Value/Print.antt =====
-- Values as text, for `parse_toml_value`.
use qubes_core_qrexec.Prelude.{
  ℕ, ◌<◌, ◌≡◌, refl, ◌∙◌, inl, inr, Bool, true, false, some, [], ◌∷◌, ◌++◌, arith, ltb, ◌==◌,
  Bool-cases, Bytes, codes, within, starts_with, contains, split_at-append, read_digits, digits,
  decimal, read_digits-digits, digits-first,
}
use qubes_core_qrexec.Config.Value.{
  TomlValue, boolean, integer, string, ull_mod, strtoull, at_end, quote, triple_quoted, read_string,
  read_value, parse_toml_value,
}

abbrev word : Bool → Bytes
word true = codes "true"
word false = codes "false"

-- A value as a text, in front of what follows it.
unfoldable pub value_text : TomlValue → Bytes → Bytes
unfolding decimal
value_text (boolean b) t = word b ++ t
value_text (integer n) t = decimal n t
value_text (string s) t = quote ∷ (s ++ (quote ∷ t))

-- A value that has a text: numbers of 64 bits, and strings without a quote.
abbrev pub IsPrintable : TomlValue → Type 0
IsPrintable (boolean b) = Unit
IsPrintable (integer n) = n < ull_mod
IsPrintable (string s) = contains quote s ≡ false

-- What may follow a value begins with no digit and no quote.
read_digits-tail : (n : ℕ) (t : Bytes) → at_end t ≡ true → read_digits n t ≡ (n, t)
unfolding read_digits at_end
read_digits-tail n [] h = refl
read_digits-tail n (c ∷ t) h = ground arith

tail-no_quote : (t : Bytes) → at_end t ≡ true → starts_with (quote ∷ []) t ≡ false
unfolding at_end
tail-no_quote [] h = refl
tail-no_quote (c ∷ t) h = ground arith

not_triple :
    (s t : Bytes)
    → contains quote s ≡ false
    → at_end t ≡ true
    → triple_quoted (s ++ (quote ∷ t)) ≡ false
not_triple [] t h e = rw (tail-no_quote t e) refl
not_triple (c ∷ s) t h e = ground arith

read_string-text :
    (s t : Bytes)
    → contains quote s ≡ false
    → at_end t ≡ true
    → read_string (s ++ (quote ∷ t)) ≡ some (string s, t)
unfolding read_string
read_string-text s t h e = rw (read_string, not_triple s t h e, split_at-append quote s t h) refl

strtoull-digits :
    (n c : ℕ) (s t : Bytes)
    → n < ull_mod
    → at_end t ≡ true
    → digits n n t ≡ c ∷ s
    → strtoull (c ∷ s) ≡ some (n, t)
unfolding strtoull
strtoull-digits n c s t h e q =
    let r : read_digits 0 (c ∷ s) ≡ (n, t) =
      rw (← q) (read_digits-digits n n t (omega arith) ∙ read_digits-tail n t e) in
    (let u : ltb n ull_mod ≡ true = ground arith in rw (strtoull, r, u) refl)

read_value-nonzero :
    (c n : ℕ) (s t : Bytes)
    → within b'1' b'9' c ≡ true
    → strtoull (c ∷ s) ≡ some (n, t)
    → read_value (c ∷ s) ≡ some (integer n, t)
unfolding read_value
read_value-nonzero c n s t w q =
    let z : (c == b'0') ≡ false = ground arith in rw (read_value, z, w, q) refl

read_value-number :
    (n : ℕ) (t : Bytes)
    → n < ull_mod
    → at_end t ≡ true
    → read_value (decimal n t) ≡ some (integer n, t)
unfolding read_value decimal
read_value-number n t h e = elim (Bool-cases (n == 0)) [
  | inl z ↦ let q : n ≡ 0 = ground arith in rw q refl
  | inr z ↦
      let (c, s, q, w) = digits-first n n t (omega arith) (ground arith) in
      rw (decimal, z, q) (read_value-nonzero c n s t w (strtoull-digits n c s t h e q))
]

read_value-text :
    (v : TomlValue) (t : Bytes)
    → IsPrintable v
    → at_end t ≡ true
    → read_value (value_text v t) ≡ some (v, t)
unfolding read_value value_text read_digits
read_value-text (boolean true) t p e = refl
read_value-text (boolean false) t p e = refl
read_value-text (integer n) t p e = read_value-number n t p e
read_value-text (string s) t p e = read_string-text s t p e

-- A Boolean, a number below 2 ^ 64 or a string without a quote, written as a text and followed by blanks and at most a comment, is read back as the same value.
pub parse_toml_value-text :
    (v : TomlValue) (t : Bytes)
    → IsPrintable v
    → at_end t ≡ true
    → parse_toml_value (value_text v t) ≡ some v
unfolding parse_toml_value
parse_toml_value-text v t p e = rw (parse_toml_value, read_value-text v t p e, e) refl
