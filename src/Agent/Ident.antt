-- ===== src/Agent/Ident.antt =====
-- agent/qrexec-agent.c: the identifiers "SOCKET%d", as `snprintf` prints and `sscanf` reads them.
use qubes_core_qrexec.Prelude.{
  ℕ, zero, suc, ◌≡◌, refl, ap, ◌∙◌, ◌≢◌, inl, inr, Bool, true, ◌||◌, [], ◌∷◌, ◌++◌, arith, ◌==◌,
  if◌then◌else◌, Bool-cases, length, drop, Bytes, codes, within, starts_with,
}
use qubes_core_qrexec.Prelude.{
  is_digit, read_digits, decimal, digits, read_digits-digits, digits-first,
}

abbrev pub socket_word : Bytes
socket_word = codes "SOCKET"

abbrev pub socket_ident : ℕ → Bytes
socket_ident fd = socket_word ++ decimal fd []

abbrev is_space : ℕ → Bool
is_space c = c == b' ' || within 9 13 c

abbrev pub skip_spaces : Bytes → Bytes
skip_spaces [] = []
skip_spaces (c ∷ s) = if is_space c then skip_spaces s else c ∷ s

-- The results of `sscanf(s, "SOCKET%d", &fd)`: EOF, 0, or 1 with the number. A number that no `int`
-- holds does not occur.
pub data Scan : Type 0 where
  end_of_input mismatch : Scan
  number : ℕ → Scan
  negative : ℕ → Scan

abbrev scan_digits : (ℕ → Scan) → Bytes → Scan
scan_digits result [] = mismatch
scan_digits result (c ∷ s) = if is_digit c then result (read_digits 0 (c ∷ s)).0 else mismatch

abbrev minus : ℕ → Scan
minus zero = number 0
minus (suc n) = negative (suc n)

abbrev pub scan_int : Bytes → Scan
scan_int [] = end_of_input
scan_int (c ∷ s) =
    if c == b'-'
    then scan_digits minus s
    else if c == b'+'
    then scan_digits (λ n. number n) s
    else scan_digits (λ n. number n) (c ∷ s)

unfoldable pub scan_socket : Bytes → Scan
scan_socket s =
    if starts_with socket_word s
    then scan_int (skip_spaces (drop (length socket_word) s))
    else if starts_with s socket_word
    then end_of_input
    else mismatch

read_digits_all : (n : ℕ) → (read_digits n []).0 ≡ n
unfolding read_digits
read_digits_all n = refl

scan_int-first :
    (c : ℕ) (s : Bytes)
    → within b'1' b'9' c ≡ true
    → scan_int (skip_spaces (c ∷ s)) ≡ number (read_digits 0 (c ∷ s)).0
scan_int-first c s w = ground arith

scan_int-digits : (n : ℕ) → n ≢ 0 → scan_int (skip_spaces (digits n n [])) ≡ number n
scan_int-digits n z =
    let (c, s, e, w) = digits-first n n [] (omega arith) z in
    let r : read_digits 0 (c ∷ s) ≡ read_digits n [] =
      rw (← e) (read_digits-digits n n [] (omega arith)) in
    rw e (
      scan_int-first c s w
      ∙ ap (λ (r : ℕ × Bytes). number r.0) r
      ∙ ap (λ k. number k) (read_digits_all n))

-- The descriptor that `snprintf` prints is the one that `sscanf` reads.
pub scan_socket-socket_ident : (fd : ℕ) → scan_socket (socket_ident fd) ≡ number fd
unfolding scan_socket decimal read_digits
scan_socket-socket_ident fd = elim (Bool-cases (fd == 0)) [
  | inl z ↦ let e : fd ≡ 0 = ground arith in rw e refl
  | inr z ↦ rw (decimal, z) (scan_int-digits fd (ground arith))
]
