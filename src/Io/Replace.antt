-- ===== src/Io/Replace.antt =====
-- libqrexec/replace.c: `do_replace_chars`.
use qubes_core_qrexec.Prelude.{
  ℕ, suc, ◌≤◌, ◌≡◌, refl, ap, ◌⊎◌, inl, inr, Bool, true, false, ◌||◌, arith, [], ◌∷◌, ◌++◌, ◌==◌,
  if◌then◌else◌, Bool-cases, length, All, Bytes, within,
}

-- Printable ASCII, and tab, newline, return, backspace and bell.
unfoldable pub is_kept : ℕ → Bool
is_kept c = within 32 126 c || c == 9 || c == 10 || c == 13 || c == 8 || c == 7

unfoldable pub do_replace_chars : Bytes → Bytes
do_replace_chars [] = []
do_replace_chars (c ∷ s) = (if is_kept c then c else b'_') ∷ do_replace_chars s

replaced-kept : (s : Bytes) → All (λ c. is_kept c ≡ true) (do_replace_chars s)
unfolding do_replace_chars is_kept
replaced-kept [] = tt
replaced-kept (c ∷ s) =
    (elim (Bool-cases (is_kept c)) [ inl e ↦ rw (e, e) | inr e ↦ rw e refl ], replaced-kept s)

pub do_replace_chars_id : (s : Bytes) → All (λ c. is_kept c ≡ true) s → do_replace_chars s ≡ s
unfolding do_replace_chars
do_replace_chars_id [] a = refl
do_replace_chars_id (c ∷ s) a = rw (a.0, do_replace_chars_id s a.1)

length-replaced : (s : Bytes) → length (do_replace_chars s) ≡ length s
unfolding do_replace_chars
length-replaced [] = refl
length-replaced (c ∷ s) = ap suc (length-replaced s)

append-replaced :
    (s t : Bytes) → do_replace_chars (s ++ t) ≡ do_replace_chars s ++ do_replace_chars t
unfolding do_replace_chars
append-replaced [] t = refl
append-replaced (c ∷ s) t = rw (append-replaced s t)

-- Bell, backspace, tab, newline, return, and printable ASCII.
abbrev pub IsPlain : ℕ → Type 0
IsPlain c = ((7 ≤ c) × (c ≤ 10)) ⊎ ((c ≡ 13) ⊎ ((32 ≤ c) × (c ≤ 126)))

-- What stands for a byte: the byte, or '_'.
pub data StandsFor (c d : ℕ) : Type 0 where
  itself : IsPlain c → d ≡ c → StandsFor c d
  underscore : ¬ IsPlain c → d ≡ b'_' → StandsFor c d

-- Byte by byte, and no more bytes than there were.
abbrev pub Replaces : Bytes → Bytes → Type 0
Replaces [] [] = Unit
Replaces [] (d ∷ t) = ⊥
Replaces (c ∷ s) [] = ⊥
Replaces (c ∷ s) (d ∷ t) = StandsFor c d × Replaces s t

kept-IsPlain : (c : ℕ) → is_kept c ≡ true → IsPlain c
unfolding is_kept
kept-IsPlain c h = ground arith

not_kept-IsPlain : (c : ℕ) → is_kept c ≡ false → ¬ IsPlain c
unfolding is_kept
not_kept-IsPlain c h p = ground arith

do_replace_chars-Replaces : (s : Bytes) → Replaces s (do_replace_chars s)
unfolding do_replace_chars
do_replace_chars-Replaces [] = tt
do_replace_chars-Replaces (c ∷ s) = (
  elim (Bool-cases (is_kept c)) [
    | inl e ↦ itself (kept-IsPlain c e) (rw e refl)
    | inr e ↦ underscore (not_kept-IsPlain c e) (rw e refl)
  ],
  do_replace_chars-Replaces s,
)

-- `do_replace_chars` leaves each byte that is printable ASCII, tab, newline, return, backspace or bell as it is, puts '_' in the place of each other byte, and keeps the length; it changes nothing when applied again, and gives the same when a text is replaced in two chunks.
pub do_replace_chars_lem :
    (s t : Bytes)
    → Replaces s (do_replace_chars s)
      × (length (do_replace_chars s) ≡ length s)
      × All (λ c. is_kept c ≡ true) (do_replace_chars s)
      × (do_replace_chars (do_replace_chars s) ≡ do_replace_chars s)
      × (do_replace_chars (s ++ t) ≡ do_replace_chars s ++ do_replace_chars t)
do_replace_chars_lem s t = (
  do_replace_chars-Replaces s,
  length-replaced s,
  replaced-kept s,
  do_replace_chars_id (do_replace_chars s) (replaced-kept s),
  append-replaced s t,
)
