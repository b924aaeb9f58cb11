-- ===== src/Prelude/CStrings.antt =====
-- Bytes and C strings. A `char *` is the list of the bytes before its NUL.
use Prim.Native.Nat.{ℕ, suc}
use Prim.Native.Char.{code}
use Prim.Native.String.{String}
use mathlib.Core.Path.{◌≡◌, refl}
use mathlib.Core.Logic.{◌↔◌, inl, inr}
use mathlib.Core.Bool.{Bool, true, false, ◌&&◌, ◌||◌}
use mathlib.Core.List.{List, [], ◌∷◌, ◌++◌}
use mathlib.Core.Option.{Option, none, some}
use native.Mathlib.Omega.{arith}
use qubes_core_qrexec.Prelude.Tests.{leb, ◌==◌, if◌then◌else◌, Option-cases}
use qubes_core_qrexec.Prelude.Lists.{length, drop}

abbrev pub Bytes : Type 0
Bytes = List ℕ

abbrev pub codes : String → Bytes
codes String.[] = []
codes (String.◌∷◌ c s) = code c ∷ codes s

-- `lo ... hi` in a `case` label.
abbrev pub within : ℕ → ℕ → ℕ → Bool
within lo hi c = leb lo c && leb c hi

-- `strcmp(a, b) == 0`, or `memcmp` on equal lengths.
abbrev pub bytes_eq : Bytes → Bytes → Bool
bytes_eq [] [] = true
bytes_eq [] (y ∷ ys) = false
bytes_eq (x ∷ xs) [] = false
bytes_eq (x ∷ xs) (y ∷ ys) = x == y && bytes_eq xs ys

-- `strncmp(s, p, strlen(p)) == 0`, for a constant `p` with no NUL.
abbrev pub starts_with : Bytes → Bytes → Bool
starts_with [] s = true
starts_with (p ∷ ps) [] = false
starts_with (p ∷ ps) (c ∷ s) = p == c && starts_with ps s

-- What stands before and after the first `c`, where `strchr(s, c)` is not NULL.
abbrev pub split_at : ℕ → Bytes → Option (Bytes × Bytes)
split_at c [] = none
split_at c (x ∷ s) =
    if x == c
    then some ([], s)
    else elim (split_at c s) [ none ↦ none | some (a, b) ↦ some (x ∷ a, b) ]

abbrev pub contains : ℕ → Bytes → Bool
contains c [] = false
contains c (x ∷ s) = x == c || contains c s

-- `strlen` of a buffer that may hold a NUL.
abbrev pub strlen : Bytes → ℕ
strlen [] = 0
strlen (c ∷ s) = if c == 0 then 0 else suc (strlen s)

-- The C string that a buffer holds.
abbrev pub c_string : Bytes → Bytes
c_string [] = []
c_string (c ∷ s) = if c == 0 then [] else c ∷ c_string s

pub bytes_eq_iff : (a b : Bytes) → (bytes_eq a b ≡ true) ↔ (a ≡ b)
bytes_eq_iff [] [] = ground arith
bytes_eq_iff [] (y ∷ b) = ground arith
bytes_eq_iff (x ∷ a) [] = ground arith
bytes_eq_iff (x ∷ a) (y ∷ b) = ground (arith, bytes_eq_iff a b)

pub starts_with-append : (p s : Bytes) → starts_with p (p ++ s) ≡ true
starts_with-append [] s = refl
starts_with-append (c ∷ p) s = ground (arith, starts_with-append p s)

pub drop-starts_with : (p s : Bytes) → starts_with p s ≡ true → p ++ drop (length p) s ≡ s
drop-starts_with [] s h = refl
drop-starts_with (c ∷ p) [] h = cc
drop-starts_with (c ∷ p) (x ∷ s) h = ground (arith, drop-starts_with p s)

pub split_at_sound :
    (c : ℕ) (s a b : Bytes)
    → split_at c s ≡ some (a, b)
    → (s ≡ a ++ (c ∷ b)) × (contains c a ≡ false)
split_at_sound c [] a b h = cc
split_at_sound c (x ∷ s) a b h = elim (Option-cases (split_at c s)) [
  | inl e ↦ ground arith
  | inr (r, e) ↦ ground (arith, split_at_sound c s r.0 r.1)
]

pub split_at-none : (c : ℕ) (s : Bytes) → split_at c s ≡ none → contains c s ≡ false
split_at-none c [] h = refl
split_at-none c (x ∷ s) h = elim (Option-cases (split_at c s)) [
  | inl e ↦ ground (arith, split_at-none c s e)
  | inr (r, e) ↦ absurd (ground arith)
]

pub split_at-append :
    (c : ℕ) (a b : Bytes) → contains c a ≡ false → split_at c (a ++ (c ∷ b)) ≡ some (a, b)
split_at-append c [] b h = ground arith
split_at-append c (x ∷ a) b h = ground (arith, split_at-append c a b)

pub contains-append : (c : ℕ) (a b : Bytes) → contains c (a ++ b) ≡ (contains c a || contains c b)
contains-append c [] b = refl
contains-append c (x ∷ a) b = ground (arith, contains-append c a b)

-- Bytes without a NUL among them are the whole of their C string.
pub strlen_all : (s : Bytes) → contains 0 s ≡ false → strlen s ≡ length s
strlen_all [] h = refl
strlen_all (c ∷ s) h = ground (arith, strlen_all s)
