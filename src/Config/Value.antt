-- ===== src/Config/Value.antt =====
-- libqrexec/toml.c: `parse_toml_value`, and the pieces of a line. A line holds no NUL: its end is
-- the end of the list.
pub mod Print
use qubes_core_qrexec.Prelude.{
  is_digit, read_digits, ℕ, ◌-◌, ◌/◌, Bool, true, false, ◌||◌, Option, none, some, [], ◌∷◌, ltb,
  ◌==◌, if◌then◌else◌, length, drop, Bytes, codes, within, starts_with, split_at,
}

-- `qubes_isspace`
abbrev pub is_blank : ℕ → Bool
is_blank c = c == b' ' || c == b'\t'

abbrev pub skip_blanks : Bytes → Bytes
skip_blanks [] = []
skip_blanks (c ∷ s) = if is_blank c then skip_blanks s else c ∷ s

abbrev pub is_letter : ℕ → Bool
is_letter c = within b'a' b'z' c || within b'A' b'Z' c

unfoldable pub is_key_byte : ℕ → Bool
is_key_byte c = is_digit c || is_letter c || c == b'.' || c == b'-' || c == b'_'

-- `enum toml_type` with `union toml_data`; TOML_TYPE_INVALID is `none` of an option.
pub data TomlValue : Type 0 where
  boolean : Bool → TomlValue
  integer : ℕ → TomlValue
  string : Bytes → TomlValue

abbrev pub ull_mod : ℕ
ull_mod = 0x1_0000_0000_0000_0000

-- `strtoull` in base 10 where `errno` stays 0.
unfoldable pub strtoull : Bytes → Option (ℕ × Bytes)
strtoull s = let r = read_digits 0 s in if ltb r.0 ull_mod then some r else none

-- Only blanks and a comment may follow the value.
unfoldable pub at_end : Bytes → Bool
at_end s = elim (skip_blanks s) [ [] ↦ true | c ∷ _ ↦ c == b'#' ]

abbrev pub quote : ℕ
quote = 39

abbrev pub triple_quoted : Bytes → Bool
triple_quoted s = starts_with (quote ∷ quote ∷ []) s

-- The string after its opening quote.
unfoldable pub read_string : Bytes → Option (TomlValue × Bytes)
read_string s =
    if triple_quoted s
    then none
    else elim (split_at quote s) [ none ↦ none | some (a, b) ↦ some (string a, b) ]

abbrev pub read_word : Bytes → Bool → Bytes → Option (TomlValue × Bytes)
read_word word value s =
    if starts_with word s then some (boolean value, drop (length word) s) else none

-- The value at the start, and what follows it.
unfoldable pub read_value : Bytes → Option (TomlValue × Bytes)
read_value [] = none
read_value (c ∷ s) =
    if c == b'0'
    then some (integer 0, s)
    else if within b'1' b'9' c
    then elim (strtoull (c ∷ s)) [ none ↦ none | some (n, rest) ↦ some (integer n, rest) ]
    else if c == b't'
    then read_word (codes "true") true (c ∷ s)
    else if c == b'f'
    then read_word (codes "false") false (c ∷ s)
    else if c == quote
    then read_string s
    else none

unfoldable pub parse_toml_value : Bytes → Option TomlValue
parse_toml_value s = elim (read_value s) [
  | none ↦ none
  | some (v, rest) ↦ if at_end rest then some v else none
]
