-- ===== src/Rpc/Find/Directories.antt =====
-- The directories of a path list, and the loop of `find_file` on them.
use qubes_core_qrexec.Prelude.{
  ℕ, zero, suc, ◌≤◌, ◌≡◌, refl, inl, inr, Option, List, [], ◌∷◌, arith, ltb, ◌==◌, if◌then◌else◌,
  Bool, Bool-cases, length, drop, length-drop, Bytes,
}
use qubes_core_qrexec.Rpc.Command.{name_max, before}
use qubes_core_qrexec.Rpc.Find.{
  FileSystem, Found, absent, look_up, skip_colons, next_directory, or_next, search_path, find_file,
}

abbrev pub cons_head : ℕ → List Bytes → List Bytes
cons_head c [] = (c ∷ []) ∷ []
cons_head c (f ∷ fs) = (c ∷ f) ∷ fs

-- What stands between the colons.
abbrev pub fields : Bytes → List Bytes
fields [] = [] ∷ []
fields (c ∷ s) = let rest = fields s in if c == b':' then [] ∷ rest else cons_head c rest

abbrev pub nonempty : List Bytes → List Bytes
nonempty [] = []
nonempty ([] ∷ fs) = nonempty fs
nonempty ((c ∷ f) ∷ fs) = (c ∷ f) ∷ nonempty fs

abbrev pub first_and_nonempty : List Bytes → List Bytes
first_and_nonempty [] = []
first_and_nonempty (f ∷ fs) = f ∷ nonempty fs

-- The first field, also an empty one, and of the others those that are not empty.
abbrev pub directories : Bytes → List Bytes
directories [] = []
directories (c ∷ s) = first_and_nonempty (fields (c ∷ s))

-- The first answer.
abbrev pub first_hit : (Bytes → Option Found) → List Bytes → Found
first_hit look [] = absent
first_hit look (d ∷ ds) = or_next (look d) (first_hit look ds)

abbrev rest_fields : Bytes → List Bytes
rest_fields [] = []
rest_fields (c ∷ s) = fields s

fields_step : (s : Bytes) → fields s ≡ before b':' s ∷ rest_fields (drop (length (before b':' s)) s)
fields_step [] = refl
fields_step (c ∷ s) = elim (Bool-cases (c == b':')) [
  | inl e ↦ rw e refl
  | inr e ↦ rw (e, fields_step s) refl
]

nonempty-fields : (s : Bytes) → nonempty (fields s) ≡ directories (skip_colons s)
nonempty-fields [] = refl
nonempty-fields (c ∷ s) = elim (Bool-cases (c == b':')) [
  | inl e ↦ rw e (nonempty-fields s)
  | inr e ↦ rw (e, e, fields_step s) refl
]

nonempty-rest_fields :
    (s : Bytes)
    → nonempty (rest_fields (drop (length (before b':' s)) s)) ≡ directories (next_directory s)
nonempty-rest_fields [] = refl
nonempty-rest_fields (c ∷ s) = elim (Bool-cases (c == b':')) [
  | inl e ↦ rw (e, e) (nonempty-fields s)
  | inr e ↦ rw e (nonempty-rest_fields s)
]

directories_step :
    (c : ℕ) (s : Bytes)
    → directories (c ∷ s) ≡ before b':' (c ∷ s) ∷ directories (next_directory (c ∷ s))
directories_step c s = rw (fields_step (c ∷ s), nonempty-rest_fields (c ∷ s)) refl

length-skip_colons : (s : Bytes) → length (skip_colons s) ≤ length s
length-skip_colons [] = omega arith
length-skip_colons (c ∷ s) = ground (arith, length-skip_colons s)

length-next_directory : (c : ℕ) (s : Bytes) → length (next_directory (c ∷ s)) ≤ length s
length-next_directory c s = elim (Bool-cases (c == b':')) [
  | inl e ↦ rw (e, e) (length-skip_colons s)
  | inr e ↦ rw e (
      omega (
        arith,
        length-skip_colons (drop (length (before b':' s)) s),
        length-drop (length (before b':' s)) s,
      ))
]

search_path-directories :
    (fuel : ℕ) (look : Bytes → Option Found) (s : Bytes)
    → length s ≤ fuel
    → search_path fuel look s ≡ first_hit look (directories s)
unfolding search_path
search_path-directories zero look [] h = refl
search_path-directories zero look (c ∷ s) h = absurd (omega arith)
search_path-directories (suc fuel) look [] h = refl
search_path-directories (suc fuel) look (c ∷ s) h =
    let ih =
      search_path-directories fuel look (next_directory (c ∷ s))
        (omega (arith, length-next_directory c s)) in
    rw (directories_step c s, ih) refl

-- For a name of at most NAME_MAX bytes, `find_file` gives the first answer of the directories of the
-- path list, in their order: the fields between its colons, without the empty ones after the first.
pub find_file-directories :
    (fs : FileSystem) (with_statbuf : Bool) (size : ℕ) (path_list name : Bytes)
    → length name ≤ name_max
    → find_file fs with_statbuf size path_list name
      ≡ first_hit (look_up fs with_statbuf size name) (directories path_list)
unfolding find_file
find_file-directories fs with_statbuf size path_list name h =
    elim (Bool-cases (ltb name_max (length name))) [
      | inl e ↦ absurd (ground arith)
      | inr e ↦ rw e (
          search_path-directories (length path_list) (look_up fs with_statbuf size name) path_list
            (omega arith))
    ]
