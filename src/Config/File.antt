-- ===== src/Config/File.antt =====
-- libqrexec/toml.c: `qubes_toml_config_parse`, on the bytes of the file. That `fopen` and `getline`
-- succeed is taken for granted.
pub mod Keys
pub mod Once
use qubes_core_qrexec.Prelude.{
  ℕ, ◌-◌, ◌/◌, Bool, true, false, not, Option, none, some, List, [], ◌∷◌, ltb, ◌==◌, if◌then◌else◌,
  Bytes, codes, bytes_eq, contains,
}
use qubes_core_qrexec.Config.Value.{
  is_blank, skip_blanks, is_letter, is_key_byte, TomlValue, boolean, integer, string,
  parse_toml_value,
}

-- What the caller's pointers hold; `user` stays as it was, `none`, unless the file sets it.
pub record Config : Type 0 where
  pub wait_for_session : Bool
  pub user : Option Bytes
  pub send_service_descriptor : Bool
  pub exit_on_service_eof : Bool
  pub exit_on_client_eof : Bool

-- The local flags.
pub record Seen : Type 0 where
  pub wait_for_session : Bool
  pub user : Bool
  pub skip_service_descriptor : Bool
  pub exit_on_client_eof : Bool
  pub exit_on_service_eof : Bool

-- `getline`: the lines, each with its newline, which the last may lack.
unfoldable pub lines : Bytes → List Bytes
lines [] = []
lines (c ∷ s) =
    let rest = lines s in
    if c == b'\n' then (c ∷ []) ∷ rest else elim rest [ [] ↦ (c ∷ []) ∷ [] | l ∷ ls ↦ (c ∷ l) ∷ ls ]

-- One byte `c` at the end, if it is there.
unfoldable pub chop : ℕ → Bytes → Option Bytes
chop c [] = none
chop c (x ∷ []) = if x == c then some [] else none
chop c (x ∷ y ∷ s) = elim (chop c (y ∷ s)) [ none ↦ none | some r ↦ some (x ∷ r) ]

unfoldable pub chop_newline : Bytes → Bytes
chop_newline s = elim (chop b'\n' s) [
  | none ↦ s
  | some r ↦ elim (chop b'\r' r) [ none ↦ r | some q ↦ q ]
]

unfoldable pub chop_blanks : Bytes → Bytes
chop_blanks [] = []
chop_blanks (c ∷ s) =
    let rest = chop_blanks s in
    elim rest [ [] ↦ if is_blank c then [] else c ∷ [] | x ∷ xs ↦ c ∷ x ∷ xs ]

-- The first byte of the line stays, whatever it is.
abbrev pub chop_line : Bytes → Bytes
chop_line [] = []
chop_line (c ∷ s) = c ∷ chop_blanks s

-- The bytes of a key after its first, and what follows them.
unfoldable pub read_key : Bytes → Bytes × Bytes
read_key [] = ([], [])
read_key (c ∷ s) = let r = read_key s in if is_key_byte c then (c ∷ r.0, r.1) else ([], c ∷ s)

-- A line: skipped, refused, or a key with the text of its value.
pub data Line : Type 0 where
  skipped : Line
  refused : Line
  entry : Bytes → Bytes → Line

abbrev pub after_key : Bytes → Bytes → Line
after_key key [] = refused
after_key key (c ∷ s) = if c == b'=' then entry key (skip_blanks s) else refused

-- The chopped line.
unfoldable pub read_entry : Bytes → Line
read_entry [] = skipped
read_entry (c ∷ s) =
    if c == b'#'
    then skipped
    else if is_letter c
    then after_key (c ∷ (read_key s).0) (skip_blanks (read_key s).1)
    else refused

unfoldable pub read_line : Bytes → Line
read_line s = if contains 0 s then refused else read_entry (chop_line (chop_newline s))

-- The keys that the parser knows.
pub data Key : Type 0 where
  wait_for_session exit_on_client_eof exit_on_service_eof skip_service_descriptor force_user : Key

unfoldable pub key_of : Bytes → Option Key
key_of s =
    if bytes_eq s (codes "wait-for-session")
    then some wait_for_session
    else if bytes_eq s (codes "exit-on-client-eof")
    then some exit_on_client_eof
    else if bytes_eq s (codes "exit-on-service-eof")
    then some exit_on_service_eof
    else if bytes_eq s (codes "skip-service-descriptor")
    then some skip_service_descriptor
    else if bytes_eq s (codes "force-user")
    then some force_user
    else none

-- The flag of a key.
abbrev pub seen : Key → Seen → Bool
seen wait_for_session f = f.wait_for_session
seen exit_on_client_eof f = f.exit_on_client_eof
seen exit_on_service_eof f = f.exit_on_service_eof
seen skip_service_descriptor f = f.skip_service_descriptor
seen force_user f = f.user

abbrev pub see : Key → Seen → Seen
see wait_for_session f = record f { wait_for_session = true }
see exit_on_client_eof f = record f { exit_on_client_eof = true }
see exit_on_service_eof f = record f { exit_on_service_eof = true }
see skip_service_descriptor f = record f { skip_service_descriptor = true }
see force_user f = record f { user = true }

-- A value for a key, after CHECK_TYPE; `none` for `goto bad`. An integer below 2 stands for a
-- Boolean where the key is `wait-for-session`.
unfoldable pub set : Key → TomlValue → Config → Option Config
set wait_for_session (integer n) c =
    if ltb n 2 then some (record c { wait_for_session = n == 1 }) else none
set wait_for_session (boolean b) c = some (record c { wait_for_session = b })
set exit_on_client_eof (boolean b) c = some (record c { exit_on_client_eof = b })
set exit_on_service_eof (boolean b) c = some (record c { exit_on_service_eof = b })
set skip_service_descriptor (boolean b) c = some (record c { send_service_descriptor = not b })
set force_user (string s) c = some (record c { user = some s })
set _ _ c = none

-- The state of the loop over the lines; the result is `none` for `goto bad`.
abbrev pub State : Type 0
State = Config × Seen

-- A known key, after CHECK_DUP_KEY.
unfoldable pub set_once : Key → TomlValue → State → Option State
unfolding set
set_once k v (c, f) =
    if seen k f then none else elim (set k v c) [ none ↦ none | some c' ↦ some (c', see k f) ]

-- An unknown key is logged and passed over, once its value has been parsed.
unfoldable pub set_key : Bytes → Bytes → State → Option State
unfolding set_once
set_key key text s = elim (parse_toml_value text) [
  | none ↦ none
  | some v ↦ elim (key_of key) [ none ↦ some s | some k ↦ set_once k v s ]
]

unfoldable pub parse_entry : Line → State → Option State
parse_entry skipped s = some s
parse_entry refused s = none
parse_entry (entry key text) s = set_key key text s

unfoldable pub parse_lines : List Bytes → State → Option State
parse_lines [] s = some s
parse_lines (l ∷ ls) s = elim (parse_entry (read_line l) s) [
  | none ↦ none
  | some s' ↦ parse_lines ls s'
]

abbrev pub none_seen : Seen
none_seen = record {
  wait_for_session = false;
  user = false;
  skip_service_descriptor = false;
  exit_on_client_eof = false;
  exit_on_service_eof = false;
}

-- What the caller has set before; two settings are reset first. `none` for -1.
unfoldable pub qubes_toml_config_parse : Bytes → Config → Option Config
qubes_toml_config_parse file c =
    let start = record c { wait_for_session = false; send_service_descriptor = true } in
    elim (parse_lines (lines file) (start, none_seen)) [ none ↦ none | some (c', f) ↦ some c' ]
