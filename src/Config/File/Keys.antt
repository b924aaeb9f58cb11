-- ===== src/Config/File/Keys.antt =====
-- Which files `qubes_toml_config_parse` accepts, and what they set.
use qubes_core_qrexec.Prelude.{
  ◌≡◌, refl, ◌≢◌, inl, inr, Bool, false, not, Option, none, some, arith, ltb, ◌==◌, if◌then◌else◌,
  Bool-cases, Option-cases, Bytes,
}
use qubes_core_qrexec.Config.Value.{TomlValue, boolean, integer, string, parse_toml_value}
use qubes_core_qrexec.Config.File.{
  Config, Line, skipped, refused, entry, read_line, Key, wait_for_session, exit_on_client_eof,
  exit_on_service_eof, skip_service_descriptor, force_user, key_of, seen, see, set, State, set_once,
  set_key, parse_entry,
}

-- A line that gives a known key a value.
pub record Gives (l : Bytes) (k : Key) (v : TomlValue) : Type 0 where
  pub key : Bytes
  pub text : Bytes
  pub is_entry : read_line l ≡ entry key text
  pub is_key : key_of key ≡ some k
  pub is_value : parse_toml_value text ≡ some v

-- What a configuration holds for a key, as a value.
abbrev pub current : Key → Config → Option TomlValue
current wait_for_session c = some (boolean c.wait_for_session)
current exit_on_client_eof c = some (boolean c.exit_on_client_eof)
current exit_on_service_eof c = some (boolean c.exit_on_service_eof)
current skip_service_descriptor c = some (boolean (not c.send_service_descriptor))
current force_user c = elim c.user [ none ↦ none | some s ↦ some (string s) ]

-- The value that a key takes: its own type, or 0 and 1 for `wait-for-session`.
abbrev pub meaning : Key → TomlValue → Option TomlValue
meaning wait_for_session (integer n) = if ltb n 2 then some (boolean (n == 1)) else none
meaning wait_for_session (boolean b) = some (boolean b)
meaning exit_on_client_eof (boolean b) = some (boolean b)
meaning exit_on_service_eof (boolean b) = some (boolean b)
meaning skip_service_descriptor (boolean b) = some (boolean b)
meaning force_user (string s) = some (string s)
meaning _ _ = none

-- A step of the loop that sets `k` to `v`.
pub record Sets (k : Key) (v : TomlValue) (s s' : State) : Type 0 where
  pub fresh : seen k s.1 ≡ false
  pub flags : s'.1 ≡ see k s.1
  pub sets : set k v s.0 ≡ some s'.0

pub set_once-Sets :
    (k : Key) (v : TomlValue) (s s' : State) → set_once k v s ≡ some s' → Sets k v s s'
unfolding set_once
set_once-Sets k v s s' h = elim (Bool-cases (seen k s.1)) [
  | inl e ↦ absurd (cc (rw (set_once, e) at h))
  | inr e ↦ elim (Option-cases (set k v s.0)) [
    | inl n ↦ absurd (cc (rw (set_once, e, n) at h))
    | inr (c', q) ↦
        let p : (c', see k s.1) ≡ s' = cc (rw (set_once, e, q) at h) in
        rw (← p) (record { fresh = e; flags = refl; sets = q })
  ]
]

pub set-current :
    (k : Key) (v : TomlValue) (c c' : Config) → set k v c ≡ some c' → current k c' ≡ meaning k v
unfolding set
set-current wait_for_session (integer n) c c' h = ground arith
set-current wait_for_session (boolean b) c c' h = ground arith
set-current wait_for_session (string b) c c' h = absurd (cc h)
set-current exit_on_client_eof (boolean b) c c' h = ground arith
set-current exit_on_client_eof (integer b) c c' h = absurd (cc h)
set-current exit_on_client_eof (string b) c c' h = absurd (cc h)
set-current exit_on_service_eof (boolean b) c c' h = ground arith
set-current exit_on_service_eof (integer b) c c' h = absurd (cc h)
set-current exit_on_service_eof (string b) c c' h = absurd (cc h)
set-current skip_service_descriptor (boolean b) c c' h = ground arith
set-current skip_service_descriptor (integer b) c c' h = absurd (cc h)
set-current skip_service_descriptor (string b) c c' h = absurd (cc h)
set-current force_user (boolean b) c c' h = absurd (cc h)
set-current force_user (integer b) c c' h = absurd (cc h)
set-current force_user (string b) c c' h = ground arith

wait-apart :
    (b : Bool) (c : Config) (k' : Key)
    → k' ≢ wait_for_session
    → current k' (record c { wait_for_session = b }) ≡ current k' c
wait-apart b c wait_for_session ne = absurd (ne refl)
wait-apart b c exit_on_client_eof ne = refl
wait-apart b c exit_on_service_eof ne = refl
wait-apart b c skip_service_descriptor ne = refl
wait-apart b c force_user ne = refl

pub set-others :
    (k : Key) (v : TomlValue) (c c' : Config) (k' : Key)
    → set k v c ≡ some c'
    → k' ≢ k
    → current k' c' ≡ current k' c
unfolding set
set-others wait_for_session (boolean b) c c' k' h ne =
    let q : record c { wait_for_session = b } ≡ c' = cc h in rw (← q) (wait-apart b c k' ne)
set-others wait_for_session (integer n) c c' k' h ne = elim (Bool-cases (ltb n 2)) [
  | inl e ↦
      let q : record c { wait_for_session = n == 1 } ≡ c' = cc (rw (set, e) at h) in
      rw (← q) (wait-apart (n == 1) c k' ne)
  | inr e ↦ absurd (cc (rw (set, e) at h))
]
set-others wait_for_session (string b) c c' k' h ne = absurd (cc h)
set-others exit_on_client_eof (boolean b) c c' k' h ne =
    let q : record c { exit_on_client_eof = b } ≡ c' = cc h in rw (← q) (apart k' ne)
  where
    apart :
        (k' : Key)
        → k' ≢ exit_on_client_eof
        → current k' (record c { exit_on_client_eof = b }) ≡ current k' c
    apart wait_for_session ne = refl
    apart exit_on_client_eof ne = absurd (ne refl)
    apart exit_on_service_eof ne = refl
    apart skip_service_descriptor ne = refl
    apart force_user ne = refl
set-others exit_on_client_eof (integer b) c c' k' h ne = absurd (cc h)
set-others exit_on_client_eof (string b) c c' k' h ne = absurd (cc h)
set-others exit_on_service_eof (boolean b) c c' k' h ne =
    let q : record c { exit_on_service_eof = b } ≡ c' = cc h in rw (← q) (apart k' ne)
  where
    apart :
        (k' : Key)
        → k' ≢ exit_on_service_eof
        → current k' (record c { exit_on_service_eof = b }) ≡ current k' c
    apart wait_for_session ne = refl
    apart exit_on_client_eof ne = refl
    apart exit_on_service_eof ne = absurd (ne refl)
    apart skip_service_descriptor ne = refl
    apart force_user ne = refl
set-others exit_on_service_eof (integer b) c c' k' h ne = absurd (cc h)
set-others exit_on_service_eof (string b) c c' k' h ne = absurd (cc h)
set-others skip_service_descriptor (boolean b) c c' k' h ne =
    let q : record c { send_service_descriptor = not b } ≡ c' = cc h in rw (← q) (apart k' ne)
  where
    apart :
        (k' : Key)
        → k' ≢ skip_service_descriptor
        → current k' (record c { send_service_descriptor = not b }) ≡ current k' c
    apart wait_for_session ne = refl
    apart exit_on_client_eof ne = refl
    apart exit_on_service_eof ne = refl
    apart skip_service_descriptor ne = absurd (ne refl)
    apart force_user ne = refl
set-others skip_service_descriptor (integer b) c c' k' h ne = absurd (cc h)
set-others skip_service_descriptor (string b) c c' k' h ne = absurd (cc h)
set-others force_user (boolean b) c c' k' h ne = absurd (cc h)
set-others force_user (integer b) c c' k' h ne = absurd (cc h)
set-others force_user (string b) c c' k' h ne =
    let q : record c { user = some b } ≡ c' = cc h in rw (← q) (apart k' ne)
  where
    apart : (k' : Key) → k' ≢ force_user → current k' (record c { user = some b }) ≡ current k' c
    apart wait_for_session ne = refl
    apart exit_on_client_eof ne = refl
    apart exit_on_service_eof ne = refl
    apart skip_service_descriptor ne = refl
    apart force_user ne = absurd (ne refl)

-- The known keys that the lines give, in their order.
abbrev pub line_key : Line → Option Key
line_key (entry key text) = key_of key
line_key _ = none

-- What an accepted line does: nothing, or it sets its key.
pub data Effect (s s' : State) : Line → Type 0 where
  nothing : {l : Line} → line_key l ≡ none → s' ≡ s → Effect s s' l
  setting :
      {key text : Bytes} (k : Key) (v : TomlValue)
      → key_of key ≡ some k
      → parse_toml_value text ≡ some v
      → Sets k v s s'
      → Effect s s' (entry key text)

pub parse_entry-Effect : (l : Line) (s s' : State) → parse_entry l s ≡ some s' → Effect s s' l
unfolding parse_entry set_key
parse_entry-Effect skipped s s' h = nothing refl (cc h)
parse_entry-Effect refused s s' h = absurd (cc h)
parse_entry-Effect (entry key text) s s' h = elim (Option-cases (parse_toml_value text)) [
  | inl e ↦ absurd (cc (rw (parse_entry, set_key, e) at h))
  | inr (v, e) ↦ elim (Option-cases (key_of key)) [
    | inl n ↦ nothing n (cc (rw (parse_entry, set_key, e, n) at h))
    | inr (k, q) ↦ setting k v q e (set_once-Sets k v s s' (rw (parse_entry, set_key, e, q) at h))
  ]
]
