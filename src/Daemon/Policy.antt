-- ===== src/Daemon/Policy.antt =====
-- daemon/qrexec-daemon.c: `parse_policy_response`, the reply of the policy engine.
-- The response is the bytes that were read; the NUL that ends their buffer is not among them.
pub mod Keys
pub mod RoundTrip
use qubes_core_qrexec.Prelude.{
  ℕ, ◌-◌, ◌/◌, Bool, true, false, not, ◌&&◌, ◌||◌, Option, none, some, List, [], ◌∷◌, ltb, ◌==◌,
  if◌then◌else◌, length, drop, Bytes, codes, bytes_eq, starts_with, contains, strlen,
}
use qubes_core_qrexec.Daemon.State.{PolicyResponse, allow, deny, malformed}

-- The values of the out parameters and of `result`; `none` is NULL, and -1.
pub record Reply : Type 0 where
  pub result : Option PolicyResponse
  pub user : Option Bytes
  pub target : Option Bytes
  pub requested_target : Option Bytes
  pub autostart : Option Bool

abbrev pub no_reply : Reply
no_reply = record {
  result = none;
  user = none;
  target = none;
  requested_target = none;
  autostart = none;
}

-- `strsep(&resp, "\n")` until NULL.
abbrev cons_head : ℕ → List Bytes → List Bytes
cons_head c [] = (c ∷ []) ∷ []
cons_head c (l ∷ ls) = (c ∷ l) ∷ ls

unfoldable pub split_lines : Bytes → List Bytes
split_lines [] = [] ∷ []
split_lines (c ∷ s) = let ls = split_lines s in if c == b'\n' then [] ∷ ls else cons_head c ls

-- The chain of `else if` on the beginning of a line.
pub data Key : Type 0 where
  result_key user_key target_key autostart_key requested_target_key other_key : Key

unfoldable pub key_of : Bytes → Key
key_of line =
    if starts_with (codes "result=") line
    then result_key
    else if starts_with (codes "user=") line
    then user_key
    else if starts_with (codes "target=") line
    then target_key
    else if starts_with (codes "autostart=") line
    then autostart_key
    else if starts_with (codes "requested_target=") line
    then requested_target_key
    else other_key

abbrev is_set {ℓ} : {A : Type ℓ} → Option A → Bool
is_set none = false
is_set (some _) = true

-- `none` for `goto bad_response`.
unfoldable pub read_line : Key → Bytes → Reply → Option Reply
read_line result_key line r =
    let value = drop 7 line in
    if is_set r.result
    then none
    else if bytes_eq value (codes "allow")
    then some (record r { result = some allow })
    else if bytes_eq value (codes "deny")
    then some (record r { result = some deny })
    else none
read_line user_key line r =
    if is_set r.user then none else some (record r { user = some (drop 5 line) })
read_line target_key line r =
    if is_set r.target then none else some (record r { target = some (drop 7 line) })
read_line autostart_key line r =
    let value = drop 10 line in
    if is_set r.autostart
    then none
    else if bytes_eq value (codes "True")
    then some (record r { autostart = some true })
    else if bytes_eq value (codes "False")
    then some (record r { autostart = some false })
    else none
read_line requested_target_key line r =
    if is_set r.requested_target
    then none
    else some (record r { requested_target = some (drop 17 line) })
read_line other_key line r = if contains b'=' line then some r else none

unfoldable pub read_lines : List Bytes → Reply → Option Reply
read_lines [] r = some r
read_lines (line ∷ lines) r = elim (read_line (key_of line) line r) [
  | none ↦ none
  | some r' ↦ read_lines lines r'
]

-- The `switch (result)` at the end.
unfoldable pub conclude : Option PolicyResponse → Reply → PolicyResponse
conclude (some allow) r =
    if is_set r.user && is_set r.target && is_set r.requested_target && is_set r.autostart
    then allow
    else malformed
conclude (some deny) r =
    if is_set r.user || is_set r.target || is_set r.requested_target || is_set r.autostart
    then malformed
    else deny
conclude _ r = malformed

-- Without the newline at the end, if there is one.
abbrev pub strip_newline : Bytes → Bytes
strip_newline [] = []
strip_newline (c ∷ []) = if c == b'\n' then [] else c ∷ []
strip_newline (c ∷ d ∷ s) = c ∷ strip_newline (d ∷ s)

unfoldable pub parse_policy_response : Bytes → PolicyResponse × Reply
parse_policy_response response =
    if ltb (length response) 1
    then (malformed, no_reply)
    else if not (strlen response == length response)
    then (malformed, no_reply)
    else elim (read_lines (split_lines (strip_newline response)) no_reply) [
      | none ↦ (malformed, no_reply)
      | some r ↦ (conclude r.result r, r)
    ]
