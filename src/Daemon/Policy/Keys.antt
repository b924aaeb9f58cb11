-- ===== src/Daemon/Policy/Keys.antt =====
-- How often each key stands in a response that is accepted.
use qubes_core_qrexec.Prelude.{
  ℕ, ◌+◌, ◌≡◌, refl, ◌≢◌, inl, inr, Option, none, some, List, [], ◌∷◌, arith, Option-cases, Bytes,
}
use qubes_core_qrexec.Daemon.State.{PolicyResponse, allow, deny, malformed}
use qubes_core_qrexec.Daemon.Policy.{
  Reply, no_reply, split_lines, Key, result_key, user_key, target_key, autostart_key,
  requested_target_key, other_key, key_of, read_line, read_lines, conclude, strip_newline,
  parse_policy_response,
}

abbrev same_key : Key → Key → ℕ
same_key result_key result_key = 1
same_key user_key user_key = 1
same_key target_key target_key = 1
same_key autostart_key autostart_key = 1
same_key requested_target_key requested_target_key = 1
same_key other_key other_key = 1
same_key _ _ = 0

-- How many lines have the key.
abbrev pub count_key : Key → List Bytes → ℕ
count_key k [] = 0
count_key k (line ∷ lines) = same_key (key_of line) k + count_key k lines

abbrev given {ℓ} : {A : Type ℓ} → Option A → ℕ
given none = 0
given (some _) = 1

record Counts (k : List Bytes) (r r' : Reply) : Type 0 where
  result : given r'.result ≡ given r.result + count_key result_key k
  user : given r'.user ≡ given r.user + count_key user_key k
  target : given r'.target ≡ given r.target + count_key target_key k
  requested_target :
      given r'.requested_target ≡ given r.requested_target + count_key requested_target_key k
  autostart : given r'.autostart ≡ given r.autostart + count_key autostart_key k

read_line-Counts :
    (k : Key) (line : Bytes) (r r' : Reply)
    → key_of line ≡ k
    → read_line k line r ≡ some r'
    → Counts (line ∷ []) r r'
unfolding read_line
read_line-Counts result_key line r r' q h = ground arith
read_line-Counts user_key line r r' q h = ground arith
read_line-Counts target_key line r r' q h = ground arith
read_line-Counts autostart_key line r r' q h = ground arith
read_line-Counts requested_target_key line r r' q h = ground arith
read_line-Counts other_key line r r' q h = ground arith

read_lines-Counts :
    (lines : List Bytes) (r r' : Reply) → read_lines lines r ≡ some r' → Counts lines r r'
unfolding read_lines
read_lines-Counts [] r r' h = ground arith
read_lines-Counts (line ∷ lines) r r' h = elim (Option-cases (read_line (key_of line) line r)) [
  | inl e ↦ absurd (cc (rw (e, read_lines) at h))
  | inr (m, e) ↦
      let first = read_line-Counts (key_of line) line r m refl e in
      let later = read_lines-Counts lines m r' (rw (e, read_lines) at h) in
      omega (arith, first, later)
]

-- The lines of a response.
abbrev pub lines_of : Bytes → List Bytes
lines_of response = split_lines (strip_newline response)

-- The lines of a response that is not malformed are all read.
accepted :
    (response : Bytes) (p : PolicyResponse) (r : Reply)
    → parse_policy_response response ≡ (p, r)
    → p ≢ malformed
    → (read_lines (lines_of response) no_reply ≡ some r) × (conclude r.result r ≡ p)
unfolding parse_policy_response
accepted response p r h ne = elim (Option-cases (read_lines (lines_of response) no_reply)) [
  | inl e ↦ absurd (ground arith)
  | inr (m, e) ↦ ground arith
]

-- If a response is taken as `allow`, then each of the five keys stands on exactly one of its lines, and all four values are given.
pub parse_policy_response-allow :
    (response : Bytes) (r : Reply)
    → parse_policy_response response ≡ (allow, r)
    → (count_key result_key (lines_of response) ≡ 1)
      × (count_key user_key (lines_of response) ≡ 1)
      × (count_key target_key (lines_of response) ≡ 1)
      × (count_key requested_target_key (lines_of response) ≡ 1)
      × (count_key autostart_key (lines_of response) ≡ 1)
      × (r.user ≢ none)
      × (r.target ≢ none)
      × (r.requested_target ≢ none)
      × (r.autostart ≢ none)
unfolding conclude
parse_policy_response-allow response r h =
    let (read, c) = accepted response allow r h (λ e. cc) in
    let n = read_lines-Counts (lines_of response) no_reply r read in
    ground (arith, n.result, n.user, n.target, n.requested_target, n.autostart)

-- If a response is taken as `deny`, then `result=` stands on exactly one of its lines and the other four keys on none.
pub parse_policy_response-deny :
    (response : Bytes) (r : Reply)
    → parse_policy_response response ≡ (deny, r)
    → (count_key result_key (lines_of response) ≡ 1)
      × (count_key user_key (lines_of response) ≡ 0)
      × (count_key target_key (lines_of response) ≡ 0)
      × (count_key requested_target_key (lines_of response) ≡ 0)
      × (count_key autostart_key (lines_of response) ≡ 0)
unfolding conclude
parse_policy_response-deny response r h =
    let (read, c) = accepted response deny r h (λ e. cc) in
    let n = read_lines-Counts (lines_of response) no_reply r read in
    ground (arith, n.result, n.user, n.target, n.requested_target, n.autostart)
