-- ===== src/Daemon/Policy/RoundTrip.antt =====
-- The reply that qrexec/policy/parser.py prints for an allowed call, read by the daemon.
use qubes_core_qrexec.Prelude.{
  ℕ, ◌≤◌, ◌≡◌, refl, ap, ◌∙◌, ◌≢◌, Bool, true, false, some, List, [], ◌∷◌, ◌++◌, arith, ◌==◌,
  length, All, Bytes, codes, contains, contains-append, strlen_all,
}
use qubes_core_qrexec.Daemon.State.{allow}
use qubes_core_qrexec.Daemon.Policy.{
  no_reply, split_lines, key_of, read_line, read_lines, conclude, strip_newline,
  parse_policy_response,
}

abbrev pub join_lines : Bytes → List Bytes → Bytes
join_lines l [] = l
join_lines l (m ∷ ls) = l ++ (b'\n' ∷ join_lines m ls)

abbrev pub bool_text : Bool → Bytes
bool_text true = codes "True"
bool_text false = codes "False"

-- `AllowResolution.execute`
unfoldable pub allow_text : Bytes → Bytes → Bool → Bytes → Bytes
allow_text user target autostart requested_target = join_lines (codes "user=" ++ user) (
    codes "result=allow"
    ∷ (codes "target=" ++ target)
    ∷ (codes "autostart=" ++ bool_text autostart)
    ∷ (codes "requested_target=" ++ requested_target)
    ∷ [])

split_lines-one : (l : Bytes) → contains b'\n' l ≡ false → split_lines l ≡ l ∷ []
unfolding split_lines
split_lines-one [] h = refl
split_lines-one (c ∷ l) h = ground (arith, split_lines-one l)

split_lines-append :
    (l s : Bytes) → contains b'\n' l ≡ false → split_lines (l ++ (b'\n' ∷ s)) ≡ l ∷ split_lines s
unfolding split_lines
split_lines-append [] s h = refl
split_lines-append (c ∷ l) s h = ground (arith, split_lines-append l s)

abbrev NoNewline : Bytes → Type 0
NoNewline l = contains b'\n' l ≡ false

pub split_lines-join_lines :
    (l : Bytes) (ls : List Bytes)
    → NoNewline l
    → All NoNewline ls
    → split_lines (join_lines l ls) ≡ l ∷ ls
split_lines-join_lines l [] h a = split_lines-one l h
split_lines-join_lines l (m ∷ ls) h a =
    split_lines-append l (join_lines m ls) h ∙ ap (◌∷◌ l) (split_lines-join_lines m ls a.0 a.1)

strip_newline-append : (a b : Bytes) → b ≢ [] → strip_newline (a ++ b) ≡ a ++ strip_newline b
strip_newline-append [] b ne = refl
strip_newline-append (c ∷ []) [] ne = absurd (ne refl)
strip_newline-append (c ∷ []) (x ∷ b) ne = refl
strip_newline-append (c ∷ d ∷ a) b ne = ap (◌∷◌ c) (strip_newline-append (d ∷ a) b ne)

strip_newline-none : (a : Bytes) → contains b'\n' a ≡ false → strip_newline a ≡ a
strip_newline-none [] h = refl
strip_newline-none (c ∷ []) h = ground arith
strip_newline-none (c ∷ d ∷ a) h = ground (arith, strip_newline-none (d ∷ a))

join_lines-ne_nil : (m : Bytes) (ls : List Bytes) → m ≢ [] → join_lines m ls ≢ []
join_lines-ne_nil m [] ne = ne
join_lines-ne_nil [] (k ∷ ls) ne = λ e. ne refl
join_lines-ne_nil (c ∷ m) (k ∷ ls) ne = λ e. cc e

strip_newline-join_lines :
    (l : Bytes) (ls : List Bytes)
    → l ≢ []
    → NoNewline l
    → All (λ m. (m ≢ []) × NoNewline m) ls
    → strip_newline (join_lines l ls) ≡ join_lines l ls
strip_newline-join_lines l [] ne h a = strip_newline-none l h
strip_newline-join_lines l (m ∷ ls) ne h a =
    strip_newline-append l (b'\n' ∷ join_lines m ls) (λ e. cc e)
    ∙ ap (λ t. l ++ t)
        (strip_newline-append (b'\n' ∷ []) (join_lines m ls) (join_lines-ne_nil m ls a.0.0)
          ∙ ap (◌∷◌ b'\n') (strip_newline-join_lines m ls a.0.0 a.0.1 a.1))

contains-join_lines :
    (c : ℕ) (l : Bytes) (ls : List Bytes)
    → (b'\n' == c) ≡ false
    → contains c l ≡ false
    → All (λ m. contains c m ≡ false) ls
    → contains c (join_lines l ls) ≡ false
contains-join_lines c l [] n h a = h
contains-join_lines c l (m ∷ ls) n h a =
    ground
      (arith, contains-append c l (b'\n' ∷ join_lines m ls), contains-join_lines c m ls n a.0 a.1)

-- A value that the policy engine prints: no newline and no NUL.
abbrev pub IsValue : Bytes → Type 0
IsValue v = (contains b'\n' v ≡ false) × (contains 0 v ≡ false)

read_allow :
    (user target requested_target : Bytes) (autostart : Bool)
    → read_lines
        ((codes "user=" ++ user)
          ∷ codes "result=allow"
          ∷ (codes "target=" ++ target)
          ∷ (codes "autostart=" ++ bool_text autostart)
          ∷ (codes "requested_target=" ++ requested_target)
          ∷ [])
        no_reply
      ≡ some (record {
        result = some allow;
        user = some user;
        target = some target;
        requested_target = some requested_target;
        autostart = some autostart;
      })
unfolding read_lines read_line key_of
read_allow user target requested_target true = refl
read_allow user target requested_target false = refl

bool_text-clean : (c : ℕ) (b : Bool) → c ≤ 10 → contains c (bool_text b) ≡ false
bool_text-clean c true h = ground arith
bool_text-clean c false h = ground arith

module _ (user target requested_target : Bytes) (autostart : Bool) where
  abbrev later_lines : List Bytes
  later_lines =
      codes "result=allow"
      ∷ (codes "target=" ++ target)
      ∷ (codes "autostart=" ++ bool_text autostart)
      ∷ (codes "requested_target=" ++ requested_target)
      ∷ []

  allow_text-clean :
      IsValue user
      → IsValue target
      → IsValue requested_target
      → contains 0 (allow_text user target autostart requested_target) ≡ false
  unfolding allow_text
  allow_text-clean hu ht hr =
      contains-join_lines 0 (codes "user=" ++ user) later_lines refl hu.1
        (refl, (ht.1, (bool_text-clean 0 autostart (omega arith), (hr.1, tt))))

  allow_text-lines :
      IsValue user
      → IsValue target
      → IsValue requested_target
      → split_lines (strip_newline (allow_text user target autostart requested_target))
        ≡ (codes "user=" ++ user)
          ∷ codes "result=allow"
          ∷ (codes "target=" ++ target)
          ∷ (codes "autostart=" ++ bool_text autostart)
          ∷ (codes "requested_target=" ++ requested_target)
          ∷ []
  unfolding allow_text
  allow_text-lines hu ht hr =
      let b = bool_text-clean b'\n' autostart (omega arith) in
      ap split_lines (
        strip_newline-join_lines (codes "user=" ++ user) later_lines (λ e. cc e) hu.0
          ((λ e. cc e, refl), ((λ e. cc e, ht.0), ((λ e. cc e, b), ((λ e. cc e, hr.0), tt)))))
      ∙ split_lines-join_lines (codes "user=" ++ user) later_lines hu.0
          (refl, (ht.0, (b, (hr.0, tt))))

  allow_text-length : 1 ≤ length (allow_text user target autostart requested_target)
  unfolding allow_text
  allow_text-length = omega arith

-- `parse_policy_response` reads back the reply that the policy engine prints for an allowed call, for all values without newlines and NULs.
pub parse_policy_response-allow_text :
    (user target requested_target : Bytes) (autostart : Bool)
    → IsValue user
    → IsValue target
    → IsValue requested_target
    → parse_policy_response (allow_text user target autostart requested_target) ≡ (
      allow,
      record {
        result = some allow;
        user = some user;
        target = some target;
        requested_target = some requested_target;
        autostart = some autostart;
      },
    )
unfolding parse_policy_response conclude
parse_policy_response-allow_text user target requested_target autostart hu ht hr = ground (
  arith,
  strlen_all text (allow_text-clean user target requested_target autostart hu ht hr),
  allow_text-lines user target requested_target autostart hu ht hr,
  read_allow user target requested_target autostart,
  allow_text-length user target requested_target autostart,
)
  where
    text : Bytes
    text = allow_text user target autostart requested_target
