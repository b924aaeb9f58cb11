-- ===== src/Daemon/Execute/Request.antt =====
-- The request to the policy daemon: its lines, and the loop that sends it.
use qubes_core_qrexec.Prelude.{
  ℕ, ◌≡◌, refl, sym, ap, ◌∙◌, inl, inr, true, false, Option, none, some, List, [], ◌∷◌, ◌++◌,
  append_assoc, append-nil, ltb, ◌==◌, ==_iff, Bool-cases, length, take, drop, All,
  take-append-drop, Bytes, codes, contains,
}
use qubes_core_qrexec.Daemon.Sanitize.{is_allowed, sanitize_name}
use qubes_core_qrexec.Daemon.Sanitize.Names.{sanitize_name_lem}
use qubes_core_qrexec.Daemon.Policy.{split_lines}
use qubes_core_qrexec.Daemon.Policy.RoundTrip.{join_lines, split_lines-join_lines}
use qubes_core_qrexec.Daemon.Execute.{
  policy_request, Sending, sent, aborted, failed, unfinished, send_request,
}

newline_refused : (extra : Bytes) → contains b'\n' extra ≡ false → is_allowed extra b'\n' ≡ false
unfolding is_allowed
newline_refused extra h = h

no_newline :
    (extra s : Bytes)
    → contains b'\n' extra ≡ false
    → All (λ c. is_allowed extra c ≡ true) s
    → contains b'\n' s ≡ false
no_newline extra [] h a = refl
no_newline extra (c ∷ s) h a = elim (Bool-cases (c == b'\n')) [
  | inl e ↦
      let c' : c ≡ b'\n' = (==_iff c b'\n').0 e in
      let bad : is_allowed extra b'\n' ≡ true = rw c' at a.0 in cc (newline_refused extra h)
  | inr e ↦ rw e (no_newline extra s h a.1)
]

request-join_lines :
    (remote target service : Bytes)
    → policy_request remote target service
      ≡ join_lines (codes "source=" ++ remote) (
          (codes "intended_target=" ++ target)
          ∷ (codes "service_and_arg=" ++ service)
          ∷ []
          ∷ []
          ∷ [])
unfolding policy_request
request-join_lines remote target service = refl

-- Whatever bytes an agent sends as target and service, the request that the daemon makes of the sanitized names has exactly the lines `source=`, `intended_target=` and `service_and_arg=` with these values, and two empty ones; the source domain, which the agent does not choose, has no newline.
pub policy_request-lines :
    (remote target service : Bytes)
    → contains b'\n' remote ≡ false
    → split_lines (
        policy_request remote
          (sanitize_name (codes "@:") target)
          (sanitize_name (codes "+") service))
      ≡ (codes "source=" ++ remote)
        ∷ (codes "intended_target=" ++ sanitize_name (codes "@:") target)
        ∷ (codes "service_and_arg=" ++ sanitize_name (codes "+") service)
        ∷ []
        ∷ []
        ∷ []
policy_request-lines remote target service h =
    let t = sanitize_name (codes "@:") target in
    let s = sanitize_name (codes "+") service in
    let ht = no_newline (codes "@:") t refl (sanitize_name_lem (codes "@:") target).0 in
    let hs = no_newline (codes "+") s refl (sanitize_name_lem (codes "+") service).0 in
    ap split_lines (request-join_lines remote t s)
    ∙ split_lines-join_lines (codes "source=" ++ remote)
        ((codes "intended_target=" ++ t) ∷ (codes "service_and_arg=" ++ s) ∷ [] ∷ [] ∷ []) h
        (ht, (hs, (refl, (refl, tt))))

-- What has gone out is the beginning of the command, and all of it where the loop ends.
abbrev pub SentOf : Bytes → Sending → Type 0
SentOf command (sent out) = out ≡ command
SentOf command aborted = Unit
SentOf command (failed out) = (rest : Bytes) × (out ++ rest ≡ command)
SentOf command (unfinished out) = (rest : Bytes) × (out ++ rest ≡ command)

send_request-from :
    (answers : List (Option ℕ)) (out s command : Bytes)
    → out ++ s ≡ command
    → SentOf command (send_request answers out s)
unfolding send_request
send_request-from answers out [] command h = sym (append-nil out) ∙ h
send_request-from [] out (c ∷ s) command h = (c ∷ s, h)
send_request-from (none ∷ answers) out (c ∷ s) command h = (c ∷ s, h)
send_request-from (some n ∷ answers) out (c ∷ s) command h =
    elim (Bool-cases (ltb (length (c ∷ s)) n)) [
      | inl e ↦ rw e tt
      | inr e ↦ rw e (
          send_request-from answers (out ++ take n (c ∷ s)) (drop n (c ∷ s)) command (
            append_assoc out (take n (c ∷ s)) (drop n (c ∷ s))
            ∙ ap (λ t. out ++ t) (take-append-drop n (c ∷ s))
            ∙ h))
    ]

-- However the kernel splits the sends of `send_request_to_daemon`, what has gone out when the loop stops is the beginning of the request, byte for byte and in order, and it is the whole request where the loop ends by its test.
pub send_request_lem :
    (answers : List (Option ℕ)) (command : Bytes) → SentOf command (send_request answers [] command)
send_request_lem answers command = send_request-from answers [] command command refl
