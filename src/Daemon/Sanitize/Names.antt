-- ===== src/Daemon/Sanitize/Names.antt =====
-- What `sanitize_name` and `validate_service_name` leave of a name.
use qubes_core_qrexec.Prelude.{
  ℕ, suc, ◌≡◌, refl, ap, ◌≢◌, inl, inr, true, false, some, [], ◌∷◌, arith, ◌==◌, Bool-cases, length,
  All, Bytes, starts_with,
}
use qubes_core_qrexec.Daemon.Sanitize.{is_allowed, sanitize_name, validate_service_name}

pub sanitize_name-allowed :
    (extra s : Bytes)
    → is_allowed extra b'_' ≡ true
    → All (λ c. is_allowed extra c ≡ true) (sanitize_name extra s)
unfolding sanitize_name
sanitize_name-allowed extra [] u = tt
sanitize_name-allowed extra (c ∷ s) u = (
  elim (Bool-cases (is_allowed extra c)) [ inl e ↦ rw (e, e) | inr e ↦ rw e u ],
  sanitize_name-allowed extra s u,
)

underscore-allowed : (extra : Bytes) → is_allowed extra b'_' ≡ true
unfolding is_allowed
underscore-allowed extra = refl

length-sanitize_name : (extra s : Bytes) → length (sanitize_name extra s) ≡ length s
unfolding sanitize_name
length-sanitize_name extra [] = refl
length-sanitize_name extra (c ∷ s) = ap suc (length-sanitize_name extra s)

pub sanitize_name_id :
    (extra s : Bytes) → All (λ c. is_allowed extra c ≡ true) s → sanitize_name extra s ≡ s
unfolding sanitize_name
sanitize_name_id extra [] a = refl
sanitize_name_id extra (c ∷ s) a = rw (a.0, sanitize_name_id extra s a.1)

-- `sanitize_name` returns a name of the same length, each byte of it a letter, a digit, one of `_-.` or an extra character; applied again it changes nothing.
pub sanitize_name_lem :
    (extra s : Bytes)
    → All (λ c. is_allowed extra c ≡ true) (sanitize_name extra s)
      × (length (sanitize_name extra s) ≡ length s)
      × (sanitize_name extra (sanitize_name extra s) ≡ sanitize_name extra s)
sanitize_name_lem extra s =
    let ok = sanitize_name-allowed extra s (underscore-allowed extra) in
    (ok, length-sanitize_name extra s, sanitize_name_id extra (sanitize_name extra s) ok)

-- What a service name that the daemon accepts is like.
pub record IsServiceName (s : Bytes) : Type 0 where
  pub nonempty : s ≢ []
  pub no_plus_first : starts_with (b'+' ∷ []) s ≡ false
  pub allowed : All (λ c. is_allowed (b'+' ∷ []) c ≡ true) s

-- If `validate_service_name` accepts a name, its result is not empty, does not begin with `+`, and
-- has only bytes that `sanitize_name` leaves as they are.
pub validate_service_name-IsServiceName :
    (s n : Bytes) → validate_service_name s ≡ some n → IsServiceName n
unfolding validate_service_name
validate_service_name-IsServiceName [] n h = cc
validate_service_name-IsServiceName (c ∷ s) n h = elim (Bool-cases (c == b'+')) [
  | inl e ↦ absurd (cc (rw e at h))
  | inr e ↦
      let ok = sanitize_name-allowed (b'+' ∷ []) (c ∷ s) (underscore-allowed (b'+' ∷ [])) in
      let h' : sanitize_name (b'+' ∷ []) (c ∷ s) ≡ n = cc (rw e at h) in
      rw (← h') (record { nonempty = λ q. cc q; no_plus_first = first c s e; allowed = ok })
]
  where
    first :
        (c : ℕ) (s : Bytes)
        → (c == b'+') ≡ false
        → starts_with (b'+' ∷ []) (sanitize_name (b'+' ∷ []) (c ∷ s)) ≡ false
    first c s e = ground arith
