-- ===== src/Daemon/Sanitize/RequestId.antt =====
-- Which request identifiers `validate_request_id` accepts.
use qubes_core_qrexec.Prelude.{
  ℕ, zero, suc, ◌≡◌, refl, ap, ◌↔◌, inl, inr, true, [], ◌∷◌, ◌++◌, arith, ◌==◌, Bool-cases, length,
  replicate, All, Bytes,
}
use qubes_core_qrexec.Daemon.Sanitize.{is_ident_byte, all_nul, validate_request_id}

-- A name of the allowed bytes, then NUL up to the end of the array.
pub record IsRequestId (ident : Bytes) : Type 0 where
  pub name : Bytes
  pub padding : ℕ
  pub is_padded : ident ≡ name ++ replicate (suc padding) 0
  pub allowed : All (λ c. is_ident_byte c ≡ true) name

all_nul-replicate : (s : Bytes) → all_nul s ≡ true → s ≡ replicate (length s) 0
unfolding all_nul
all_nul-replicate [] h = refl
all_nul-replicate (c ∷ s) h = ground (arith, all_nul-replicate s)

replicate-all_nul : (n : ℕ) → all_nul (replicate n 0) ≡ true
unfolding all_nul
replicate-all_nul zero = refl
replicate-all_nul (suc n) = replicate-all_nul n

sound : (s : Bytes) → validate_request_id s ≡ true → IsRequestId s
unfolding validate_request_id
sound [] h = cc
sound (c ∷ s) h = elim (Bool-cases (is_ident_byte c)) [
  | inl e ↦
      let r = sound s (rw e at h) in
      record {
        name = c ∷ r.name;
        padding = r.padding;
        is_padded = ap (◌∷◌ c) r.is_padded;
        allowed = (e, r.allowed);
      }
  | inr e ↦ elim (Bool-cases (c == 0)) [
    | inl z ↦ record {
      name = [];
      padding = length s;
      is_padded = ground (arith, all_nul-replicate s);
      allowed = tt;
    }
    | inr z ↦ absurd (cc (rw (e, z) at h))
  ]
]

complete_at :
    (name : Bytes) (n : ℕ)
    → All (λ c. is_ident_byte c ≡ true) name
    → validate_request_id (name ++ replicate (suc n) 0) ≡ true
unfolding validate_request_id
complete_at [] n a = replicate-all_nul n
complete_at (c ∷ name) n a = rw a.0 (complete_at name n a.1)

-- `validate_request_id` accepts an identifier exactly when it is a run of letters, digits, `_`, `-`, `.` and spaces, followed by at least one NUL and nothing but NUL up to the end of the array.
pub validate_request_id_iff : (s : Bytes) → (validate_request_id s ≡ true) ↔ IsRequestId s
validate_request_id_iff s = (sound s, λ r. rw r.is_padded (complete_at r.name r.padding r.allowed))
