-- ===== src/Agent/Invariant/Resume.antt =====
-- agent/qrexec-agent.c: the end of the session's child, when every waiting request is handled.
use qubes_core_qrexec.Prelude.{
  ℕ, zero, suc, ◌+◌, ◌<◌, ◌≡◌, refl, ◌∙◌, inl, inr, Option, none, some, arith, ◌==◌, if◌then◌else◌,
  Bool-cases, Option-cases, first_from,
}
use qubes_core_qrexec.Protocol.{max_fds}
use qubes_core_qrexec.Agent.State.{WaitingRequest, Agent, Outside}
use qubes_core_qrexec.Agent.Connections.{is_free, register_vchan_connection}
use qubes_core_qrexec.Agent.Events.{resume_slot, resume_waiting, session_ready}
use qubes_core_qrexec.Agent.Invariant.{HasChild, IsStable, exec_request-keeps}
use qubes_core_qrexec.Agent.Invariant.Kept.{IsKept}

-- The waiting requests of two states are the same.
abbrev SameRequests : Agent → Agent → Type 0
SameRequests a b = b.requests_waiting_for_session ≡ a.requests_waiting_for_session

register-SameRequests :
    (a : Agent) (pid fd : Option ℕ) (domain port : ℕ) (b : Agent)
    → SameRequests a b
    → SameRequests a (register_vchan_connection pid fd domain port b)
unfolding register_vchan_connection
register-SameRequests a pid fd domain port b h =
    elim (Option-cases (first_from (λ i. is_free (b.connection_info i)) 1 max_fds max_fds 0)) [
      | inl e ↦ rw (e, register_vchan_connection) h
      | inr (i, e) ↦ rw (e, register_vchan_connection) h
    ]

SameRequests-IsStable : (a : Agent) → IsStable (SameRequests a)
SameRequests-IsStable a = record {
  registers = λ pid fd domain port b _ h. register-SameRequests a pid fd domain port b h;
  quiet = λ b w c p h. h;
}

-- Handling the request of one slot clears it, and leaves the others.
resume_slot_lem :
    (outside : Outside) (id : ℕ) (w : Option WaitingRequest) (a : Agent)
    → HasChild outside
    → a.requests_waiting_for_session id ≡ w
    → (j : ℕ)
    → (resume_slot outside id w a).requests_waiting_for_session j
      ≡ (if j == id then none else a.requests_waiting_for_session j)
unfolding resume_slot
resume_slot_lem outside id none a c e j = elim (Bool-cases (j == id)) [
  | inl q ↦ let p : j ≡ id = ground arith in rw (q, p, e) refl
  | inr q ↦ rw q refl
]
resume_slot_lem outside id (some w) a c e j =
    rw
      (exec_request-keeps (SameRequests a) (SameRequests-IsStable a) outside w.type w.cmd w.params a
        c refl)
      refl

-- After the loop the slots of its range are empty.
resume_waiting-clears :
    (outside : ℕ → Outside) (n id : ℕ) (a : Agent) (j : ℕ)
    → ((i : ℕ) → HasChild (outside i))
    → j < id + n
    → (j < id → a.requests_waiting_for_session j ≡ none)
    → (resume_waiting outside n id a).requests_waiting_for_session j ≡ none
unfolding resume_waiting
resume_waiting-clears outside zero id a j c u h = h (omega arith)
resume_waiting-clears outside (suc n) id a j c u h =
    resume_waiting-clears outside n (id + 1) _ j c (omega arith) (λ v.
      let step =
        resume_slot_lem (outside id) id (a.requests_waiting_for_session id) a (c id) refl j in
      elim (Bool-cases (j == id)) [
        | inl e ↦ step ∙ rw e refl
        | inr e ↦ step ∙ rw e (h (ground arith))
      ])

module _ (P : Agent → Type 0) (kept : IsKept P) (outside : ℕ → Outside)
    (children : (i : ℕ) → HasChild (outside i)) where
  open kept use {stable, clears_request, ends_session}

  resume_slot-keeps :
      (id : ℕ) (w : Option WaitingRequest) (a : Agent) → P a → P (resume_slot (outside id) id w a)
  unfolding resume_slot
  resume_slot-keeps id none a h = h
  resume_slot-keeps id (some w) a h =
      clears_request _ id
        (exec_request-keeps P stable (outside id) w.type w.cmd w.params a (children id) h)

  resume_waiting-keeps : (n id : ℕ) (a : Agent) → P a → P (resume_waiting outside n id a)
  unfolding resume_waiting
  resume_waiting-keeps zero id a h = h
  resume_waiting-keeps (suc n) id a h =
      resume_waiting-keeps n (id + 1) _
        (resume_slot-keeps id (a.requests_waiting_for_session id) a h)

  pub session_ready-keeps : (a : Agent) → P a → P (session_ready outside a)
  unfolding session_ready
  session_ready-keeps a h =
      ends_session _
        (λ i u.
          resume_waiting-clears outside max_fds 0 a i children (omega arith)
            (λ v. absurd (omega arith)))
        (resume_waiting-keeps max_fds 0 a h)
