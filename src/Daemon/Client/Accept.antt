-- ===== src/Daemon/Client/Accept.antt =====
-- Which requests `accept_request` lets through.
use qubes_core_qrexec.Prelude.{
  ℕ, ◌<◌, ◌≡◌, refl, sym, ap, ◌∙◌, ◌≢◌, inl, inr, Bool, true, not, ◌&&◌, some, arith, ◌==◌,
  Option-cases, length, Bytes, first_from-found,
}
use qubes_core_qrexec.Daemon.State.{PolicyResponse, pending, allow, deny, malformed, Daemon}
use qubes_core_qrexec.Protocol.{msg_service_connect, MsgHeader, ExecParams}
use qubes_core_qrexec.Daemon.Pending.{is_pending, set_response}
use qubes_core_qrexec.Daemon.Client.{strncmp_eq, find_request, accept_request}

-- A slot that waits for an answer and carries an identifier.
pub record Waits (ident : Bytes) (d : Daemon) (i : ℕ) : Type 0 where
  pub in_table : i < d.pending_bound
  pub has_child : (d.policy_pending i).pid ≢ 0
  pub unanswered : (d.policy_pending i).response_sent ≡ pending
  pub same_ident : strncmp_eq (length ident) (d.policy_pending i).params ident ≡ true

is_pending_sound : (r : PolicyResponse) → is_pending r ≡ true → r ≡ pending
is_pending_sound pending h = refl
is_pending_sound allow h = absurd (cc h)
is_pending_sound deny h = absurd (cc h)
is_pending_sound malformed h = absurd (cc h)

find_request-Waits :
    (buf : Bytes) (d : Daemon) (i : ℕ) → find_request buf d ≡ some i → Waits buf d i
unfolding find_request
find_request-Waits buf d i h =
    let test : ℕ → Bool = (λ i.
      not ((d.policy_pending i).pid == 0)
      && is_pending (d.policy_pending i).response_sent
      && strncmp_eq (length buf) (d.policy_pending i).params buf) in
    let (lo, hi, t) = first_from-found test 1 d.pending_bound d.pending_bound 0 i h in
    record {
      in_table = hi;
      has_child = ground arith;
      unanswered = is_pending_sound (d.policy_pending i).response_sent (ground arith);
      same_ident = ground arith;
    }

-- A MSG_SERVICE_CONNECT is let through only for a request that waits in the table with its identifier and has no answer yet, and that request is then marked as allowed, so that it does not wait any more.
pub accept_request-Waits :
    (hdr : MsgHeader) (params : ExecParams) (d d' : Daemon)
    → hdr.type ≡ msg_service_connect
    → accept_request hdr params d ≡ some d'
    → (i : ℕ) × Waits params.cmdline d i
      × (d' ≡ set_response i allow d)
      × ¬ Waits params.cmdline d' i
unfolding accept_request
accept_request-Waits hdr params d d' t h =
    let c : (hdr.type == msg_service_connect) ≡ true = ground arith in
    elim (Option-cases (find_request params.cmdline d)) [
      | inl e ↦ absurd (cc (rw (accept_request, c, e) at h))
      | inr (i, e) ↦
          let q : set_response i allow d ≡ d' = cc (rw (accept_request, c, e) at h) in
          (
            i,
            find_request-Waits params.cmdline d i e,
            sym q,
            λ w.
                let answered : ((set_response i allow d).policy_pending i).response_sent ≡ allow =
                  ground arith in
                let z : allow ≡ pending =
                  sym answered ∙ (ap (λ x. (x.policy_pending i).response_sent) q ∙ w.unanswered) in
                cc z,
          )
    ]
