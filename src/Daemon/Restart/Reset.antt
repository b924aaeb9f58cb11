-- ===== src/Daemon/Restart/Reset.antt =====
-- What a restart of the agent leaves.
use qubes_core_qrexec.Prelude.{
  ℕ, zero, suc, ◌+◌, ◌<◌, ◌≡◌, refl, inl, inr, true, arith, ◌==◌, Bool-cases,
}
use qubes_core_qrexec.Daemon.State.{
  ClientState, invalid, hello, cmdline, running, max_clients, Daemon,
}
use qubes_core_qrexec.Daemon.Ports.{terminate_client}
use qubes_core_qrexec.Daemon.Invariant.{
  Tables, tables, Leaves, returns, Ensures-bind, Ensures-option_step,
}
use qubes_core_qrexec.Daemon.Invariant.Effects.{Leaves-handle_agent_hello}
use qubes_core_qrexec.Daemon.Restart.{
  is_invalid, terminate_clients, abort_requests, Reconnect, terminating, refused, connected,
  reconnect, handle_agent_restart,
}

-- No client and no waiting request is left, and the version of the protocol is `version`.
pub record IsReset (version : ℕ) (t : Tables) : Type 0 where
  pub no_client : (fd : ℕ) → fd < max_clients → t.clients fd ≡ invalid
  pub no_request : (i : ℕ) → (t.policy_pending i).pid ≡ 0
  pub no_bound : t.pending_bound ≡ 0
  pub same_version : t.version ≡ version

is_invalid_sound : (s : ClientState) → is_invalid s ≡ true → s ≡ invalid
is_invalid_sound invalid h = refl
is_invalid_sound hello h = absurd (cc h)
is_invalid_sound cmdline h = absurd (cc h)
is_invalid_sound running h = absurd (cc h)

terminate_clients-invalid :
    (n i fd : ℕ) (d : Daemon)
    → fd < i + n
    → (fd < i → d.clients fd ≡ invalid)
    → (terminate_clients n i d).clients fd ≡ invalid
unfolding terminate_clients terminate_client
terminate_clients-invalid zero i fd d u h = h (omega arith)
terminate_clients-invalid (suc n) i fd d u h =
    terminate_clients-invalid n (i + 1) fd _ (omega arith) (λ v.
      elim (Bool-cases (is_invalid (d.clients i))) [
        | inl e ↦ rw e (elim (Bool-cases (fd == i)) [
          | inl q ↦ (let p : fd ≡ i = ground arith in rw p (is_invalid_sound (d.clients i) e))
          | inr q ↦ h (ground arith)
        ])
        | inr e ↦
            rw e
              (elim (Bool-cases (fd == i)) [ inl q ↦ rw q refl | inr q ↦ rw q (h (ground arith)) ])
      ])

terminate_clients-version :
    (n i : ℕ) (d : Daemon) → (terminate_clients n i d).protocol_version ≡ d.protocol_version
unfolding terminate_clients terminate_client
terminate_clients-version zero i d = refl
terminate_clients-version (suc n) i d = elim (Bool-cases (is_invalid (d.clients i))) [
  | inl e ↦ rw (terminate_clients, e) (terminate_clients-version n (i + 1) d)
  | inr e ↦ rw (terminate_clients, e) (terminate_clients-version n (i + 1) (terminate_client i d))
]

Leaves-reconnect :
    {P : Tables → Type 0} (outside : Reconnect) (d : Daemon)
    → P (tables d)
    → Leaves P (reconnect outside d)
Leaves-reconnect terminating d h = returns h
Leaves-reconnect refused d h = returns h
Leaves-reconnect {P = P} (connected incoming) d h =
    Ensures-bind {Q = λ _. P} _ _ (returns h) (λ _ d' h'.
      Ensures-bind _ _ (Leaves-handle_agent_hello d' h')
        (λ version d'' h''. Ensures-option_step version _ _ (returns h'') (λ _ _. returns h'')))

-- However the reconnection goes, a restart leaves no client and no waiting request, and the daemon keeps the version of the protocol that it had agreed on with the agent before, not the one that the new agent's HELLO leads to.
pub handle_agent_restart-IsReset :
    (outside : Reconnect) (d : Daemon)
    → Leaves (IsReset d.protocol_version) (handle_agent_restart outside d)
unfolding handle_agent_restart abort_requests
handle_agent_restart-IsReset outside d =
    Ensures-bind {Q = λ _. IsReset d.protocol_version} _ _
      (returns (record {
        no_client = λ fd u.
            terminate_clients-invalid max_clients 0 fd d (omega arith) (λ v. absurd (omega arith));
        no_request = λ i. refl;
        no_bound = refl;
        same_version = terminate_clients-version max_clients 0 d;
      }))
      (λ _ d' h. Leaves-reconnect outside d' h)
