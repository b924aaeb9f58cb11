-- ===== src/Agent/Invariant/Sessions.antt =====
-- agent/qrexec-agent.c: the requests that wait for the session.
use qubes_core_qrexec.Prelude.{
  ℕ, ◌<◌, ◌≡◌, refl, ◌≢◌, inl, inr, Option, none, some, arith, ◌==◌, Bool-cases, Option-cases,
  update, first_from,
}
use qubes_core_qrexec.Protocol.{max_fds}
use qubes_core_qrexec.Agent.State.{WaitingRequest, Agent}
use qubes_core_qrexec.Agent.Connections.{is_free, register_vchan_connection}
use qubes_core_qrexec.Agent.Invariant.Kept.{IsGuiRequest, IsKept}

-- A slot that holds a request is in the table, the child that waits for the session runs, and the
-- request is one that may wait.
pub record SessionsValid (requests : ℕ → Option WaitingRequest) (session : Option ℕ) : Type 0 where
  pub in_range : (i : ℕ) → requests i ≢ none → i < max_fds
  pub running : (i : ℕ) → requests i ≢ none → session ≢ none
  pub gui : (i : ℕ) (w : WaitingRequest) → requests i ≡ some w → IsGuiRequest w

abbrev pub HasSessions : Agent → Type 0
HasSessions a = SessionsValid a.requests_waiting_for_session a.wait_for_session_pid

register-HasSessions :
    (pid fd : Option ℕ) (domain port : ℕ) (a : Agent)
    → HasSessions a
    → HasSessions (register_vchan_connection pid fd domain port a)
unfolding register_vchan_connection
register-HasSessions pid fd domain port a h =
    elim (Option-cases (first_from (λ i. is_free (a.connection_info i)) 1 max_fds max_fds 0)) [
      | inl e ↦ rw (e, register_vchan_connection) h
      | inr (i, e) ↦ rw (e, register_vchan_connection) h
    ]

keeps-HasSessions :
    (a : Agent) (i : ℕ) (w : WaitingRequest)
    → i < max_fds
    → a.wait_for_session_pid ≢ none
    → IsGuiRequest w
    → HasSessions a
    → SessionsValid (update a.requests_waiting_for_session i (some w)) a.wait_for_session_pid
keeps-HasSessions a i w u r g h = record {
  in_range =
      λ j n. elim (Bool-cases (j == i)) [ inl e ↦ ground arith | inr e ↦ h.in_range j (rw e at n) ];
  running = λ j n. r;
  gui = λ j v q. elim (Bool-cases (j == i)) [
    | inl e ↦ let p : w ≡ v = cc (rw e at q) in rw (← p) g
    | inr e ↦ h.gui j v (rw e at q)
  ];
}

clears-HasSessions :
    (a : Agent) (i : ℕ)
    → HasSessions a
    → SessionsValid (update a.requests_waiting_for_session i none) a.wait_for_session_pid
clears-HasSessions a i h = record {
  in_range = λ j n. elim (Bool-cases (j == i)) [
    | inl e ↦ absurd (rw e at n refl)
    | inr e ↦ h.in_range j (rw e at n)
  ];
  running = λ j n. elim (Bool-cases (j == i)) [
    | inl e ↦ absurd (rw e at n refl)
    | inr e ↦ h.running j (rw e at n)
  ];
  gui = λ j v q. elim (Bool-cases (j == i)) [
    | inl e ↦ absurd (cc (rw e at q))
    | inr e ↦ h.gui j v (rw e at q)
  ];
}

ends-HasSessions :
    (a : Agent)
    → ((i : ℕ) → i < max_fds → a.requests_waiting_for_session i ≡ none)
    → HasSessions a
    → SessionsValid a.requests_waiting_for_session none
ends-HasSessions a empty h = record {
  in_range = h.in_range;
  running = λ i n. absurd (n (empty i (h.in_range i n)));
  gui = h.gui;
}

pub HasSessions-IsKept : IsKept HasSessions
HasSessions-IsKept = record {
  stable = record {
    registers = λ pid fd domain port a _ h. register-HasSessions pid fd domain port a h;
    quiet = λ a w c p h. h;
  };
  receives = λ a s woken signals h. h;
  starts_session =
      λ a pid e h. record { in_range = h.in_range; running = λ i n q. cc q; gui = h.gui };
  keeps_request = keeps-HasSessions;
  clears_request = clears-HasSessions;
  ends_session = ends-HasSessions;
}
