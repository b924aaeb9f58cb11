-- ===== src/Agent/Invariant/Reached.antt =====
-- agent/qrexec-agent.c: what holds of the states that the loop of `main` reaches.
use qubes_core_qrexec.Prelude.{
  ℕ, ◌<◌, ◌≡◌, refl, ◌≢◌, inl, inr, Bool, true, false, Option, none, some, List, arith, ◌==◌,
  Bool-cases, Option-cases, Bytes, first_from-found,
}
use qubes_core_qrexec.Protocol.{
  max_fds, MsgHeader, sizeof_header, header_bytes, header_at, read_exact,
}
use qubes_core_qrexec.Agent.State.{Connection, Agent, done, vchan_send_or_exit}
use qubes_core_qrexec.Agent.Connections.{
  has_pid, is_free, find_connection, terminated_message, terminate_connection, free_connection,
  release_connection, handle_terminated_fork_client,
}
use qubes_core_qrexec.Agent.Events.{
  with_ident, is_bad_trigger, forward_trigger, check_trigger, handle_trigger_io, start,
}
use qubes_core_qrexec.Agent.Invariant.{Returns, Returns-bind}
use qubes_core_qrexec.Agent.Invariant.Accounts.{IsBalanced, IsBalanced-IsStable, live_count_empty}
use qubes_core_qrexec.Agent.Invariant.Ends.{
  Returns-send, release_connection-IsBalanced, fork_client-IsBalanced, trigger_io-IsBalanced,
}
use qubes_core_qrexec.Agent.Invariant.Leak.{Holds, Holds-IsKept}
use qubes_core_qrexec.Agent.Invariant.Steps.{IsInvariant, Reach, Reach-keeps}

-- A predicate that does not look at what is sent and closed.
abbrev IsQuiet : (Agent → Type 0) → Type 0
IsQuiet P =
    (a : Agent) (sent : List Bytes) (results : List Bool) (closed : List ℕ)
    → P a
    → P (record a { vchan_sent = sent; send_results = results; closed = closed })

module _ (P : Agent → Type 0) (quiet : IsQuiet P) where
  send-quiet : (s : Bytes) (a : Agent) → P a → Returns P (vchan_send_or_exit s a)
  send-quiet s a h = Returns-send P s a (λ results. quiet a _ results a.closed h)

  forward-quiet :
      (fd : ℕ) (hdr : MsgHeader) (r : Option (Bytes × Bytes)) (a : Agent)
      → P a
      → Returns P (forward_trigger fd hdr r a)
  unfolding forward_trigger
  forward-quiet fd hdr none a h = quiet a a.vchan_sent a.send_results _ h
  forward-quiet fd hdr (some (params, rest)) a h =
      Returns-bind P P _ _ (send-quiet (header_bytes hdr) a h)
        (λ b hb. send-quiet (with_ident fd params) b hb)

  check-quiet :
      (fd : ℕ) (r : Option (Bytes × Bytes)) (a : Agent) → P a → Returns P (check_trigger fd r a)
  unfolding check_trigger
  check-quiet fd none a h = quiet a a.vchan_sent a.send_results _ h
  check-quiet fd (some (s, rest)) a h = elim (Bool-cases (is_bad_trigger (header_at s))) [
    | inl e ↦ rw e (quiet a a.vchan_sent a.send_results _ h)
    | inr e ↦ rw e (forward-quiet fd (header_at s) (read_exact (header_at s).len rest) a h)
  ]

  trigger-quiet :
      (client : Option ℕ) (request : Bytes) (a : Agent)
      → P a
      → Returns P (handle_trigger_io client request a)
  unfolding handle_trigger_io
  trigger-quiet none request a h = h
  trigger-quiet (some fd) request a h = check-quiet fd (read_exact sizeof_header request) a h

  release-quiet :
      (id : ℕ) (a : Agent)
      → ((b : Agent) → P b → P (free_connection id b))
      → P a
      → Returns P (release_connection id a)
  unfolding release_connection terminate_connection
  release-quiet id a free h =
      Returns-bind P P _ (λ b. done (free_connection id b)) (send-quiet _ a h) (λ b hb. free b hb)

  ended-quiet :
      (id : ℕ) (a : Agent)
      → ((b : Agent) → P b → P (free_connection id b))
      → P a
      → Returns P (handle_terminated_fork_client id a)
  unfolding handle_terminated_fork_client
  ended-quiet id a free h = elim (Option-cases (a.connection_info id).fd) [
    | inl e ↦ rw (e, handle_terminated_fork_client) (release-quiet id a free h)
    | inr (fd, e) ↦
        rw (e, handle_terminated_fork_client)
          (release-quiet id _ free (quiet a a.vchan_sent a.send_results _ h))
  ]

live_of_find : (pid : ℕ) (c : Connection) → pid ≢ 0 → has_pid pid c ≡ true → is_free c ≡ false
live_of_find pid c z h = ground arith

found_connection :
    (pid id : ℕ) (a : Agent)
    → find_connection pid a ≡ some id
    → (id < max_fds) × (has_pid pid (a.connection_info id) ≡ true)
unfolding find_connection
found_connection pid id a e =
    let f = first_from-found (λ i. has_pid pid (a.connection_info i)) 1 max_fds max_fds 0 id e in
    (f.1, f.2)

IsBalanced-IsInvariant : IsInvariant IsBalanced
IsBalanced-IsInvariant = record {
  kept = record {
    stable = IsBalanced-IsStable;
    receives = λ a s woken signals h. h;
    starts_session = λ a pid e h. h;
    keeps_request = λ a i w u r g h. h;
    clears_request = λ a i h. h;
    ends_session = λ a e h. h;
  };
  child_ended = λ pid id a z e h.
      let f = found_connection pid id a e in
      release_connection-IsBalanced id a f.0 (live_of_find pid (a.connection_info id) z f.1) h;
  fork_client = λ id fd a u live f h. fork_client-IsBalanced id a u live h;
  trigger_io = trigger_io-IsBalanced;
  outside = λ incoming results a h. h;
}

module _ (i : ℕ) (c : Connection) where
  Holds-quiet : IsQuiet (Holds i c)
  Holds-quiet a sent results closed h = record { leaked = h.leaked; entry = h.entry }

  Holds-free : (id : ℕ) → i ≢ id → (b : Agent) → Holds i c b → Holds i c (free_connection id b)
  Holds-free id n b h =
      let e : (i == id) ≡ false = ground arith in record { leaked = h.leaked; entry = rw e h.entry }

  -- The leaked entry has no pid and no descriptor to be found by.
  other_pid :
      (pid id : ℕ) (a : Agent)
      → has_pid pid (a.connection_info id) ≡ true
      → i ≡ id
      → Holds i c a
      → ⊥
  other_pid pid id a f q h =
      let n : (a.connection_info id).pid ≡ none = rw (← q) (rw h.entry h.leaked.no_pid) in
      cc (rw n at f)

  other_fd :
      (id fd : ℕ) (a : Agent) → (a.connection_info id).fd ≡ some fd → i ≡ id → Holds i c a → ⊥
  other_fd id fd a f q h =
      let n : (a.connection_info id).fd ≡ none = rw (← q) (rw h.entry h.leaked.no_fd) in cc (n, f)

  Holds-IsInvariant : IsInvariant (Holds i c)
  Holds-IsInvariant = record {
    kept = Holds-IsKept i c;
    child_ended = λ pid id a z e h.
        let f = found_connection pid id a e in
        release-quiet (Holds i c) Holds-quiet id a (Holds-free id (λ q. other_pid pid id a f.1 q h))
          h;
    fork_client = λ id fd a u live f h.
        ended-quiet (Holds i c) Holds-quiet id a (Holds-free id (λ q. other_fd id fd a f q h)) h;
    trigger_io = λ client request a h. trigger-quiet (Holds i c) Holds-quiet client request a h;
    outside = λ incoming results a h. record { leaked = h.leaked; entry = h.entry };
  }

start-IsBalanced : IsBalanced start
start-IsBalanced d t =
    rw (live_count_empty (terminated_message d t) start.connection_info max_fds (λ i. refl)) refl

-- In every state that the agent's loop reaches, MSG_CONNECTION_TERMINATED has been sent for a domain and a port as often as a connection of theirs was registered, less the number of entries of the table that are still live with this domain and port: the end of each connection is reported exactly once, and not before it has left the table.
pub connections-IsBalanced : (a : Agent) → Reach start a → IsBalanced a
connections-IsBalanced a r =
    Reach-keeps IsBalanced IsBalanced-IsInvariant start a r start-IsBalanced

-- The entry of a process that could not be forked, with a pid of -1 and no descriptor, stays in the table in every state that the agent's loop reaches from there: the slot is lost for good.
pub leaked_connection-stays :
    (a a' : Agent) (i : ℕ)
    → Reach a a'
    → (a.connection_info i).pid ≡ none
    → (a.connection_info i).fd ≡ none
    → a'.connection_info i ≡ a.connection_info i
leaked_connection-stays a a' i r p f =
    (Reach-keeps (Holds i (a.connection_info i)) (Holds-IsInvariant i (a.connection_info i)) a a' r
      (record { leaked = record { no_pid = p; no_fd = f }; entry = refl })).entry
