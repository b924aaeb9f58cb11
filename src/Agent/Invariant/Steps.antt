-- ===== src/Agent/Invariant/Steps.antt =====
-- agent/qrexec-agent.c, the loop of `main`: its events as steps, and what holds of every state that
-- they reach.
use qubes_core_qrexec.Prelude.{
  ℕ, ◌<◌, ◌≡◌, ◌≢◌, inl, inr, Bool, false, Option, some, List, [], ◌∷◌, Bool-cases, Option-cases,
  All, Bytes,
}
use qubes_core_qrexec.Protocol.{max_fds}
use qubes_core_qrexec.Agent.State.{Agent, Outside, done}
use qubes_core_qrexec.Agent.Connections.{
  is_free, find_connection, release_connection, handle_terminated_fork_client,
}
use qubes_core_qrexec.Agent.Requests.{handle_server_cmd}
use qubes_core_qrexec.Agent.Events.{is_session, reap_child, reap_children, handle_trigger_io}
use qubes_core_qrexec.Agent.Invariant.{HasChild, Returns, Returns-bind, Returns-done}
use qubes_core_qrexec.Agent.Invariant.Kept.{IsKept, server_cmd-keeps}
use qubes_core_qrexec.Agent.Invariant.Resume.{session_ready-keeps}

-- What `waitpid` reports is a child, and `fork` gives no parent a child 0.
pub record IsReport (r : ℕ × (ℕ → Outside)) : Type 0 where
  pub is_child : r.0 ≢ 0
  pub children : (i : ℕ) → HasChild (r.1 i)

-- One event of the loop. `ppoll` looks at the descriptors of live connections only; `arrival` is
-- what the outside does in between.
pub data Step : Agent → Agent → Type 0 where
  children_exited :
      (children : List (ℕ × (ℕ → Outside))) {a a' : Agent}
      → All IsReport children
      → reap_children children a ≡ done a'
      → Step a a'
  fork_client_ended :
      (id fd : ℕ) {a a' : Agent}
      → id < max_fds
      → is_free (a.connection_info id) ≡ false
      → (a.connection_info id).fd ≡ some fd
      → handle_terminated_fork_client id a ≡ done a'
      → Step a a'
  server_message :
      (outside : Outside) {a a' : Agent}
      → HasChild outside
      → handle_server_cmd outside a ≡ done a'
      → Step a a'
  trigger :
      (client : Option ℕ) (request : Bytes) {a a' : Agent}
      → handle_trigger_io client request a ≡ done a'
      → Step a a'
  arrival :
      (incoming : Bytes) (results : List Bool) {a : Agent}
      → Step a (record a { vchan_incoming = incoming; send_results = results })

pub data Reach (s : Agent) : Agent → Type 0 where
  here : Reach s s
  next : {a a' : Agent} → Reach s a → Step a a' → Reach s a'

-- What is needed besides `IsKept`: the ends of connections, and sends.
pub record IsInvariant (P : Agent → Type 0) : Type 0 where
  pub kept : IsKept P
  pub child_ended :
      (pid id : ℕ) (a : Agent)
      → pid ≢ 0
      → find_connection pid a ≡ some id
      → P a
      → Returns P (release_connection id a)
  pub fork_client :
      (id fd : ℕ) (a : Agent)
      → id < max_fds
      → is_free (a.connection_info id) ≡ false
      → (a.connection_info id).fd ≡ some fd
      → P a
      → Returns P (handle_terminated_fork_client id a)
  pub trigger_io :
      (client : Option ℕ) (request : Bytes) (a : Agent)
      → P a
      → Returns P (handle_trigger_io client request a)
  pub outside :
      (incoming : Bytes) (results : List Bool) (a : Agent)
      → P a
      → P (record a { vchan_incoming = incoming; send_results = results })

module _ (P : Agent → Type 0) (inv : IsInvariant P) where
  open inv use {kept, child_ended, fork_client, trigger_io}

  reap_child-keeps :
      (outside : ℕ → Outside) (pid : ℕ) (a : Agent)
      → pid ≢ 0
      → ((i : ℕ) → HasChild (outside i))
      → P a
      → Returns P (reap_child outside pid a)
  unfolding reap_child
  reap_child-keeps outside pid a z c h = elim (Bool-cases (is_session pid a)) [
    | inl e ↦ rw e (session_ready-keeps P kept outside c a h)
    | inr e ↦ elim (Option-cases (find_connection pid a)) [
      | inl q ↦ rw (e, q, reap_child) h
      | inr (id, q) ↦ rw (e, q, reap_child) (child_ended pid id a z q h)
    ]
  ]

  reap_children-keeps :
      (children : List (ℕ × (ℕ → Outside))) (a : Agent)
      → All IsReport children
      → P a
      → Returns P (reap_children children a)
  unfolding reap_children
  reap_children-keeps [] a r h = h
  reap_children-keeps ((pid, outside) ∷ children) a r h =
      Returns-bind P P (reap_child outside pid a) (reap_children children)
        (reap_child-keeps outside pid a r.0.is_child r.0.children h)
        (λ b hb. reap_children-keeps children b r.1 hb)

  Step-keeps : (a a' : Agent) → Step a a' → P a → P a'
  Step-keeps a a' (children_exited children r q) h =
      Returns-done P _ a' (reap_children-keeps children a r h) q
  Step-keeps a a' (fork_client_ended id fd u live f q) h =
      Returns-done P _ a' (fork_client id fd a u live f h) q
  Step-keeps a a' (server_message outside c q) h =
      Returns-done P _ a' (server_cmd-keeps P kept outside c a h) q
  Step-keeps a a' (trigger client request q) h =
      Returns-done P _ a' (trigger_io client request a h) q
  Step-keeps a _ (arrival incoming results) h = inv.outside incoming results a h

  pub Reach-keeps : (s a : Agent) → Reach s a → P s → P a
  Reach-keeps s _ here h = h
  Reach-keeps s a' (next {a = a} r st) h = Step-keeps a a' st (Reach-keeps s a r h)
