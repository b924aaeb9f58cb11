-- ===== src/Daemon/Invariant/Steps.antt =====
-- daemon/qrexec-daemon.c, the loop of `main`: the rounds of the loop as steps, and what holds of
-- every state that they reach.
use qubes_core_qrexec.Prelude.{ℕ, ◌≡◌, ◌≢◌, Bool, true, Option, some, List, All, Bytes}
use qubes_core_qrexec.Daemon.State.{invalid, Daemon, Outcome, done, exit}
use qubes_core_qrexec.Daemon.Invariant.{
  tables, IsSafeRequest, ClientsValid, PendingValid, IsValid, Leaves, returns, exits,
}
use qubes_core_qrexec.Daemon.Invariant.Messages.{handle_message_from_agent-IsValid}
use qubes_core_qrexec.Daemon.Invariant.Requests.{reap_children-IsValid}
use qubes_core_qrexec.Daemon.Invariant.Sessions.{handle_message_from_client-IsValid}
use qubes_core_qrexec.Daemon.Invariant.Starts.{
  handle_new_client-IsValid, handle_agent_restart-IsValid, start-IsValid,
}
use qubes_core_qrexec.Daemon.Pending.{WaitStatus, reap_children}
use qubes_core_qrexec.Daemon.Agent.{handle_message_from_agent}
use qubes_core_qrexec.Daemon.Client.{handle_new_client, handle_message_from_client}
use qubes_core_qrexec.Daemon.Restart.{Reconnect, handle_agent_restart, start}

-- One event of the loop. `accept` returns a descriptor that is not open, and `pselect` reports the
-- descriptors of live clients only; `arrival` is what the outside does in between.
pub data Step : Daemon → Daemon → Type 0 where
  new_client :
      (fd : ℕ) {d d' : Daemon}
      → d.clients fd ≡ invalid
      → handle_new_client (some fd) d ≡ done tt d'
      → Step d d'
  client_message :
      (fd : ℕ) {d d' : Daemon}
      → d.clients fd ≢ invalid
      → handle_message_from_client fd d ≡ done tt d'
      → Step d d'
  agent_message :
      (fork : Option ℕ) {d d' : Daemon} → handle_message_from_agent fork d ≡ done tt d' → Step d d'
  children_exited :
      (children : List (ℕ × WaitStatus)) {d d' : Daemon}
      → reap_children children d ≡ done tt d'
      → Step d d'
  agent_restarted :
      (outside : Reconnect) {d d' : Daemon}
      → handle_agent_restart outside d ≡ done true d'
      → Step d d'
  arrival :
      (vchan : Bytes) (client : ℕ → Bytes) (writes : List Bool) {d : Daemon}
      → Step d
          (record d { vchan_incoming = vchan; client_incoming = client; write_results = writes })

pub data Reach (s : Daemon) : Daemon → Type 0 where
  here : Reach s s
  next : {d d' : Daemon} → Reach s d → Step d d' → Reach s d'

Leaves-done :
    {A : Type 0} (o : Outcome A) (a : A) (d : Daemon)
    → Leaves IsValid o
    → o ≡ done a d
    → IsValid (tables d)
Leaves-done (done b e) a d (returns h) q = let p : e ≡ d = cc q in rw (← p) h
Leaves-done (exit n e) a d (exits h) q = absurd (cc q)

-- Every event of the loop that does not end the process keeps both tables well formed and every request that was forked safe.
pub Step-IsValid : (d d' : Daemon) → Step d d' → IsValid (tables d) → IsValid (tables d')
Step-IsValid d d' (new_client fd free q) v =
    Leaves-done _ tt d' (handle_new_client-IsValid fd d free v) q
Step-IsValid d d' (client_message fd live q) v =
    Leaves-done _ tt d' (handle_message_from_client-IsValid fd d live v) q
Step-IsValid d d' (agent_message fork q) v =
    Leaves-done _ tt d' (handle_message_from_agent-IsValid fork d v) q
Step-IsValid d d' (children_exited children q) v =
    Leaves-done _ tt d' (reap_children-IsValid children d v) q
Step-IsValid d d' (agent_restarted outside q) v =
    Leaves-done _ true d' (handle_agent_restart-IsValid outside d v) q
Step-IsValid d _ (arrival vchan client writes) v = v

Reach-IsValid : (s d : Daemon) → Reach s d → IsValid (tables s) → IsValid (tables d)
Reach-IsValid s _ here v = v
Reach-IsValid s d' (next {d = d} r st) v = Step-IsValid d d' st (Reach-IsValid s d r v)

-- In every state that the loop reaches from the start, each request for which a child was forked has a target of allowed bytes, a service name that `validate_service_name` lets through and an identifier that `validate_request_id` accepts, whatever agents and clients send and in whatever order.
pub requests_safe :
    (remote version : ℕ) (user : Bytes) (d : Daemon)
    → Reach (start remote version user) d
    → All IsSafeRequest d.requests
requests_safe remote version user d r =
    (Reach-IsValid (start remote version user) d r (start-IsValid remote version user)).all_safe

-- In every state that the loop reaches from the start, the client to be told of a closed port is live, a live client's descriptor is below `max_client_fd + 1`, and that is at most the size of the array.
pub clients_well_formed :
    (remote version : ℕ) (user : Bytes) (d : Daemon)
    → Reach (start remote version user) d
    → ClientsValid d.clients d.client_bound d.vchan_port_notify_client
clients_well_formed remote version user d r =
    (Reach-IsValid (start remote version user) d r
      (start-IsValid remote version user)).clients_valid

-- In every state that the loop reaches from the start, each slot with a pid is below `policy_pending_max + 1`, where `reap_children` and MSG_SERVICE_CONNECT look for it, and that is at most the size of the array.
pub pending_well_formed :
    (remote version : ℕ) (user : Bytes) (d : Daemon)
    → Reach (start remote version user) d
    → PendingValid d.policy_pending d.pending_bound
pending_well_formed remote version user d r =
    (Reach-IsValid (start remote version user) d r
      (start-IsValid remote version user)).pending_valid
