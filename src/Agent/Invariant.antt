-- ===== src/Agent/Invariant.antt =====
-- agent/qrexec-agent.c: predicates on the agent that its requests keep.
pub mod Accounts
pub mod Ends
pub mod Kept
pub mod Resume
pub mod Sessions
pub mod Leak
pub mod Steps
pub mod Reached
use qubes_core_qrexec.Prelude.{
  ℕ, ◌+◌, ◌-◌, ◌/◌, ◌≡◌, ◌≢◌, inl, inr, not, Option, none, some, List, [], ◌∷◌, ◌++◌, ltb, ◌==◌,
  Bool-cases, Option-cases, length, Bytes, split_at,
}
use qubes_core_qrexec.Protocol.{max_qrexec_cmd_len, msg_service_connect, ExecParams, read_exact}
use qubes_core_qrexec.Rpc.Command.{ParsedCommand}
use qubes_core_qrexec.Rpc.Find.{qrexec_cmd_use_fork_server}
use qubes_core_qrexec.Agent.State.{
  NewProcess, Agent, IdentWrite, succeeds, bad_descriptor, write_error, Outside, Outcome, done,
  exit, ◌>>=◌, vchan_recv_or_exit,
}
use qubes_core_qrexec.Agent.Ident.{Scan, end_of_input, mismatch, number, negative, scan_socket}
use qubes_core_qrexec.Agent.Connections.{register_vchan_connection}
use qubes_core_qrexec.Agent.Requests.{
  send_to_fork_server, try_fork_server, start_process, connect_client, handle_service_connect,
  after_fork_server, handle_server_exec_request_do,
}

-- `fork` gives a parent no child 0.
abbrev pub HasChild : Outside → Type 0
HasChild outside = outside.child ≢ some 0

-- A predicate that the registration of a connection keeps, and that does not look at what is
-- written to sockets, closed or started.
pub record IsStable (P : Agent → Type 0) : Type 0 where
  pub registers :
      (pid fd : Option ℕ) (domain port : ℕ) (a : Agent)
      → pid ≢ some 0
      → P a
      → P (register_vchan_connection pid fd domain port a)
  pub quiet :
      (a : Agent) (written : List (ℕ × Bytes)) (closed : List ℕ) (processes : List NewProcess)
      → P a
      → P (record a { written = written; closed = closed; processes = processes })

-- What holds of the state where a function returns.
abbrev pub Returns : (Agent → Type 0) → Outcome → Type 0
Returns P (done a) = P a
Returns P (exit n a) = Unit

pub Returns-bind :
    (P Q : Agent → Type 0) (o : Outcome) (f : Agent → Outcome)
    → Returns P o
    → ((a : Agent) → P a → Returns Q (f a))
    → Returns Q (o >>= f)
unfolding ◌>>=◌
Returns-bind P Q (done a) f h k = k a h
Returns-bind P Q (exit n a) f h k = tt

pub Returns-recv :
    (P : Agent → Type 0) (n : ℕ) (next : Bytes → Agent → Outcome) (a : Agent)
    → ((s rest : Bytes) → Returns P (next s (record a { vchan_incoming = rest })))
    → Returns P (vchan_recv_or_exit n next a)
unfolding vchan_recv_or_exit
Returns-recv P n next a k = elim (Option-cases (read_exact n a.vchan_incoming)) [
  | inl e ↦ rw (e, vchan_recv_or_exit) tt
  | inr (r, e) ↦ rw (e, vchan_recv_or_exit) (k r.0 r.1)
]

pub Returns-done : (P : Agent → Type 0) (o : Outcome) (a : Agent) → Returns P o → o ≡ done a → P a
Returns-done P (done b) a h e = let q : b ≡ a = cc e in rw (← q) h
Returns-done P (exit n b) a h e = absurd (cc e)

none_ne_some : ◌≢◌ {A = Option ℕ} none (some 0)
none_ne_some h = cc

module _ (P : Agent → Type 0) (stable : IsStable P) where
  open stable use {registers, quiet}

  connect_client-keeps :
      (w : IdentWrite) (fd : ℕ) (params : ExecParams) (a : Agent)
      → P a
      → P (connect_client w fd params a)
  unfolding connect_client
  connect_client-keeps bad_descriptor fd params a h = h
  connect_client-keeps write_error fd params a h =
      registers none (some fd) params.connect_domain params.connect_port a none_ne_some h
  connect_client-keeps succeeds fd params a h =
      registers none (some fd) params.connect_domain params.connect_port _ none_ne_some
        (quiet a _ a.closed a.processes h)

  service_connect-keeps :
      (outside : Outside) (params : ExecParams) (a : Agent)
      → P a
      → P (handle_service_connect outside params a)
  unfolding handle_service_connect
  service_connect-keeps outside params a h = by_scan (scan_socket params.cmdline)
    where
      by_scan :
          (s : Scan)
          → (let r : Agent = elim s [
            | number fd ↦ connect_client outside.ident_write fd params a
            | negative _ ↦ a
            | mismatch ↦ a
            | end_of_input ↦ a
          ] in
              P r)
      by_scan (number fd) = connect_client-keeps outside.ident_write fd params a h
      by_scan (negative _) = h
      by_scan mismatch = h
      by_scan end_of_input = h

  start_process-keeps :
      (outside : Outside) (type : ℕ) (cmd : Option ParsedCommand) (params : ExecParams) (a : Agent)
      → HasChild outside
      → P a
      → P (start_process outside type cmd params a)
  unfolding start_process
  start_process-keeps outside type cmd params a c h =
      registers outside.child none params.connect_domain params.connect_port _ c
        (elim outside.child
          as (λ child.
            (let r : Agent = elim child [
              | none ↦ a
              | some _ ↦ record a {
                processes =
                    a.processes
                    ++ (record {
                      type = type;
                      connect_domain = params.connect_domain;
                      connect_port = params.connect_port;
                      cmd = cmd;
                    }
                        ∷ []);
              }
            ] in
              P r)) [ none ↦ h | some _ ↦ quiet a a.written a.closed _ h ])

  send_to_fork_server-keeps :
      (outside : Outside) (s : ℕ) (info cmdline : Bytes) (a : Agent)
      → P a
      → P (send_to_fork_server outside s info cmdline a).1
  unfolding send_to_fork_server
  send_to_fork_server-keeps outside s info cmdline a h = elim (Bool-cases outside.info_written) [
    | inl e ↦ elim (Bool-cases outside.cmdline_written) [
      | inl e' ↦ rw (e, e') (quiet a _ a.closed a.processes h)
      | inr e' ↦ rw (e, e') (quiet a _ _ a.processes h)
    ]
    | inr e ↦ rw e (quiet a a.written _ a.processes h)
  ]

  try_fork_server-keeps :
      (outside : Outside) (type domain port : ℕ) (cmdline : Bytes) (username : Option Bytes)
      (a : Agent)
      → P a
      → P (try_fork_server outside type domain port cmdline username a).1
  unfolding try_fork_server
  try_fork_server-keeps outside type domain port cmdline username a h =
      elim (Bool-cases outside.has_fork_server) [
        | inr e ↦ rw e h
        | inl e ↦ elim (Bool-cases (ltb max_qrexec_cmd_len (length cmdline + 1))) [
          | inl e' ↦ rw (e, e') h
          | inr e' ↦ elim (Option-cases (split_at b':' cmdline)) [
            | inl q ↦ rw (e, e', q, try_fork_server) h
            | inr (r, q) ↦ elim (Option-cases (outside.fork_server username)) [
              | inl q' ↦ rw (e, e', q, q', try_fork_server) h
              | inr (s, q') ↦
                  rw (e, e', q, q', try_fork_server) (send_to_fork_server-keeps outside s _ _ a h)
            ]
          ]
        ]
      ]

  after_fork_server-keeps :
      (outside : Outside) (type : ℕ) (cmd : Option ParsedCommand) (params : ExecParams)
      (r : Option ℕ × Agent)
      → HasChild outside
      → P r.1
      → P (after_fork_server outside type cmd params r)
  after_fork_server-keeps outside type cmd params (some s, a) c h =
      registers none (some s) params.connect_domain params.connect_port a none_ne_some h
  after_fork_server-keeps outside type cmd params (none, a) c h =
      start_process-keeps outside type cmd params a c h

  pub exec_request-keeps :
      (outside : Outside) (type : ℕ) (cmd : Option ParsedCommand) (params : ExecParams) (a : Agent)
      → HasChild outside
      → P a
      → P (handle_server_exec_request_do outside type cmd params a)
  unfolding handle_server_exec_request_do
  exec_request-keeps outside type cmd params a c h =
      elim (Bool-cases (type == msg_service_connect)) [
        | inl e ↦ rw e (service_connect-keeps outside params a h)
        | inr e ↦ elim (Bool-cases (qrexec_cmd_use_fork_server cmd)) [
          | inl e' ↦
              rw (e, e')
                (after_fork_server-keeps outside type cmd params _ c
                  (try_fork_server-keeps outside type _ _ _ _ a h))
          | inr e' ↦ rw (e, e') (start_process-keeps outside type cmd params a c h)
        ]
      ]
