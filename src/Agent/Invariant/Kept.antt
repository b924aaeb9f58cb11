-- ===== src/Agent/Invariant/Kept.antt =====
-- agent/qrexec-agent.c: predicates that the messages of the daemon and the end of the session's
-- child keep.
use qubes_core_qrexec.Prelude.{
  by_test, ℕ, ◌<◌, ◌≡◌, refl, ◌≢◌, inl, inr, Bool, true, false, not, ◌&&◌, ◌||◌, Option, none, some,
  List, [], ◌∷◌, ◌++◌, arith, ltb, leb, ◌==◌, if◌then◌else◌, Bool-cases, Option-cases, update,
  Bytes, c_string, first_from, first_from-found,
}
use qubes_core_qrexec.Protocol.{
  max_fds, msg_service_connect, msg_service_refused, MsgHeader, sizeof_header, header_at,
  ExecParams, sizeof_exec_params, sizeof_service_params,
}
use qubes_core_qrexec.Rpc.Command.{ParsedCommand, parse_qubes_rpc_command}
use qubes_core_qrexec.Rpc.Find.{load_service_config_v2}
use qubes_core_qrexec.Agent.State.{WaitingRequest, Agent, Outside}
use qubes_core_qrexec.Agent.Ident.{Scan, end_of_input, mismatch, number, negative, scan_socket}
use qubes_core_qrexec.Agent.Requests.{
  wake_meminfo_writer, handle_server_exec_request_do, wait_for_session_maybe, is_empty, postpone,
  after_wait, maybe_wait, with_command, with_params, received_params, bytes_of,
  handle_server_exec_request_init, close_refused, handle_service_refused, is_exec_type,
  dispatch_server_cmd, handle_server_cmd,
}
use qubes_core_qrexec.Agent.Invariant.{
  HasChild, IsStable, Returns, Returns-recv, exec_request-keeps,
}

-- A request that waits: a call of a service that wants the session, and not of a client.
pub record IsGuiRequest (w : WaitingRequest) : Type 0 where
  pub no_client : w.type ≢ msg_service_connect
  pub command : ParsedCommand
  pub has_command : w.cmd ≡ some command
  pub gui : command.nogui ≡ false
  pub wants_session : command.wait_for_session ≡ true

-- A predicate that every change of the agent's state but the end of a connection keeps.
pub record IsKept (P : Agent → Type 0) : Type 0 where
  pub stable : IsStable P
  pub receives :
      (a : Agent) (incoming : Bytes) (woken : Bool) (signals : List ℕ)
      → P a
      → P (record a { vchan_incoming = incoming; meminfo_write_started = woken; signals = signals })
  pub starts_session :
      (a : Agent) (pid : ℕ)
      → a.wait_for_session_pid ≡ none
      → P a
      → P (record a { wait_for_session_pid = some pid })
  pub keeps_request :
      (a : Agent) (i : ℕ) (w : WaitingRequest)
      → i < max_fds
      → a.wait_for_session_pid ≢ none
      → IsGuiRequest w
      → P a
      → P (record a {
        requests_waiting_for_session = update a.requests_waiting_for_session i (some w);
      })
  pub clears_request :
      (a : Agent) (i : ℕ)
      → P a
      → P (record a { requests_waiting_for_session = update a.requests_waiting_for_session i none })
  pub ends_session :
      (a : Agent)
      → ((i : ℕ) → i < max_fds → a.requests_waiting_for_session i ≡ none)
      → P a
      → P (record a { wait_for_session_pid = none })

module _ (P : Agent → Type 0) (kept : IsKept P) (outside : Outside) (child : HasChild outside) where
  open kept use {stable, receives, starts_session, keeps_request}

  exec_request :
      (type : ℕ) (cmd : Option ParsedCommand) (params : ExecParams) (a : Agent)
      → P a
      → P (handle_server_exec_request_do outside type cmd params a)
  exec_request type cmd params a h = exec_request-keeps P stable outside type cmd params a child h

  wait_maybe-keeps : (a : Agent) → P a → P (wait_for_session_maybe outside a).1
  unfolding wait_for_session_maybe
  wait_maybe-keeps a h = elim (Option-cases a.wait_for_session_pid) [
    | inr (n, e) ↦ rw (e, wait_for_session_maybe) h
    | inl e ↦ elim (Option-cases outside.session_child) [
      | inl q ↦ rw (e, q, wait_for_session_maybe) h
      | inr (n, q) ↦ rw (e, q, wait_for_session_maybe) (starts_session a n e h)
    ]
  ]

  wait_maybe-runs :
      (a : Agent)
      → (wait_for_session_maybe outside a).0 ≡ true
      → (wait_for_session_maybe outside a).1.wait_for_session_pid ≢ none
  unfolding wait_for_session_maybe
  wait_maybe-runs a h = elim (Option-cases a.wait_for_session_pid) [
    | inr (n, e) ↦ rw (e, wait_for_session_maybe) (λ q. cc (q, e))
    | inl e ↦ elim (Option-cases outside.session_child) [
      | inl q ↦ absurd (cc (rw (e, q, wait_for_session_maybe) at h))
      | inr (n, q) ↦ rw (e, q, wait_for_session_maybe) (λ z. cc z)
    ]
  ]

  postpone-keeps :
      (type : ℕ) (cmd : ParsedCommand) (params : ExecParams) (a : Agent)
      → type ≢ msg_service_connect
      → cmd.nogui ≡ false
      → cmd.wait_for_session ≡ true
      → a.wait_for_session_pid ≢ none
      → P a
      → P (postpone outside type cmd params a)
  unfolding postpone
  postpone-keeps type cmd params a t g w r h =
      elim (Option-cases
        (first_from (λ i. is_empty (a.requests_waiting_for_session i)) 1 max_fds max_fds 0)) [
          | inl e ↦ rw (e, postpone) (exec_request type (some cmd) params a h)
          | inr (i, e) ↦
              let f =
                first_from-found (λ j. is_empty (a.requests_waiting_for_session j)) 1 max_fds
                  max_fds 0 i e in
              rw (e, postpone)
                (keeps_request a i (record { type = type; params = params; cmd = some cmd }) f.1 r
                  (record {
                    no_client = t;
                    command = cmd;
                    has_command = refl;
                    gui = g;
                    wants_session = w;
                  })
                  h)
        ]

  after_wait-keeps :
      (type : ℕ) (cmd : ParsedCommand) (params : ExecParams) (r : Bool × Agent)
      → type ≢ msg_service_connect
      → cmd.nogui ≡ false
      → cmd.wait_for_session ≡ true
      → (r.0 ≡ true → r.1.wait_for_session_pid ≢ none)
      → P r.1
      → P (after_wait outside type cmd params r)
  after_wait-keeps type cmd params (true, a) t g w r h =
      postpone-keeps type cmd params a t g w (r refl) h
  after_wait-keeps type cmd params (false, a) t g w r h = exec_request type (some cmd) params a h

  maybe_wait-keeps :
      (type : ℕ) (cmd : ParsedCommand) (params : ExecParams) (a : Agent)
      → type ≢ msg_service_connect
      → P a
      → P (maybe_wait outside type cmd params a)
  unfolding maybe_wait
  maybe_wait-keeps type cmd params a t h =
      by_test P (not cmd.nogui && cmd.wait_for_session)
        (λ e.
          after_wait-keeps type cmd params _ t (ground arith) (ground arith) (wait_maybe-runs a)
            (wait_maybe-keeps a h))
        (λ _. exec_request type (some cmd) params a h)

  with_command-keeps :
      (type : ℕ) (cmd : ParsedCommand) (params : ExecParams) (a : Agent)
      → type ≢ msg_service_connect
      → P a
      → P (with_command outside type cmd params a)
  unfolding with_command
  with_command-keeps type cmd params a t h = elim (Option-cases cmd.service_descriptor) [
    | inl e ↦ rw (e, with_command) (exec_request type (some cmd) params a h)
    | inr (descriptor, e) ↦
        elim (Option-cases (
          load_service_config_v2 outside.files outside.config_path descriptor
            (bytes_of cmd.service_name) cmd)) [
              | inl q ↦ rw (e, q, with_command) (exec_request type none params a h)
              | inr (c, q) ↦ rw (e, q, with_command) (maybe_wait-keeps type c params a t h)
            ]
  ]

  with_params-keeps :
      (type : ℕ) (params : ExecParams) (a : Agent) → P a → P (with_params outside type params a)
  unfolding with_params
  with_params-keeps type params a h = elim (Bool-cases (type == msg_service_connect)) [
    | inl e ↦ rw e (exec_request type none params a h)
    | inr e ↦ elim (Option-cases (parse_qubes_rpc_command params.cmdline true)) [
      | inl q ↦ rw (e, q, with_params) (exec_request type none params a h)
      | inr (c, q) ↦ rw (e, q, with_params) (with_command-keeps type c params a (ground arith) h)
    ]
  ]

  exec_init-keeps :
      (hdr : MsgHeader) (a : Agent)
      → P a
      → Returns P (handle_server_exec_request_init outside hdr a)
  unfolding handle_server_exec_request_init
  exec_init-keeps hdr a h =
      elim (Bool-cases (leb hdr.len sizeof_exec_params || ltb 0x7fff_ffff hdr.len)) [
        | inl e ↦ rw e tt
        | inr e ↦ rw e (
            Returns-recv P hdr.len _ a (λ s rest.
              with_params-keeps hdr.type (received_params hdr.len s) _
                (receives a rest a.meminfo_write_started a.signals h)))
      ]

  close_refused-keeps : (ident : Bytes) (a : Agent) → P a → P (close_refused outside ident a)
  unfolding close_refused
  close_refused-keeps ident a h = by_scan (scan_socket ident)
    where
      by_scan :
          (s : Scan)
          → (let r : Agent = elim s [
            | number fd ↦ record a { closed = a.closed ++ (fd ∷ []) }
            | negative _ ↦ a
            | mismatch ↦ a
            | end_of_input ↦ record a { closed = a.closed ++ (outside.uninitialized ∷ []) }
          ] in
              P r)
      by_scan (number fd) = stable.quiet a a.written _ a.processes h
      by_scan (negative _) = h
      by_scan mismatch = h
      by_scan end_of_input = stable.quiet a a.written _ a.processes h

  refused-keeps :
      (hdr : MsgHeader) (a : Agent) → P a → Returns P (handle_service_refused outside hdr a)
  unfolding handle_service_refused
  refused-keeps hdr a h = elim (Bool-cases (hdr.len == sizeof_service_params)) [
    | inr e ↦ rw e tt
    | inl e ↦ rw e (
        Returns-recv P sizeof_service_params _ a (λ s rest.
          close_refused-keeps (c_string s) _ (receives a rest a.meminfo_write_started a.signals h)))
  ]

  wake-keeps : (a : Agent) → P a → P (wake_meminfo_writer outside a)
  unfolding wake_meminfo_writer
  wake-keeps a h = by_test P a.meminfo_write_started (λ _. h) (λ _. by_pid outside.meminfo_pid)
    where
      by_pid :
          (pid : Option ℕ)
          → (let r : Agent = elim pid [
            | none ↦ a
            | some n ↦
                if leb n 1 || ltb 0xffff n
                then a
                else if outside.kill_succeeds
                then record a { meminfo_write_started = true; signals = a.signals ++ (n ∷ []) }
                else a
          ] in
              P r)
      by_pid none = h
      by_pid (some n) =
          by_test P (leb n 1 || ltb 0xffff n) (λ _. h)
            (λ _.
              by_test P outside.kill_succeeds (λ _. receives a a.vchan_incoming true _ h) (λ _. h))

  dispatch-keeps :
      (hdr : MsgHeader) (a : Agent) → P a → Returns P (dispatch_server_cmd outside hdr a)
  unfolding dispatch_server_cmd
  dispatch-keeps hdr a h = elim (Bool-cases (is_exec_type hdr.type)) [
    | inl e ↦ rw e (exec_init-keeps hdr _ (wake-keeps a h))
    | inr e ↦ elim (Bool-cases (hdr.type == msg_service_refused)) [
      | inl q ↦ rw (e, q) (refused-keeps hdr a h)
      | inr q ↦ rw (e, q) tt
    ]
  ]

  pub server_cmd-keeps : (a : Agent) → P a → Returns P (handle_server_cmd outside a)
  unfolding handle_server_cmd
  server_cmd-keeps a h = Returns-recv P sizeof_header _ a (λ s rest.
      dispatch-keeps (header_at s) _ (receives a rest a.meminfo_write_started a.signals h))
