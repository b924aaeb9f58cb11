-- ===== src/Daemon/Invariant/Sessions.antt =====
-- The handlers of the local clients, and the well-formedness of the tables.
use qubes_core_qrexec.Prelude.{
  ℕ, ◌+◌, ◌-◌, ◌≡◌, ◌≢◌, inl, inr, Bool, true, not, ◌&&◌, ◌||◌, some, ltb, leb, ◌==◌, Bool-cases,
  Option-cases, get_or,
}
use qubes_core_qrexec.Daemon.State.{
  ClientState, invalid, hello, cmdline, running, allow, max_clients, vchan_base_data_port, Daemon,
  modify,
}
use qubes_core_qrexec.Protocol.{
  protocol_version, max_qrexec_cmd_len, msg_exec_cmdline, msg_just_exec, msg_service_connect,
  msg_hello, u32_at, MsgHeader, header_at, ExecParams, sizeof_exec_params, exec_params_at,
  sizeof_peer_info,
}
use qubes_core_qrexec.Daemon.Invariant.{
  Tables, tables, IsValid, Ensures, Leaves, returns, Ensures-bind, Ensures-if, Ensures-if_step,
  Ensures-option, Ensures-weaken, Ensures-option_step,
}
use qubes_core_qrexec.Daemon.Invariant.Effects.{
  Leaves-client_read, Leaves-write_both, Leaves-forward_cmdline,
}
use qubes_core_qrexec.Daemon.Invariant.Clients.{
  terminate_client-IsValid, release_vchan_port-IsValid, set_state-IsValid, request_notify-IsValid,
  allocate_vchan_port-tables,
}
use qubes_core_qrexec.Daemon.Invariant.Requests.{set_response-IsValid}
use qubes_core_qrexec.Daemon.Pending.{set_response}
use qubes_core_qrexec.Daemon.Ports.{allocate_vchan_port, terminate_client}
use qubes_core_qrexec.Daemon.Client.{
  client_read, terminated, find_request, accept_request, forward_cmdline, give_back_port,
  announce_port, assign_port, handle_cmdline, handle_cmdline_body_from_client, is_cmdline_type,
  handle_cmdline_message_from_client, handle_client_hello, by_state, handle_message_from_client,
}

-- Well formed, with the client live.
abbrev Live : ℕ → Tables → Type 0
Live fd t = IsValid t × (t.clients fd ≢ invalid)

-- Well formed, with the client live if the result is true.
abbrev Accepted : ℕ → Bool → Tables → Type 0
Accepted fd b t = IsValid t × (b ≡ true → t.clients fd ≢ invalid)

module _ (fd : ℕ) where
  Ensures-terminated :
      (d : Daemon) → IsValid (tables d) → Ensures IsValid (Accepted fd) (terminated fd d)
  Ensures-terminated d v =
      Ensures-bind {Q = λ _. IsValid} _ _ (returns (terminate_client-IsValid fd d v))
        (λ _ d' v'. returns (v', λ q. cc q))

  Ensures-forward_cmdline :
      (hdr : MsgHeader) (params : ExecParams) (d : Daemon)
      → Live fd (tables d)
      → Ensures IsValid (Accepted fd) (forward_cmdline hdr params d)
  Ensures-forward_cmdline hdr params d l =
      Ensures-weaken (Leaves-forward_cmdline {P = Live fd} d l hdr params) (λ t h. h.0)
        (λ b t h. (h.0, λ _. h.1))

  give_back_port-IsValid :
      (params : ExecParams) (d : Daemon)
      → IsValid (tables d)
      → IsValid (tables (give_back_port fd params d))
  unfolding give_back_port
  give_back_port-IsValid params d v =
      release_vchan_port-IsValid params.connect_port params.connect_domain (terminate_client fd d)
        (terminate_client-IsValid fd d v)

  Ensures-announce_port :
      (hdr : MsgHeader) (params : ExecParams) (d : Daemon)
      → Live fd (tables d)
      → Ensures IsValid (Accepted fd) (announce_port fd hdr params d)
  unfolding announce_port
  Ensures-announce_port hdr params d l =
      Ensures-bind _ _
        (Ensures-weaken {P' = IsValid} {Q' = λ _. Live fd}
          (Leaves-write_both {P = Live fd} d l fd _ _) (λ t h. h.0) (λ b t h. h))
        (λ written d' l'.
          Ensures-if_step written _ _ (λ _. Ensures-forward_cmdline hdr params d' l')
            (λ _.
              Ensures-bind {Q = λ _. IsValid} _ _ (returns (give_back_port-IsValid params d' l'.0))
                (λ _ d'' v. returns (v, λ q. cc q))))

  Ensures-assign_port :
      (hdr : MsgHeader) (params : ExecParams) (d : Daemon)
      → Live fd (tables d)
      → Ensures IsValid (Accepted fd) (assign_port fd hdr params d)
  unfolding assign_port
  Ensures-assign_port hdr params d l =
      let same = allocate_vchan_port-tables params.connect_domain d in
      let l' : Live fd (tables (allocate_vchan_port params.connect_domain d).1) = rw same l in
      Ensures-if (params.connect_port == 0)
        (λ _.
          Ensures-if ((allocate_vchan_port params.connect_domain d).0 == 0)
            (λ _. Ensures-terminated (allocate_vchan_port params.connect_domain d).1 l'.0)
            (λ _. Ensures-announce_port hdr _ _ (
              request_notify-IsValid (allocate_vchan_port params.connect_domain d).0 fd
                  (allocate_vchan_port params.connect_domain d).1 l'.1 l'.0,
              l'.1,
            )))
        (λ _.
          Ensures-if
            (leb vchan_base_data_port params.connect_port
              && ltb params.connect_port (vchan_base_data_port + max_clients))
            (λ _. Ensures-forward_cmdline hdr params d l) (λ _. Ensures-terminated d l.0))

  accept_request-Live :
      (hdr : MsgHeader) (params : ExecParams) (d d' : Daemon)
      → accept_request hdr params d ≡ some d'
      → Live fd (tables d)
      → Live fd (tables d')
  unfolding accept_request
  accept_request-Live hdr params d d' h l = elim (Bool-cases (hdr.type == msg_service_connect)) [
    | inl c ↦ elim (Option-cases (find_request params.cmdline d)) [
      | inl e ↦ absurd (cc (rw (accept_request, c, e) at h))
      | inr (i, e) ↦
          let q : set_response i allow d ≡ d' = cc (rw (accept_request, c, e) at h) in
          rw (← q) (set_response-IsValid i allow d l.0, l.1)
    ]
    | inr c ↦
        elim (Bool-cases (not (hdr.type == msg_just_exec) && not (hdr.type == msg_exec_cmdline))) [
          | inl e ↦ absurd (cc (rw (accept_request, c, e) at h))
          | inr e ↦ let q : d ≡ d' = cc (rw (accept_request, c, e) at h) in rw (← q) l
        ]
  ]

  Ensures-handle_cmdline :
      (hdr : MsgHeader) (params : ExecParams) (d : Daemon)
      → Live fd (tables d)
      → Ensures IsValid (Accepted fd) (handle_cmdline fd hdr params d)
  unfolding handle_cmdline
  Ensures-handle_cmdline hdr params d l =
      Ensures-if (get_or params.cmdline (hdr.len - sizeof_exec_params - 1) 1 == 0)
        (λ _.
          Ensures-option (accept_request hdr params d) (Ensures-terminated d l.0)
            (λ d' e. Ensures-assign_port hdr params d' (accept_request-Live hdr params d d' e l)))
        (λ _. Ensures-terminated d l.0)

  Ensures-read :
      (n : ℕ) (d : Daemon)
      → Live fd (tables d)
      → Ensures IsValid (λ _. Live fd) (client_read fd n d)
  Ensures-read n d l =
      Ensures-weaken (Leaves-client_read {P = Live fd} d l fd n) (λ t h. h.0) (λ r t h. h)

  Ensures-handle_cmdline_body_from_client :
      (hdr : MsgHeader) (d : Daemon)
      → Live fd (tables d)
      → Ensures IsValid (Accepted fd) (handle_cmdline_body_from_client fd hdr d)
  unfolding handle_cmdline_body_from_client
  Ensures-handle_cmdline_body_from_client hdr d l =
      Ensures-if_step (leb hdr.len sizeof_exec_params) _ _ (λ _. Ensures-terminated d l.0)
        (λ _.
          Ensures-if_step (ltb max_qrexec_cmd_len hdr.len) _ _ (λ _. Ensures-terminated d l.0)
            (λ _. Ensures-bind _ _ (Ensures-read _ d l) (λ r d' l'.
              Ensures-option_step r _ _ (Ensures-terminated d' l'.0)
                (λ body _. Ensures-handle_cmdline hdr (exec_params_at body) d' l'))))

  terminates : (d : Daemon) → Live fd (tables d) → Leaves IsValid (modify (terminate_client fd) d)
  terminates d l = returns (terminate_client-IsValid fd d l.0)

  Leaves-handle_cmdline_message_from_client :
      (d : Daemon) → Live fd (tables d) → Leaves IsValid (handle_cmdline_message_from_client fd d)
  unfolding handle_cmdline_message_from_client
  Leaves-handle_cmdline_message_from_client d l = Ensures-bind _ _ (Ensures-read _ d l) (λ r d' l'.
      Ensures-option_step r _ _ (terminates d' l') (λ s _.
        Ensures-if_step (is_cmdline_type (header_at s).type) _ _
          (λ _.
            Ensures-bind _ _ (Ensures-handle_cmdline_body_from_client (header_at s) d' l')
              (λ accepted d'' h.
                Ensures-if_step accepted _ _
                  (λ e. returns (set_state-IsValid fd running d'' (h.1 e) (λ q. cc q) h.0))
                  (λ _. returns h.0)))
          (λ _. terminates d' l')))

  Leaves-handle_client_hello :
      (d : Daemon) → Live fd (tables d) → Leaves IsValid (handle_client_hello fd d)
  unfolding handle_client_hello
  Leaves-handle_client_hello d l = Ensures-bind _ _ (Ensures-read _ d l) (λ r d' l'.
      Ensures-option_step r _ _ (terminates d' l') (λ s _.
        Ensures-if_step
          (not ((header_at s).type == msg_hello) || not ((header_at s).len == sizeof_peer_info)) _ _
          (λ _. terminates d' l')
          (λ _. Ensures-bind _ _ (Ensures-read _ d' l') (λ b d'' l''.
            Ensures-option_step b _ _ (terminates d'' l'') (λ info _.
              Ensures-if_step (u32_at info == protocol_version) _ _
                (λ _. returns (set_state-IsValid fd cmdline d'' l''.1 (λ q. cc q) l''.0))
                (λ _. terminates d'' l''))))))

  by_state-IsValid :
      (s : ClientState) (d : Daemon) → Live fd (tables d) → Leaves IsValid (by_state s fd d)
  by_state-IsValid invalid d l = returns l.0
  by_state-IsValid hello d l = Leaves-handle_client_hello d l
  by_state-IsValid cmdline d l = Leaves-handle_cmdline_message_from_client d l
  by_state-IsValid running d l = terminates d l

  pub handle_message_from_client-IsValid :
      (d : Daemon)
      → d.clients fd ≢ invalid
      → IsValid (tables d)
      → Leaves IsValid (handle_message_from_client fd d)
  unfolding handle_message_from_client
  handle_message_from_client-IsValid d live v = by_state-IsValid (d.clients fd) d (v, live)
