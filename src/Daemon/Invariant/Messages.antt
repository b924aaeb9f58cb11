-- ===== src/Daemon/Invariant/Messages.antt =====
-- The handlers of the messages of agents and clients, and the well-formedness of the tables.
use qubes_core_qrexec.Prelude.{
  ℕ, ◌+◌, ◌-◌, ◌≡◌, inl, inr, true, not, ◌||◌, Option, [], ◌∷◌, arith, ltb, leb, ◌==◌, Option-cases,
  get_or, take, drop, All, Bytes, strlen, c_string,
}
use qubes_core_qrexec.Daemon.State.{max_clients, vchan_base_data_port, Daemon}
use qubes_core_qrexec.Protocol.{
  msg_trigger_service, msg_trigger_service3, MsgHeader, header_at, exec_params_at,
  sizeof_trigger_params3,
}
use qubes_core_qrexec.Daemon.Invariant.{
  tables, IsValid, Leaves, returns, exits, Ensures-bind, Ensures-if_step,
}
use qubes_core_qrexec.Daemon.Invariant.Effects.{
  Leaves-vchan_recv_or_exit, Leaves-send_service_refused,
}
use qubes_core_qrexec.Daemon.Invariant.Clients.{release_vchan_port-IsValid}
use qubes_core_qrexec.Daemon.Invariant.Requests.{handle_execute_service-IsValid}
use qubes_core_qrexec.Daemon.Sanitize.{
  is_allowed, validate_request_id, validate_service_name, sanitize_message_from_agent,
}
use qubes_core_qrexec.Daemon.Sanitize.Names.{sanitize_name_lem, validate_service_name-IsServiceName}
use qubes_core_qrexec.Daemon.Agent.{
  execute_validated, handle_trigger_service, handle_trigger_service3, handle_connection_terminated,
  handle_checked_message, handle_message_from_agent,
}

execute_validated-IsValid :
    (fork : Option ℕ) (target service ident : Bytes) (d : Daemon)
    → All (λ c. is_allowed (b'@' ∷ b':' ∷ []) c ≡ true) target
    → validate_request_id ident ≡ true
    → IsValid (tables d)
    → Leaves IsValid (execute_validated fork target service ident d)
unfolding execute_validated
execute_validated-IsValid fork target service ident d t i v =
    elim (Option-cases (validate_service_name service)) [
      | inl e ↦ rw (execute_validated, e) (Leaves-send_service_refused d v ident)
      | inr (name, e) ↦
          rw (execute_validated, e)
            (handle_execute_service-IsValid fork target name ident d
              (record {
                target = t;
                service = validate_service_name-IsServiceName service name e;
                ident = i;
              })
              v)
    ]

handle_trigger_service-IsValid :
    (fork : Option ℕ) (params : Bytes) (d : Daemon)
    → IsValid (tables d)
    → Leaves IsValid (handle_trigger_service fork params d)
unfolding handle_trigger_service
handle_trigger_service-IsValid fork params d v =
    Ensures-if_step (not (validate_request_id (take 32 (drop 96 params)))) _ _
      (λ _. Leaves-send_service_refused d v _)
      (λ e.
        execute_validated-IsValid fork _ _ _ d
          (sanitize_name_lem (b'@' ∷ b':' ∷ []) (c_string (take 31 (drop 64 params)))).0
          (ground arith) v)

handle_trigger_service3-IsValid :
    (fork : Option ℕ) (len : ℕ) (params : Bytes) (d : Daemon)
    → IsValid (tables d)
    → Leaves IsValid (handle_trigger_service3 fork len params d)
unfolding handle_trigger_service3
handle_trigger_service3-IsValid fork len params d v =
    Ensures-if_step (not (validate_request_id (take 32 (drop 64 params)))) _ _
      (λ _. Leaves-send_service_refused d v _)
      (λ e.
        Ensures-if_step
          (not
            (get_or (drop sizeof_trigger_params3 params) (len - sizeof_trigger_params3 - 1) 1 == 0))
          _ _ (λ _. Leaves-send_service_refused d v _)
          (λ _.
            Ensures-if_step
              (not
                (strlen (drop sizeof_trigger_params3 params) == len - sizeof_trigger_params3 - 1))
              _ _ (λ _. Leaves-send_service_refused d v _)
              (λ _.
                execute_validated-IsValid fork _ _ _ d
                  (sanitize_name_lem (b'@' ∷ b':' ∷ []) (c_string (take 63 params))).0
                  (ground arith) v)))

handle_connection_terminated-IsValid :
    (d : Daemon) → IsValid (tables d) → Leaves IsValid (handle_connection_terminated d)
unfolding handle_connection_terminated
handle_connection_terminated-IsValid d v =
    Ensures-bind _ _ (Leaves-vchan_recv_or_exit d v _) (λ s d' v'.
      Ensures-if_step
        (ltb (exec_params_at s).connect_port vchan_base_data_port
          || leb (vchan_base_data_port + max_clients) (exec_params_at s).connect_port)
        _ _ (λ _. exits v') (λ _. returns (release_vchan_port-IsValid _ _ d' v')))

handle_checked_message-IsValid :
    (fork : Option ℕ) (hdr : MsgHeader) (d : Daemon)
    → IsValid (tables d)
    → Leaves IsValid (handle_checked_message fork hdr d)
unfolding handle_checked_message
handle_checked_message-IsValid fork hdr d v =
    Ensures-if_step (hdr.type == msg_trigger_service) _ _
      (λ _.
        Ensures-bind _ _ (Leaves-vchan_recv_or_exit d v _)
          (λ s d' v'. handle_trigger_service-IsValid fork s d' v'))
      (λ _.
        Ensures-if_step (hdr.type == msg_trigger_service3) _ _
          (λ _.
            Ensures-bind _ _ (Leaves-vchan_recv_or_exit d v _)
              (λ s d' v'. handle_trigger_service3-IsValid fork hdr.len s d' v'))
          (λ _. handle_connection_terminated-IsValid d v))

pub handle_message_from_agent-IsValid :
    (fork : Option ℕ) (d : Daemon)
    → IsValid (tables d)
    → Leaves IsValid (handle_message_from_agent fork d)
unfolding handle_message_from_agent
handle_message_from_agent-IsValid fork d v =
    Ensures-bind _ _ (Leaves-vchan_recv_or_exit d v _) (λ s d' v'.
      Ensures-if_step (sanitize_message_from_agent d.protocol_version (header_at s)) _ _
        (λ _. handle_checked_message-IsValid fork (header_at s) d' v') (λ _. exits v'))
