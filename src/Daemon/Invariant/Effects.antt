-- ===== src/Daemon/Invariant/Effects.antt =====
-- Reading and writing, and the tables.
use qubes_core_qrexec.Prelude.{ℕ, not, ◌||◌, Option, none, some, ltb, ◌==◌, Bytes}
use qubes_core_qrexec.Daemon.State.{
  Daemon, M, ◌>>◌, next_result, vchan_send, client_write, vchan_send_or_exit,
}
use qubes_core_qrexec.Daemon.Invariant.{
  Tables, tables, Leaves, returns, exits, Ensures-bind, Ensures-if, Ensures-if_step, Ensures-option,
}
use qubes_core_qrexec.Daemon.Pending.{send_service_refused}
use qubes_core_qrexec.Daemon.Agent.{vchan_recv_or_exit}
use qubes_core_qrexec.Daemon.Client.{
  client_read, write_both, uses_default_user, send_client_hello, forward_cmdline,
}
use qubes_core_qrexec.Daemon.Restart.{
  vchan_recv, negotiated, answer_hello, check_version, check_hello, handle_agent_hello,
}
use qubes_core_qrexec.Protocol.{
  protocol_v2, msg_hello, u32_at, MsgHeader, header_at, ExecParams, sizeof_peer_info, read_exact,
}

module _ {P : Tables → Type 0} (d : Daemon) (h : P (tables d)) where
  pub Leaves-vchan_send : (s : Bytes) → Leaves P (vchan_send s d)
  unfolding vchan_send
  Leaves-vchan_send s = Ensures-if (next_result d.write_results) (λ _. returns h) (λ _. returns h)

  pub Leaves-client_write : (fd : ℕ) (s : Bytes) → Leaves P (client_write fd s d)
  unfolding client_write
  Leaves-client_write fd s =
      Ensures-if (next_result d.write_results) (λ _. returns h) (λ _. returns h)

  pub Leaves-vchan_recv_or_exit : (n : ℕ) → Leaves P (vchan_recv_or_exit n d)
  unfolding vchan_recv_or_exit
  Leaves-vchan_recv_or_exit n =
      Ensures-option (read_exact n d.vchan_incoming) (exits h) (λ r e. returns h)

  pub Leaves-vchan_recv : (n : ℕ) → Leaves P (vchan_recv n d)
  unfolding vchan_recv
  Leaves-vchan_recv n =
      Ensures-option (read_exact n d.vchan_incoming) (returns h) (λ r e. returns h)

  pub Leaves-client_read : (fd n : ℕ) → Leaves P (client_read fd n d)
  unfolding client_read
  Leaves-client_read fd n =
      Ensures-option (read_exact n (d.client_incoming fd)) (returns h) (λ r e. returns h)

module _ {P : Tables → Type 0} (d : Daemon) (h : P (tables d)) where
  pub Leaves-vchan_send_or_exit : (s : Bytes) → Leaves P (vchan_send_or_exit s d)
  unfolding vchan_send_or_exit
  Leaves-vchan_send_or_exit s =
      Ensures-bind (vchan_send s) _ (Leaves-vchan_send d h s)
        (λ sent d' h'. Ensures-if_step sent _ _ (λ _. returns h') (λ _. exits h'))

  pub Leaves-write_both : (fd : ℕ) (a b : Bytes) → Leaves P (write_both fd a b d)
  Leaves-write_both fd a b =
      Ensures-bind (client_write fd a) _ (Leaves-client_write d h fd a) (λ first d' h'.
        Ensures-if_step first _ _ (λ _. Leaves-client_write d' h' fd b) (λ _. returns h'))

module _ {P : Tables → Type 0} (d : Daemon) (h : P (tables d)) where
  pub Leaves-send_service_refused : (ident : Bytes) → Leaves P (send_service_refused ident d)
  unfolding send_service_refused
  Leaves-send_service_refused ident =
      Ensures-bind _ _ (Leaves-vchan_send_or_exit d h _)
        (λ _ d' h'. Leaves-vchan_send_or_exit d' h' ident)

  pub Leaves-send_client_hello : (fd : ℕ) → Leaves P (send_client_hello fd d)
  unfolding send_client_hello
  Leaves-send_client_hello fd = Leaves-write_both d h fd _ _

  -- A send, and what comes after it.
  Leaves-send_then :
      {A : Type 0} (s : Bytes) (m : M A)
      → ((d' : Daemon) → P (tables d') → Leaves P (m d'))
      → Leaves P ((vchan_send_or_exit s >> m) d)
  Leaves-send_then s m k = Ensures-bind _ _ (Leaves-vchan_send_or_exit d h s) (λ _ d' h'. k d' h')

module _ {P : Tables → Type 0} (d : Daemon) (h : P (tables d)) where
  pub Leaves-forward_cmdline :
      (hdr : MsgHeader) (params : ExecParams) → Leaves P (forward_cmdline hdr params d)
  unfolding forward_cmdline
  Leaves-forward_cmdline hdr params =
      Ensures-if (uses_default_user hdr params)
        (λ _. Leaves-send_then d h _ _ (λ d1 h1. Leaves-send_then d1 h1 _ _ (λ d2 h2.
          Leaves-send_then d2 h2 _ _ (λ d3 h3. Leaves-send_then d3 h3 _ _ (λ d4 h4. returns h4)))))
        (λ _. Leaves-send_then d h _ _ (λ d1 h1. Leaves-send_then d1 h1 _ _ (λ d2 h2. returns h2)))

  Ensures-answer : (version : ℕ) → Leaves P (answer_hello version d)
  unfolding answer_hello
  Ensures-answer version = Ensures-bind _ _ (Leaves-vchan_send d h _) (λ sent d1 h1.
      Ensures-if_step sent _ _
        (λ _.
          Ensures-bind _ _ (Leaves-vchan_send d1 h1 _)
            (λ sent' d2 h2. Ensures-if_step sent' _ _ (λ _. returns h2) (λ _. returns h2)))
        (λ _. returns h1))

module _ {P : Tables → Type 0} (d : Daemon) (h : P (tables d)) where
  Leaves-check_version : (r : Option Bytes) → Leaves P (check_version r d)
  Leaves-check_version none = returns h
  Leaves-check_version (some info) =
      Ensures-if_step (ltb (negotiated (u32_at info)) protocol_v2) _ _ (λ _. returns h)
        (λ _. Ensures-answer d h (negotiated (u32_at info)))

module _ {P : Tables → Type 0} (d : Daemon) (h : P (tables d)) where
  Leaves-check_hello : (r : Option Bytes) → Leaves P (check_hello r d)
  Leaves-check_hello none = returns h
  Leaves-check_hello (some s) =
      Ensures-if_step
        (not ((header_at s).type == msg_hello) || not ((header_at s).len == sizeof_peer_info)) _ _
        (λ _. returns h)
        (λ _. Ensures-bind _ _ (Leaves-vchan_recv d h _) (λ r d' h'. Leaves-check_version d' h' r))

pub Leaves-handle_agent_hello :
    {P : Tables → Type 0} (d : Daemon) → P (tables d) → Leaves P (handle_agent_hello d)
unfolding handle_agent_hello
Leaves-handle_agent_hello d h =
    Ensures-bind _ _ (Leaves-vchan_recv d h _) (λ r d' h'. Leaves-check_hello d' h' r)
