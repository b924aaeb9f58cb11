-- ===== src/Io/Process/Rounds.antt =====
-- libqrexec/process_io.c: the loop of `qrexec_process_io` keeps what its changes keep.
use qubes_core_qrexec.Prelude.{
  by_test, ◌≡◌, refl, ◌≢◌, inl, inr, Bool, true, false, not, ◌&&◌, ◌||◌, Option, none, some, List,
  [], ◌∷◌, arith, ◌==◌, length,
}
use qubes_core_qrexec.Protocol.{msg_data_stderr}
use qubes_core_qrexec.Io.Channel.{Rc, remote_exited, remote_eof, remote_error, remote_ok}
use qubes_core_qrexec.Io.Channel.Sender.{Sender}
use qubes_core_qrexec.Io.Channel.Receiver.{Receiver}
use qubes_core_qrexec.Io.Process.State.{
  Request, Process, Poll, polled, interrupted, poll_fails, Events, Next, goes_on, leaves, exits,
  out_of_memory, stdout_msg_type, is_open, all_closed, with_sent, local_done, is_negative,
  after_exit_code,
}
use qubes_core_qrexec.Io.Process.Loop.{
  after_stderr, read_stderr, after_stdout, read_stdout, after_remote, handle_events, after_poll,
  stdout_polled, stderr_polled, is_cut_off, go_on, finish_or_go_on, round, rounds,
}
use qubes_core_qrexec.Io.Process.Kept.{
  Keeps, IsKept, close_stdin-keeps, close_stdout-keeps, close_stderr-source, close_stderr-keeps,
  with_receiver-keeps, react_to_child-keeps, use_one_socket-keeps,
}

module _ (req : Request) (P Q : Process → Type 0) (kept : IsKept req P Q) where
  open kept use {quiet, sends_eof, sends_data, left, sends_exit_code}

  after_stderr-Keeps :
      (p : Process) (rc : Rc) (k : Sender)
      → (rc ≢ remote_error → P (with_sent p k))
      → Keeps P Q (after_stderr p (rc, k))
  after_stderr-Keeps p remote_error k h = tt
  after_stderr-Keeps p remote_eof k h =
      close_stderr-source req P Q kept p.stderr_fd (with_sent p k) k.source (
        close_stderr-keeps req P Q kept _
          (quiet _ p.receiver p.prefix_data p.stdout k.source p.local_status (h (λ z. cc z))))
  after_stderr-Keeps p remote_exited k h =
      quiet _ p.receiver p.prefix_data p.stdout k.source p.local_status (h (λ z. cc z))
  after_stderr-Keeps p remote_ok k h =
      quiet _ p.receiver p.prefix_data p.stdout k.source p.local_status (h (λ z. cc z))

  read_stderr-Keeps :
      (e : Events) (ready : Bool) (p : Process) → P p → Keeps P Q (read_stderr req e ready p)
  unfolding read_stderr
  read_stderr-Keeps e ready p h =
      by_test (Keeps P Q) (is_open p.stderr_fd && ready)
        (λ _.
          after_stderr-Keeps p _ _
            (λ q. sends_data p msg_data_stderr e.stderr_spaces [] p.stderr (inr refl) q h))
        (λ _. h)

  module _ (next : Process → Next) (hn : (p : Process) → P p → Keeps P Q (next p)) where
    after_stdout-Keeps :
        (p : Process) (rc : Rc) (k : Sender)
        → (rc ≢ remote_error → P (with_sent p k))
        → Keeps P Q (after_stdout req next p (rc, k))
    after_stdout-Keeps p remote_error k h = tt
    after_stdout-Keeps p remote_eof k h = hn _ (
        close_stdout-keeps req P Q kept _
          (quiet _ p.receiver k.prefix_data k.source p.stderr p.local_status (h (λ z. cc z))))
    after_stdout-Keeps p remote_exited k h =
        hn _ (quiet _ p.receiver k.prefix_data k.source p.stderr p.local_status (h (λ z. cc z)))
    after_stdout-Keeps p remote_ok k h =
        hn _ (quiet _ p.receiver k.prefix_data k.source p.stderr p.local_status (h (λ z. cc z)))

    read_stdout-Keeps :
        (e : Events) (ready : Bool) (p : Process) → P p → Keeps P Q (read_stdout req e ready next p)
    unfolding read_stdout
    read_stdout-Keeps e ready p h =
        by_test (Keeps P Q) (not (length p.prefix_data == 0) || (is_open p.stdout_fd && ready))
          (λ _. after_stdout-Keeps p _ _ (λ q.
            sends_data p (stdout_msg_type req) e.stdout_spaces p.prefix_data p.stdout (inl refl) q
              h))
          (λ _. hn p h)

    after_remote-Keeps :
        (p : Process) (r : Option (Rc × Receiver)) → P p → Keeps P Q (after_remote req next p r)
    unfolding after_remote
    after_remote-Keeps p none h = tt
    after_remote-Keeps p (some (remote_error, r)) h = tt
    after_remote-Keeps p (some (remote_eof, r)) h =
        hn _ (close_stdin-keeps req P Q kept _ (with_receiver-keeps req P Q kept p r h))
    after_remote-Keeps p (some (remote_ok, r)) h = hn _ (with_receiver-keeps req P Q kept p r h)
    after_remote-Keeps p (some (remote_exited, r)) h = hn _ (
        close_stdout-keeps req P Q kept _ (
          by_test P (is_open p.stdout_fd)
            (λ _. sends_eof _ (with_receiver-keeps req P Q kept p r h))
            (λ _. with_receiver-keeps req P Q kept p r h)))

  handle_events-Keeps : (e : Events) (p : Process) → P p → Keeps P Q (handle_events req e p)
  unfolding handle_events
  handle_events-Keeps e p h =
      by_test (Keeps P Q) e.vchan_wait_fails (λ _. tt)
        (λ _.
          after_remote-Keeps _
            (read_stdout-Keeps _ (read_stderr-Keeps e (stderr_polled e p)) e (stdout_polled e p)) _
            _
            (by_test P (is_open p.stdin_fd && e.stdin_hup) (λ _. close_stdin-keeps req P Q kept p h)
              (λ _. h)))

  after_poll-Keeps : (e : Events) (r : Poll) (p : Process) → P p → Keeps P Q (after_poll req e r p)
  unfolding after_poll
  after_poll-Keeps e polled p h = handle_events-Keeps e p h
  after_poll-Keeps e interrupted p h = h
  after_poll-Keeps e poll_fails p h = left p h

  go_on-Keeps : (e : Events) (p : Process) → P p → Keeps P Q (go_on req e p)
  unfolding go_on
  go_on-Keeps e p h =
      by_test (Keeps P Q) (is_cut_off e p) (λ _. left p h)
        (λ _. after_poll-Keeps e e.poll _ (use_one_socket-keeps req P Q kept e.sigusr1 p h))

  after_exit_code-Keeps :
      (p : Process) (ok : Bool) (k : Sender)
      → (ok ≡ true → Q (with_sent p k))
      → Keeps P Q (after_exit_code p (ok, k))
  after_exit_code-Keeps p true k h = h refl
  after_exit_code-Keeps p false k h = tt

  finish_or_go_on-Keeps : (e : Events) (p : Process) → P p → Keeps P Q (finish_or_go_on req e p)
  unfolding finish_or_go_on
  finish_or_go_on-Keeps e p h =
      by_test (Keeps P Q) (all_closed p && req.is_service && local_done req p)
        (λ q.
          after_exit_code-Keeps p _ _
            (λ s. sends_exit_code p (ground arith) (ground arith) (ground arith) s h))
        (λ _.
          by_test (Keeps P Q)
            (all_closed p
              && not req.is_service
              && local_done req p
              && not (is_negative p.receiver.status))
            (λ _. left p h) (λ _. go_on-Keeps e p h))

  round-Keeps : (e : Events) (p : Process) → P p → Keeps P Q (round req e p)
  unfolding round
  round-Keeps e p h =
      finish_or_go_on-Keeps e _
        (react_to_child-keeps req P Q kept e.child _ (quiet p _ p.prefix_data _ _ p.local_status h))

  pub rounds-Keeps : (es : List Events) (p : Process) → P p → Keeps P Q (rounds req es p)
  unfolding rounds
  rounds-Keeps [] p h = h
  rounds-Keeps (e ∷ es) p h = by_next (round req e p) (round-Keeps e p h) (rounds-Keeps es)
    where
      by_next :
          (n : Next)
          → Keeps P Q n
          → ((q : Process) → P q → Keeps P Q (rounds req es q))
          → (let r : Next = elim n [
            | goes_on p' ↦ rounds req es p'
            | leaves p' ↦ leaves p'
            | exits p' ↦ exits p'
            | out_of_memory ↦ out_of_memory
          ] in
              Keeps P Q r)
      by_next (goes_on p') k ih = ih p' k
      by_next (leaves p') k ih = k
      by_next (exits p') k ih = tt
      by_next out_of_memory k ih = tt
