-- ===== src/Io/Process/Kept.antt =====
-- libqrexec/process_io.c: predicates that the loop of `qrexec_process_io` keeps.
use qubes_core_qrexec.Prelude.{
  by_test, ℕ, ◌≡◌, refl, subst, ◌≢◌, ◌⊎◌, Bool, true, false, not, ◌&&◌, ◌||◌, Option, none, some,
  List, [], ◌∷◌, arith, ltb, Bytes,
}
use qubes_core_qrexec.Protocol.{msg_data_stderr}
use qubes_core_qrexec.Io.Channel.{remote_error}
use qubes_core_qrexec.Io.Channel.Sender.{Source, handle_input_v2, send_exit_code}
use qubes_core_qrexec.Io.Channel.Receiver.{Receiver}
use qubes_core_qrexec.Io.Process.State.{
  Request, Process, ChildStatus, Next, goes_on, leaves, exits, out_of_memory, stdout_msg_type,
  is_open, all_closed, max_chunk, sender, with_sent, send_eof, close_stdio, close_stderr,
  forget_stdin, close_stdin, close_stdout, react_to_child, use_one_socket, local_done, service_code,
  status_of,
}

-- `P` of the states in which the loop goes on, `Q` of those in which it is left.
abbrev pub Keeps : (Process → Type 0) → (Process → Type 0) → Next → Type 0
Keeps P Q (goes_on p) = P p
Keeps P Q (leaves p) = Q p
Keeps P Q (exits p) = Unit
Keeps P Q out_of_memory = Unit

-- Every change of the state keeps `P`, and the loop is left with `Q`.
pub record IsKept (req : Request) (P Q : Process → Type 0) : Type 0 where
  pub quiet :
      (p : Process) (receiver : Receiver) (prefix : Bytes) (stdout stderr : List Source)
      (status : Option ℕ)
      → P p
      → P (record p {
        receiver = receiver;
        prefix_data = prefix;
        stdout = stdout;
        stderr = stderr;
        local_status = status;
      })
  pub sends_eof : (p : Process) → P p → P (send_eof (stdout_msg_type req) p)
  pub sends_data :
      (p : Process) (type : ℕ) (spaces : List ℕ) (prefix : Bytes) (source : List Source)
      → (type ≡ stdout_msg_type req) ⊎ (type ≡ msg_data_stderr)
      → (handle_input_v2 type (max_chunk req) spaces (sender prefix source p)).0 ≢ remote_error
      → P p
      → P (with_sent p (handle_input_v2 type (max_chunk req) spaces (sender prefix source p)).1)
  pub drops_stdin : (p : Process) → P p → P (record p { stdin_fd = none })
  pub drops_stdout : (p : Process) → P p → P (record p { stdout_fd = none })
  pub closes_stdin :
      (p : Process) (fd : ℕ)
      → p.use_stdio_socket ≡ false
      → p.stdin_fd ≡ some fd
      → P p
      → P (record p { stdin_fd = none; saved_stdin_fd = none; closed = fd ∷ p.closed })
  pub closes_stdout :
      (p : Process) (fd : ℕ)
      → p.use_stdio_socket ≡ false
      → p.stdout_fd ≡ some fd
      → P p
      → P (record p { stdout_fd = none; closed = fd ∷ p.closed })
  pub closes_stderr :
      (p : Process) (fd : ℕ)
      → p.stderr_fd ≡ some fd
      → P p
      → P (record p { stderr_fd = none; closed = fd ∷ p.closed })
  pub drops_stderr : (p : Process) → P p → P (record p { stderr_fd = none })
  pub one_socket :
      (p : Process) → P p → P (record p { stdout_fd = p.saved_stdin_fd; use_stdio_socket = true })
  pub left : (p : Process) → P p → Q p
  pub sends_exit_code :
      (p : Process)
      → all_closed p ≡ true
      → req.is_service ≡ true
      → local_done req p ≡ true
      → (send_exit_code (service_code req p) (sender [] [] p)).0 ≡ true
      → P p
      → Q (with_sent p (send_exit_code (service_code req p) (sender [] [] p)).1)

module _ (req : Request) (P Q : Process → Type 0) (kept : IsKept req P Q) where
  open kept use {
    quiet, sends_eof, drops_stdin, drops_stdout, closes_stdin, closes_stdout, closes_stderr,
    drops_stderr, one_socket,
  }

  forget_stdin-keeps : (p : Process) → P p → P (forget_stdin (close_stdio req p.stdin_fd p))
  unfolding close_stdio
  forget_stdin-keeps p h = by_fd p.stdin_fd refl
    where
      by_fd : (f : Option ℕ) → p.stdin_fd ≡ f → P (forget_stdin (close_stdio req f p))
      by_fd none e = drops_stdin p h
      by_fd (some fd) e =
          by_test (λ r. P (forget_stdin r)) (p.use_stdio_socket || ltb 2 fd)
            (λ _.
              by_test (λ r. P (forget_stdin r)) (req.is_pipe fd && not p.use_stdio_socket)
                (λ q. closes_stdin p fd (ground arith) e h) (λ _. drops_stdin p h))
            (λ q. closes_stdin p fd (ground arith) e h)

  pub close_stdin-keeps : (p : Process) → P p → P (close_stdin req p)
  unfolding close_stdin
  close_stdin-keeps p h =
      by_test P req.exit_on_stdin_eof
        (λ _.
          drops_stdout _
            (drops_stdin _ (by_test P (is_open p.stdout_fd) (λ _. sends_eof p h) (λ _. h))))
        (λ _. forget_stdin-keeps p h)

  shut_stdout-keeps :
      (p : Process) → P p → P (record (close_stdio req p.stdout_fd p).1 { stdout_fd = none })
  unfolding close_stdio
  shut_stdout-keeps p h = by_fd p.stdout_fd refl
    where
      by_fd :
          (f : Option ℕ) → p.stdout_fd ≡ f → P (record (close_stdio req f p).1 { stdout_fd = none })
      by_fd none e = drops_stdout p h
      by_fd (some fd) e =
          by_test (λ (r : Bool × Process). P (record r.1 { stdout_fd = none }))
            (p.use_stdio_socket || ltb 2 fd)
            (λ _.
              by_test (λ (r : Bool × Process). P (record r.1 { stdout_fd = none }))
                (req.is_pipe fd && not p.use_stdio_socket)
                (λ q. closes_stdout p fd (ground arith) e h) (λ _. drops_stdout p h))
            (λ q. closes_stdout p fd (ground arith) e h)

  pub close_stdout-keeps : (p : Process) → P p → P (close_stdout req p)
  unfolding close_stdout
  close_stdout-keeps p h =
      by_test P req.exit_on_stdout_eof (λ _. drops_stdout _ (drops_stdin p h))
        (λ _. shut_stdout-keeps p h)

  pub close_stderr-keeps :
      (p : Process) → P p → P (record (close_stderr p.stderr_fd p) { stderr_fd = none })
  close_stderr-keeps p h = by_fd p.stderr_fd refl
    where
      by_fd : (f : Option ℕ) → p.stderr_fd ≡ f → P (record (close_stderr f p) { stderr_fd = none })
      by_fd none e = drops_stderr p h
      by_fd (some fd) e = closes_stderr p fd e h

  -- The source of stderr may be set after it is closed.
  pub close_stderr-source :
      (f : Option ℕ) (p : Process) (source : List Source)
      → P (record (close_stderr f (record p { stderr = source })) { stderr_fd = none })
      → P (record (close_stderr f p) { stderr = source; stderr_fd = none })
  close_stderr-source none p source h = h
  close_stderr-source (some fd) p source h = h

  pub with_status-keeps : (p : Process) (s : Option ℕ) → P p → P (record p { local_status = s })
  with_status-keeps p s h = quiet p p.receiver p.prefix_data p.stdout p.stderr s h

  pub with_receiver-keeps : (p : Process) (r : Receiver) → P p → P (record p { receiver = r })
  with_receiver-keeps p r h = quiet p r p.prefix_data p.stdout p.stderr p.local_status h

  pub react_to_child-keeps :
      (c : Option ChildStatus) (p : Process) → P p → P (react_to_child req c p)
  unfolding react_to_child
  react_to_child-keeps none p h = h
  react_to_child-keeps (some s) p h =
      by_test P (ltb 0 req.local_pid)
        (λ _. close_stdin-keeps _ (with_status-keeps p (some (status_of s)) h)) (λ _. h)

  close_stdio-saved :
      (f : Option ℕ) (p : Process) → (close_stdio req f p).1.saved_stdin_fd ≡ p.saved_stdin_fd
  unfolding close_stdio
  close_stdio-saved none p = refl
  close_stdio-saved (some fd) p =
      let Same : Bool × Process → Type 0 = λ r. r.1.saved_stdin_fd ≡ p.saved_stdin_fd in
      by_test Same (p.use_stdio_socket || ltb 2 fd)
        (λ _. by_test Same (req.is_pipe fd && not p.use_stdio_socket) (λ _. refl) (λ _. refl))
        (λ _. refl)

  close_stdout-saved : (p : Process) → (close_stdout req p).saved_stdin_fd ≡ p.saved_stdin_fd
  unfolding close_stdout
  close_stdout-saved p =
      by_test (λ (r : Process). r.saved_stdin_fd ≡ p.saved_stdin_fd) req.exit_on_stdout_eof
        (λ _. refl) (λ _. close_stdio-saved p.stdout_fd p)

  pub use_one_socket-keeps : (s : Bool) (p : Process) → P p → P (use_one_socket req s p)
  unfolding use_one_socket
  use_one_socket-keeps s p h = by_test P (s && not p.use_stdio_socket) (λ _. by_closed) (λ _. h)
    where
      by_closed :
          P (record (close_stdout req p) { stdout_fd = p.saved_stdin_fd; use_stdio_socket = true })
      by_closed =
          subst (λ f. P (record (close_stdout req p) { stdout_fd = f; use_stdio_socket = true }))
            (close_stdout-saved p) (one_socket (close_stdout req p) (close_stdout-keeps p h))
