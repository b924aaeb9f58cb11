-- ===== src/Io/Process/Descriptors.antt =====
-- libqrexec/process_io.c: the descriptors of `qrexec_process_io`.
use qubes_core_qrexec.Prelude.{
  by_test, ℕ, ◌≡◌, ◌≢◌, Bool, true, false, not, ◌&&◌, Option, none, some, List, [], ◌∷◌, arith, All,
  Bytes,
}
use qubes_core_qrexec.Io.Channel.Receiver.{Receiver}
use qubes_core_qrexec.Io.Process.State.{
  Request, Process, ChildStatus, Events, Next, goes_on, leaves, exits, out_of_memory, is_open,
  send_eof,
}
use qubes_core_qrexec.Io.Process.Loop.{rounds, same_fd, begin, finish}
use qubes_core_qrexec.Io.Process.Rounds.{rounds-Keeps}
use qubes_core_qrexec.Io.Process.Kept.{
  Keeps, IsKept, close_stdin-keeps, close_stdout-keeps, close_stderr-keeps,
}

-- The part of the state that the data does not touch.
pub record Fds : Type 0 where
  pub stdin : Option ℕ
  pub stdout : Option ℕ
  pub stderr : Option ℕ
  pub saved : Option ℕ
  pub socket : Bool
  pub closed : List ℕ

abbrev pub fds : Process → Fds
fds p = record {
  stdin = p.stdin_fd;
  stdout = p.stdout_fd;
  stderr = p.stderr_fd;
  saved = p.saved_stdin_fd;
  socket = p.use_stdio_socket;
  closed = p.closed;
}

abbrev pub IsLive : ℕ → List ℕ → Type 0
IsLive fd closed = All (λ c. c ≢ fd) closed

-- No descriptor was closed twice.
abbrev pub ClosedOnce : List ℕ → Type 0
ClosedOnce [] = Unit
ClosedOnce (fd ∷ closed) = IsLive fd closed × ClosedOnce closed

-- The invariants that the source states, and that no descriptor in use has been closed, and none twice:
-- `saved_stdin_fd` is `stdin_fd` while that is open; stdin and stdout are one descriptor only with
-- `use_stdio_socket`, and with it they are one while both are open.
pub record FdsValid (f : Fds) : Type 0 where
  pub saved_is_stdin : (fd : ℕ) → f.stdin ≡ some fd → f.saved ≡ some fd
  pub apart : f.socket ≡ false → (fd : ℕ) → f.saved ≡ some fd → f.stdout ≢ some fd
  pub together : f.socket ≡ true → (fd fd' : ℕ) → f.stdin ≡ some fd → f.stdout ≡ some fd' → fd ≡ fd'
  pub stderr_apart : (fd : ℕ) → f.stderr ≡ some fd → (f.saved ≢ some fd) × (f.stdout ≢ some fd)
  pub saved_live : (fd : ℕ) → f.saved ≡ some fd → IsLive fd f.closed
  pub stdout_live : (fd : ℕ) → f.stdout ≡ some fd → IsLive fd f.closed
  pub stderr_live : (fd : ℕ) → f.stderr ≡ some fd → IsLive fd f.closed
  pub once : ClosedOnce f.closed

abbrev pub HasFds : Process → Type 0
HasFds p = FdsValid (fds p)

module _ (f : Fds) (v : FdsValid f) where
  drop_stdin-FdsValid : FdsValid (record f { stdin = none })
  drop_stdin-FdsValid = record {
    saved_is_stdin = λ fd e. absurd (cc e);
    apart = v.apart;
    together = λ s fd fd' e. absurd (cc e);
    stderr_apart = v.stderr_apart;
    saved_live = v.saved_live;
    stdout_live = v.stdout_live;
    stderr_live = v.stderr_live;
    once = v.once;
  }

  drop_stdout-FdsValid : FdsValid (record f { stdout = none })
  drop_stdout-FdsValid = record {
    saved_is_stdin = v.saved_is_stdin;
    apart = λ s fd e q. cc q;
    together = λ s fd fd' e q. absurd (cc q);
    stderr_apart = λ fd e. ((v.stderr_apart fd e).0, λ q. cc q);
    saved_live = v.saved_live;
    stdout_live = λ fd q. absurd (cc q);
    stderr_live = v.stderr_live;
    once = v.once;
  }

  close_saved-FdsValid :
      (fd : ℕ)
      → f.socket ≡ false
      → f.saved ≡ some fd
      → FdsValid (record f { stdin = none; saved = none; closed = fd ∷ f.closed })
  close_saved-FdsValid fd s e = record {
    saved_is_stdin = λ n q. absurd (cc q);
    apart = λ t n q. absurd (cc q);
    together = λ t n n' q. absurd (cc q);
    stderr_apart = λ n q. (λ z. cc z, (v.stderr_apart n q).1);
    saved_live = λ n q. absurd (cc q);
    stdout_live = λ n q. (λ z. v.apart s fd e (rw z q), v.stdout_live n q);
    stderr_live = λ n q. (λ z. (v.stderr_apart n q).0 (rw (← z) e), v.stderr_live n q);
    once = (v.saved_live fd e, v.once);
  }

  close_stdout-FdsValid :
      (fd : ℕ)
      → f.socket ≡ false
      → f.stdout ≡ some fd
      → FdsValid (record f { stdout = none; closed = fd ∷ f.closed })
  close_stdout-FdsValid fd s e = record {
    saved_is_stdin = v.saved_is_stdin;
    apart = λ t n q z. cc z;
    together = λ t n n' q z. absurd (cc z);
    stderr_apart = λ n q. ((v.stderr_apart n q).0, λ z. cc z);
    saved_live = λ n q. (λ z. v.apart s n q (rw (← z) e), v.saved_live n q);
    stdout_live = λ n q. absurd (cc q);
    stderr_live = λ n q. (λ z. (v.stderr_apart n q).1 (rw (← z) e), v.stderr_live n q);
    once = (v.stdout_live fd e, v.once);
  }

  close_stderr-FdsValid :
      (fd : ℕ) → f.stderr ≡ some fd → FdsValid (record f { stderr = none; closed = fd ∷ f.closed })
  close_stderr-FdsValid fd e = record {
    saved_is_stdin = v.saved_is_stdin;
    apart = v.apart;
    together = v.together;
    stderr_apart = λ n q. absurd (cc q);
    saved_live = λ n q. (λ z. (v.stderr_apart fd e).0 (rw z q), v.saved_live n q);
    stdout_live = λ n q. (λ z. (v.stderr_apart fd e).1 (rw z q), v.stdout_live n q);
    stderr_live = λ n q. absurd (cc q);
    once = (v.stderr_live fd e, v.once);
  }

  one_socket-FdsValid : FdsValid (record f { stdout = f.saved; socket = true })
  one_socket-FdsValid = record {
    saved_is_stdin = v.saved_is_stdin;
    apart = λ s. absurd (cc s);
    together = λ s n n' q z. cc (v.saved_is_stdin n q, z);
    stderr_apart = λ n q. ((v.stderr_apart n q).0, (v.stderr_apart n q).0);
    saved_live = v.saved_live;
    stdout_live = v.saved_live;
    stderr_live = v.stderr_live;
    once = v.once;
  }

-- A new stderr is kept from nothing.
drop_stderr-FdsValid : (f : Fds) → FdsValid f → FdsValid (record f { stderr = none })
drop_stderr-FdsValid f v = record {
  saved_is_stdin = v.saved_is_stdin;
  apart = v.apart;
  together = v.together;
  stderr_apart = λ fd e. absurd (cc e);
  saved_live = v.saved_live;
  stdout_live = v.stdout_live;
  stderr_live = λ fd e. absurd (cc e);
  once = v.once;
}

HasFds-IsKept : (req : Request) → IsKept req HasFds HasFds
unfolding send_eof
HasFds-IsKept req = record {
  quiet = λ p r prefix out err s h. h;
  sends_eof = λ p h. h;
  sends_data = λ p type spaces prefix source t e h. h;
  drops_stdin = λ p h. drop_stdin-FdsValid (fds p) h;
  drops_stdout = λ p h. drop_stdout-FdsValid (fds p) h;
  closes_stdin = λ p fd s e h. close_saved-FdsValid (fds p) h fd s (h.saved_is_stdin fd e);
  closes_stdout = λ p fd s e h. close_stdout-FdsValid (fds p) h fd s e;
  closes_stderr = λ p fd e h. close_stderr-FdsValid (fds p) h fd e;
  drops_stderr = λ p h. drop_stderr-FdsValid (fds p) h;
  one_socket = λ p h. one_socket-FdsValid (fds p) h;
  left = λ p h. h;
  sends_exit_code = λ p a s l e h. h;
}

same_fd-apart : (a b : Option ℕ) → same_fd a b ≡ false → (fd : ℕ) → a ≡ some fd → b ≡ some fd → ⊥
same_fd-apart none b e fd q z = absurd (cc q)
same_fd-apart (some n) none e fd q z = absurd (cc z)
same_fd-apart (some n) (some m) e fd q z =
    let u : n ≡ fd = cc q in let w : m ≡ fd = cc z in ground arith

same_fd-same :
    (a b : Option ℕ) → same_fd a b ≡ true → (fd fd' : ℕ) → a ≡ some fd → b ≡ some fd' → fd ≡ fd'
same_fd-same none b e fd fd' q z = absurd (cc q)
same_fd-same (some n) none e fd fd' q z = absurd (cc z)
same_fd-same (some n) (some m) e fd fd' q z =
    let u : n ≡ fd = cc q in let w : m ≡ fd' = cc z in ground arith

begin-HasFds :
    (req : Request) (stdin_fd stdout_fd stderr_fd : Option ℕ) (prefix : Bytes) (receiver : Receiver)
    (write_results : List Bool)
    → ((fd : ℕ) → stderr_fd ≡ some fd → (stdin_fd ≢ some fd) × (stdout_fd ≢ some fd))
    → HasFds (begin req stdin_fd stdout_fd stderr_fd prefix receiver write_results)
unfolding begin send_eof
begin-HasFds req stdin_fd stdout_fd stderr_fd prefix receiver write_results d =
    by_test HasFds (req.is_service && not (is_open stderr_fd)) (λ _. valid) (λ _. valid)
  where
    valid : FdsValid (record {
      stdin = stdin_fd;
      stdout = stdout_fd;
      stderr = stderr_fd;
      saved = stdin_fd;
      socket = same_fd stdin_fd stdout_fd;
      closed = [];
    })
    valid = record {
      saved_is_stdin = λ fd e. e;
      apart = same_fd-apart stdin_fd stdout_fd;
      together = same_fd-same stdin_fd stdout_fd;
      stderr_apart = d;
      saved_live = λ fd e. tt;
      stdout_live = λ fd e. tt;
      stderr_live = λ fd e. tt;
      once = tt;
    }

finish-ClosedOnce :
    (req : Request) (last : Option ChildStatus) (p : Process)
    → HasFds p
    → ClosedOnce (finish req last p).0.closed
unfolding finish
finish-ClosedOnce req last p h =
    let kept = HasFds-IsKept req in
    let h1 =
      close_stdout-keeps req HasFds HasFds kept _ (close_stdin-keeps req HasFds HasFds kept p h) in
    (close_stderr-keeps req HasFds HasFds kept _ h1).once

-- What `qrexec_process_io` keeps of its descriptors, in the loop and after it.
abbrev pub KeepsFds : Request → Process → Type 0
KeepsFds req p = HasFds p × ((last : Option ChildStatus) → ClosedOnce (finish req last p).0.closed)

-- Whatever happens in the rounds of the loop of `qrexec_process_io`, where it is called with a stderr that is neither stdin nor stdout: in the state in which the loop goes on or is left, the saved stdin is the stdin that is open, stdin and stdout are one descriptor while both are open only if a socket is used for both, and then always, and no descriptor that is in use has been closed; no descriptor has been closed twice, nor is it by what is closed after the loop.
pub rounds-KeepsFds :
    (req : Request) (stdin_fd stdout_fd stderr_fd : Option ℕ) (prefix : Bytes) (receiver : Receiver)
    (write_results : List Bool) (events : List Events)
    → ((fd : ℕ) → stderr_fd ≡ some fd → (stdin_fd ≢ some fd) × (stdout_fd ≢ some fd))
    → Keeps
        (KeepsFds req)
        (KeepsFds req)
        (rounds req events (begin req stdin_fd stdout_fd stderr_fd prefix receiver write_results))
rounds-KeepsFds req stdin_fd stdout_fd stderr_fd prefix receiver write_results events d =
    with_finish _ (
      rounds-Keeps req HasFds HasFds (HasFds-IsKept req) events _
        (begin-HasFds req stdin_fd stdout_fd stderr_fd prefix receiver write_results d))
  where
    with_finish : (n : Next) → Keeps HasFds HasFds n → Keeps (KeepsFds req) (KeepsFds req) n
    with_finish (goes_on p) h = (h, λ last. finish-ClosedOnce req last p h)
    with_finish (leaves p) h = (h, λ last. finish-ClosedOnce req last p h)
    with_finish (exits p) h = tt
    with_finish out_of_memory h = tt
