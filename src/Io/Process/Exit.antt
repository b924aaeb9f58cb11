-- ===== src/Io/Process/Exit.antt =====
-- libqrexec/process_io.c: what `qrexec_process_io` has sent when it returns, and what it returns.
use qubes_core_qrexec.Prelude.{
  by_test, ℕ, ◌≡◌, refl, sym, ap, ◌∙◌, subst, ◌⊎◌, inl, inr, Bool, true, false, not, ◌&&◌, ◌||◌,
  Option, none, some, List, ◌∷◌, ◌++◌, arith, ltb, ◌==◌, if◌then◌else◌, Bytes,
}
use qubes_core_qrexec.Protocol.{msg_data_exit_code, u32_bytes}
use qubes_core_qrexec.Io.Channel.{frame}
use qubes_core_qrexec.Io.Channel.Receiver.{Receiver}
use qubes_core_qrexec.Io.Process.State.{
  Request, Process, ChildStatus, Events, Next, goes_on, leaves, exits, out_of_memory, is_open,
  close_stdio, close_stderr, forget_stdin, close_stdin, close_stdout, status_or,
}
use qubes_core_qrexec.Io.Process.Loop.{
  finish, IoResult, returns, exits_in_loop, memory_ends, still_runs, after_finish,
  qrexec_process_io,
}
use qubes_core_qrexec.Io.Process.Kept.{Keeps, close_stdin-keeps, close_stdout-keeps}
use qubes_core_qrexec.Io.Process.Messages.{
  HasData, HasEnded, InLoop, IsLeft, InLoop-IsKept, rounds-IsLeft,
}

-- What does not send and does not touch the status.
record IsSilent (p q : Process) : Type 0 where
  same_sent : q.sent ≡ p.sent
  same_status : q.local_status ≡ p.local_status

nothing-IsSilent : (p : Process) → IsSilent p p
nothing-IsSilent p = record { same_sent = refl; same_status = refl }

close_stdio-IsSilent :
    (req : Request) (f : Option ℕ) (p : Process) → IsSilent p (close_stdio req f p).1
unfolding close_stdio
close_stdio-IsSilent req none p = nothing-IsSilent p
close_stdio-IsSilent req (some fd) p =
    let P : Bool × Process → Type 0 = λ r. IsSilent p r.1 in
    let closed : IsSilent p (record p { closed = fd ∷ p.closed }) = record {
      same_sent = refl;
      same_status = refl;
    } in
    by_test P (p.use_stdio_socket || ltb 2 fd)
      (λ _.
        by_test P (req.is_pipe fd && not p.use_stdio_socket) (λ _. closed)
          (λ _. nothing-IsSilent p))
      (λ _. closed)

forget_stdin-IsSilent :
    (p : Process) (r : Bool × Process) → IsSilent p r.1 → IsSilent p (forget_stdin r)
forget_stdin-IsSilent p (true, q) s = record {
  same_sent = s.same_sent;
  same_status = s.same_status;
}
forget_stdin-IsSilent p (false, q) s = record {
  same_sent = s.same_sent;
  same_status = s.same_status;
}

-- Without an open stdout there is no end of the file to send.
close_stdin-IsSilent :
    (req : Request) (p : Process) → is_open p.stdout_fd ≡ false → IsSilent p (close_stdin req p)
unfolding close_stdin
close_stdin-IsSilent req p e =
    by_test (IsSilent p) req.exit_on_stdin_eof
      (λ _.
        let s : IsSilent p _ =
          by_test (IsSilent p) (is_open p.stdout_fd) (λ o. absurd (cc (o, e)))
            (λ _. nothing-IsSilent p) in
        record { same_sent = s.same_sent; same_status = s.same_status })
      (λ _. forget_stdin-IsSilent p _ (close_stdio-IsSilent req p.stdin_fd p))

close_stdout-IsSilent : (req : Request) (p : Process) → IsSilent p (close_stdout req p)
unfolding close_stdout
close_stdout-IsSilent req p =
    by_test (IsSilent p) req.exit_on_stdout_eof
      (λ _. record { same_sent = refl; same_status = refl })
      (λ _.
        let s = close_stdio-IsSilent req p.stdout_fd p in
        record { same_sent = s.same_sent; same_status = s.same_status })

close_stderr-sent : (f : Option ℕ) (p : Process) → (close_stderr f p).sent ≡ p.sent
close_stderr-sent none p = refl
close_stderr-sent (some fd) p = refl

-- Whole messages of data, and of a service the exit code that is returned as the last one.
pub record EndsWith (req : Request) (code : ℕ) (sent : Bytes) : Type 0 where
  pub before : Bytes
  pub has_data : HasData req before
  pub code_is_last : sent ≡ before ++ frame msg_data_exit_code (u32_bytes code)
  pub is_service : req.is_service ≡ true

abbrev pub IoStream : Request → IoResult → Type 0
IoStream req (returns code p) = HasData req p.sent ⊎ EndsWith req code p.sent
IoStream req (exits_in_loop p) = Unit
IoStream req memory_ends = Unit
IoStream req (still_runs p) = HasData req p.sent

finish-data :
    (req : Request) (last : Option ChildStatus) (p : Process)
    → InLoop req p
    → HasData req (finish req last p).0.sent
unfolding finish
finish-data req last p h =
    let kept = InLoop-IsKept req in
    let p1 = close_stdout req (close_stdin req p) in
    subst (HasData req) (sym (close_stderr-sent p1.stderr_fd p1)) (
      close_stdout-keeps req (InLoop req) (IsLeft req) kept _
        (close_stdin-keeps req (InLoop req) (IsLeft req) kept p h))

-- The status of a local process that has ended is the one that is sent.
same_code :
    (pid : ℕ) (s t : Option ℕ) (u : Option ℕ)
    → (pid == 0 || is_open s) ≡ true
    → t ≡ s
    → (if pid == 0 then 0 else status_or 0xffff_ffff (if pid == 0 || is_open t then t else u))
      ≡ (if pid == 0 then 0 else status_or 0xffff_ffff s)
same_code pid s t u h e =
    subst
      (λ x.
        (if pid == 0 then 0 else status_or 0xffff_ffff (if pid == 0 || is_open x then x else u))
        ≡ (if pid == 0 then 0 else status_or 0xffff_ffff s))
      (sym e) (rw h refl)

for_service : (b c : Bool) (y z : ℕ) → b ≡ true → z ≡ (if not b && c then y else z)
for_service true c y z h = refl
for_service false c y z h = absurd (cc h)

finish-ended :
    (req : Request) (last : Option ChildStatus) (p : Process)
    → HasEnded req p
    → EndsWith req (finish req last p).1 (finish req last p).0.sent
unfolding finish
finish-ended req last p h =
    let a = close_stdin-IsSilent req p (ground (arith, h.closed)) in
    let b = close_stdout-IsSilent req (close_stdin req p) in
    let p1 = close_stdout req (close_stdin req p) in
    record {
      before = h.before;
      has_data = h.has_data;
      code_is_last =
          close_stderr-sent p1.stderr_fd p1
          ∙ (b.same_sent
              ∙ (a.same_sent
                  ∙ (h.code_is_last
                      ∙ ap (λ c. h.before ++ frame msg_data_exit_code (u32_bytes c))
                          (sym (
                              same_code req.local_pid p.local_status p1.local_status _ h.local_ended
                                (b.same_status ∙ a.same_status))
                            ∙ for_service req.is_service _ _ _ h.is_service))));
      is_service = h.is_service;
    }

-- Where `qrexec_process_io` returns, it has put on the vchan whole messages of stdout or stderr, each with at most a chunk of the protocol version, and behind them at most one message with an exit code, which only a service sends and which is the code that it returns; while it runs there are only messages of stdout and stderr.
pub process_io-IoStream :
    (req : Request) (stdin_fd stdout_fd stderr_fd : Option ℕ) (prefix : Bytes) (receiver : Receiver)
    (write_results : List Bool) (events : List Events) (last : Option ChildStatus)
    → IoStream req (
        qrexec_process_io req stdin_fd stdout_fd stderr_fd prefix receiver write_results events
          last)
unfolding qrexec_process_io
process_io-IoStream req stdin_fd stdout_fd stderr_fd prefix receiver write_results events last =
    by_next _ (rounds-IsLeft req stdin_fd stdout_fd stderr_fd prefix receiver write_results events)
  where
    after_left : (p : Process) → IsLeft req p → IoStream req (after_finish (finish req last p))
    after_left p (inl h) = inl (finish-data req last p h)
    after_left p (inr h) = inr (finish-ended req last p h)

    by_next :
        (n : Next)
        → Keeps (InLoop req) (IsLeft req) n
        → (let r : IoResult = elim n [
          | goes_on p ↦ still_runs p
          | leaves p ↦ after_finish (finish req last p)
          | exits p ↦ exits_in_loop p
          | out_of_memory ↦ memory_ends
        ] in
            IoStream req r)
    by_next (goes_on p) k = k
    by_next (leaves p) k = after_left p k
    by_next (exits p) k = tt
    by_next out_of_memory k = tt
