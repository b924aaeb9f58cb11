-- ===== src/Agent/Data/Stream.antt =====
-- agent/qrexec-agent-data.c: what goes to the other end of a connection.
use qubes_core_qrexec.Prelude.{
  by_test, ℕ, ◌<◌, ◌≡◌, refl, sym, subst, inl, inr, true, false, not, Option, none, some, [], ◌∷◌,
  ◌++◌, arith, Bytes,
}
use qubes_core_qrexec.Protocol.{
  u32_mod, protocol_version, msg_exec_cmdline, msg_just_exec, msg_data_stdout, msg_data_stderr,
  msg_data_exit_code, exit_service_not_found, exit_problem, u32_bytes,
}
use qubes_core_qrexec.Rpc.Command.{ParsedCommand}
use qubes_core_qrexec.Io.Channel.{frame}
use qubes_core_qrexec.Io.Channel.Sender.{send, send_exit_code}
use qubes_core_qrexec.Io.Process.State.{Request}
use qubes_core_qrexec.Io.Process.Loop.{IoResult, returns, exits_in_loop, memory_ends, still_runs}
use qubes_core_qrexec.Io.Process.Messages.{HasData}
use qubes_core_qrexec.Io.Process.Exit.{IoStream, process_io-IoStream}
use qubes_core_qrexec.Dom0.Handshake.{hello_bytes, agreed, fresh, agreed_link, handshake-link}
use qubes_core_qrexec.Dom0.Run.{
  Prepared, prepared, not_found, problem, Ended, ends, dies, goes_on, link_sender, after_loop,
}
use qubes_core_qrexec.Dom0.Run.Stream.{HasStream, after_loop-HasStream}
use qubes_core_qrexec.Agent.Data.{
  DataProcess, handle_just_exec, fail_process, data_request, execute, run_process, by_type,
  handle_new_process_common, client_loop, handle_data_client,
}

fail_process-HasStream :
    (c : DataProcess) (cmd : Option ParsedCommand) (version code : ℕ) (more : Bytes)
    → HasStream
        (data_request c true cmd version)
        (fail_process code (link_sender (agreed_link more)))
unfolding fail_process send send_exit_code
fail_process-HasStream c cmd version code more = record {
  body =
      frame msg_data_stdout []
      ++ (frame msg_data_stderr [] ++ frame msg_data_exit_code (u32_bytes code));
  after_hello = refl;
  valid = inr (record {
    before = frame msg_data_stdout [] ++ frame msg_data_stderr [];
    has_data = record {
      messages = (msg_data_stdout, []) ∷ (msg_data_stderr, []) ∷ [];
      framed = refl;
      data_only = ((inl refl, omega arith), ((inr refl, omega arith), tt));
    };
    code_is_last = refl;
    is_service = refl;
  });
}

run_process-HasStream :
    (c : DataProcess) (cmd : Option ParsedCommand) (version : ℕ) (more : Bytes) (r : Prepared)
    → HasStream (data_request c true cmd version) (run_process c cmd version r (agreed_link more))
run_process-HasStream c cmd version more prepared =
    after_loop-HasStream (data_request c true cmd version) _ (
      process_io-IoStream (data_request c true cmd version) (some c.stdin_fd) (some c.stdout_fd)
        c.stderr_fd [] c.receiver [] c.events c.last)
run_process-HasStream c cmd version more not_found =
    fail_process-HasStream c cmd version exit_service_not_found more
run_process-HasStream c cmd version more problem =
    fail_process-HasStream c cmd version exit_problem more

-- The exit code alone, behind MSG_HELLO.
abbrev pub OnlyExitCode : ℕ → Ended → Type 0
OnlyExitCode code r =
    r ≡ ends 0 (hello_bytes protocol_version ++ frame msg_data_exit_code (u32_bytes code))

-- With a peer whose version is accepted and with sends that succeed: for MSG_EXEC_CMDLINE the vchan carries MSG_HELLO, then whole messages of stdout and stderr, and behind them at most one exit code, which is the one that is returned, also where the service could not be started; for MSG_JUST_EXEC it carries the result of the start as the exit code, and nothing else, and 0 is returned.
pub new_process-HasStream :
    (c : DataProcess) (cmd : Option ParsedCommand) (version actual : ℕ) (more : Bytes)
    → c.vchan_connects ≡ true
    → version < u32_mod
    → agreed version ≡ some actual
    → HasStream
        (data_request c true cmd actual)
        (handle_new_process_common msg_exec_cmdline c cmd (fresh (hello_bytes version ++ more)))
      × OnlyExitCode
          (handle_just_exec c cmd)
          (handle_new_process_common msg_just_exec c cmd (fresh (hello_bytes version ++ more)))
unfolding handle_new_process_common send_exit_code send
new_process-HasStream c cmd version actual more v h e = (
  by_test (HasStream (data_request c true cmd actual)) (not c.vchan_connects)
      (λ z. absurd (ground arith))
      (λ _.
        subst (λ r. HasStream (data_request c true cmd actual) (by_type msg_exec_cmdline c cmd r))
          (sym (handshake-link version actual more h e))
          (run_process-HasStream c cmd actual more (execute c cmd))),
  by_test (OnlyExitCode (handle_just_exec c cmd)) (not c.vchan_connects)
      (λ z. absurd (ground arith))
      (λ _.
        subst (λ r. OnlyExitCode (handle_just_exec c cmd) (by_type msg_just_exec c cmd r))
          (sym (handshake-link version actual more h e)) refl),
)

-- The data of a client's input, behind MSG_HELLO.
pub record InputStream (req : Request) (sent : Bytes) : Type 0 where
  pub body : Bytes
  pub after_hello : sent ≡ hello_bytes protocol_version ++ body
  pub data_only : HasData req body

abbrev pub HasInput : Request → Ended → Type 0
HasInput req (ends code sent) = InputStream req sent
HasInput req (dies sent) = Unit
HasInput req (goes_on sent) = InputStream req sent

client_loop-HasInput :
    (req : Request) (r : IoResult)
    → req.is_service ≡ false
    → IoStream req r
    → HasInput req (after_loop true (hello_bytes protocol_version) r)
client_loop-HasInput req (returns code p) n (inl h) = record {
  body = p.sent;
  after_hello = refl;
  data_only = h;
}
client_loop-HasInput req (returns code p) n (inr h) = absurd (cc (h.is_service, n))
client_loop-HasInput req (exits_in_loop p) n h = tt
client_loop-HasInput req memory_ends n h = tt
client_loop-HasInput req (still_runs p) n h = record {
  body = p.sent;
  after_hello = refl;
  data_only = h;
}

-- With a peer whose version is accepted and with sends that succeed, a client sends MSG_HELLO and then whole messages of data, each with at most a chunk, and never an exit code.
pub data_client-HasInput :
    (c : DataProcess) (extra_data : Bytes) (version actual : ℕ) (more : Bytes)
    → c.vchan_connects ≡ true
    → version < u32_mod
    → agreed version ≡ some actual
    → HasInput
        (data_request c false none actual)
        (handle_data_client c extra_data (fresh (hello_bytes version ++ more)))
unfolding handle_data_client
data_client-HasInput c extra_data version actual more v h e =
    let req = data_request c false none actual in
    by_test (HasInput req) (not c.vchan_connects) (λ z. absurd (ground arith))
      (λ _.
        subst (λ r. HasInput req (client_loop c extra_data r))
          (sym (handshake-link version actual more h e))
          (client_loop-HasInput req _ refl (
            process_io-IoStream req (some c.stdin_fd) (some c.stdout_fd) none extra_data c.receiver
              [] c.events c.last)))
