-- ===== src/Dom0/Run/Stream.antt =====
-- daemon/qrexec-daemon-common.c: what goes to the VM on the data vchan of a call to dom0.
use qubes_core_qrexec.Prelude.{
  by_test, ℕ, ◌<◌, ◌≡◌, refl, sym, subst, ◌⊎◌, inl, inr, true, not, none, some, [], ◌∷◌, ◌++◌,
  arith, Bytes,
}
use qubes_core_qrexec.Protocol.{
  u32_mod, protocol_version, msg_data_stdout, msg_data_stderr, msg_data_exit_code, u32_bytes,
}
use qubes_core_qrexec.Io.Channel.{frame}
use qubes_core_qrexec.Io.Channel.Sender.{send, send_exit_code}
use qubes_core_qrexec.Io.Process.State.{Request}
use qubes_core_qrexec.Io.Process.Loop.{
  IoResult, returns, exits_in_loop, memory_ends, still_runs, qrexec_process_io,
}
use qubes_core_qrexec.Io.Process.Messages.{HasData}
use qubes_core_qrexec.Io.Process.Exit.{EndsWith, IoStream, process_io-IoStream}
use qubes_core_qrexec.Dom0.Link.{Link}
use qubes_core_qrexec.Dom0.Handshake.{hello_bytes, agreed, fresh, agreed_link, agent_handshake-link}
use qubes_core_qrexec.Dom0.Run.{
  Prepared, prepared, not_found, problem, Local, HandshakeParams, Ended, ends, dies, goes_on,
  link_sender, eof_headers, handle_failed_exec, select_request, after_loop, select_loop,
  failure_code, go, after_agreement, handshake_and_go,
}

-- The hello message, and then a stream of messages that ends with the exit code, if with any.
pub record SessionStream (req : Request) (code : ℕ) (sent : Bytes) : Type 0 where
  pub body : Bytes
  pub after_hello : sent ≡ hello_bytes protocol_version ++ body
  pub valid : HasData req body ⊎ EndsWith req code body

abbrev pub HasStream : Request → Ended → Type 0
HasStream req (ends code sent) = SessionStream req code sent
HasStream req (dies sent) = Unit
HasStream req (goes_on sent) = SessionStream req 0 sent

pub after_loop-HasStream :
    (req : Request) (r : IoResult)
    → IoStream req r
    → HasStream req (after_loop true (hello_bytes protocol_version) r)
after_loop-HasStream req (returns code p) h = record {
  body = p.sent;
  after_hello = refl;
  valid = h;
}
after_loop-HasStream req (exits_in_loop p) h = tt
after_loop-HasStream req memory_ends h = tt
after_loop-HasStream req (still_runs p) h = record {
  body = p.sent;
  after_hello = refl;
  valid = inl h;
}

-- The ends of stderr and stdout, and the exit code.
pub failed_exec-stream :
    (req : Request) (code : ℕ) (incoming : Bytes)
    → req.is_service ≡ true
    → SessionStream req code
        (handle_failed_exec true code (
          link_sender (record {
            incoming = incoming;
            sent = hello_bytes protocol_version;
            send_results = [];
          }))).sent
unfolding handle_failed_exec send send_exit_code
failed_exec-stream req code incoming e = record {
  body = eof_headers ++ frame msg_data_exit_code (u32_bytes code);
  after_hello = refl;
  valid = inr (record {
    before = eof_headers;
    has_data = record {
      messages = (msg_data_stderr, []) ∷ (msg_data_stdout, []) ∷ [];
      framed = refl;
      data_only = (
        (inr refl, omega arith),
        (
          (
            inl (
                by_test (λ t. msg_data_stdout ≡ t) req.is_service (λ _. refl)
                  (λ z. absurd (cc (z, e)))),
            omega arith,
          ),
          tt,
        ),
      );
    };
    code_is_last = refl;
    is_service = e;
  });
}

-- Where a service is called in dom0 and its exit code is asked for, with a peer whose version is accepted and with sends that succeed: the vchan carries MSG_HELLO, then whole messages of stdout and stderr, and behind them at most one exit code, which is the code that `handshake_and_go` returns; also where the service could not be started.
pub handshake_and_go-HasStream :
    (params : HandshakeParams) (local : Local) (version actual : ℕ) (more : Bytes)
    → params.vchan_open ≡ true
    → params.remote_send_first ≡ true
    → params.exit_with_code ≡ true
    → version < u32_mod
    → agreed version ≡ some actual
    → HasStream
        (select_request params local actual)
        (handshake_and_go params local (fresh (hello_bytes version ++ more)))
unfolding handshake_and_go select_loop
handshake_and_go-HasStream params local version actual more o s x h e =
    by_test (HasStream req) (not params.vchan_open) (λ z. absurd (ground arith))
      (λ _.
        subst (λ r. HasStream req (after_agreement params local r))
          (sym (agent_handshake-link params.remote_send_first version actual more h e))
          (by_prepared params.prepare_ret refl))
  where
    req : Request
    req = select_request params local actual

    l : Link
    l = agreed_link more

    failed :
        (code : ℕ)
        → SessionStream req code
            (handle_failed_exec params.remote_send_first code (link_sender l)).sent
    failed code =
        subst (λ b. SessionStream req code (handle_failed_exec b code (link_sender l)).sent) (sym s)
          (failed_exec-stream req code more s)

    by_prepared :
        (r : Prepared) → params.prepare_ret ≡ r → HasStream req (go params local actual r l)
    by_prepared prepared q =
        let io =
          qrexec_process_io req (some local.stdin_fd) (some local.stdout_fd) none [] local.receiver
            [] local.events local.last in
        subst (λ b. HasStream req (after_loop b (hello_bytes protocol_version) io)) (sym x)
          (after_loop-HasStream req io (
            process_io-IoStream req (some local.stdin_fd) (some local.stdout_fd) none []
              local.receiver [] local.events local.last))
    by_prepared not_found q = failed (failure_code params.prepare_ret)
    by_prepared problem q = failed (failure_code params.prepare_ret)
