-- ===== src/Dom0/Execute/Requests.antt =====
-- daemon/qrexec-daemon-common.c: the requests of `qrexec_execute_vm` where it succeeds, and the
-- message to the daemon of the client.
use qubes_core_qrexec.Prelude.{
  if◌then◌else◌, take, codes, c_string, decimal, ℕ, ◌≡◌, ap, ◌∙◌, true, false, some, List, [], ◌∷◌,
  ◌++◌, length, drop, drop-append, Bytes, starts_with,
}
use qubes_core_qrexec.Protocol.{u32_at, msg_just_exec, msg_exec_cmdline}
use qubes_core_qrexec.Dom0.Link.{Link}
use qubes_core_qrexec.Dom0.Execute.Reached.{FirstReached, IsSocketOf, connect-IsSocketOf}
use qubes_core_qrexec.Dom0.Connect.{Attempt, reached, Socket, connected, not_running, no_socket}
use qubes_core_qrexec.Dom0.Execute.{
  next_attempt, Execution, World, Executed, returned, aborted, connect, sends_connect, announce,
}
use qubes_core_qrexec.Dom0.Execute.Said.{connect_bytes, send_service_connect-sent, request_bytes}

-- The VM that gets the command: the target, or the disposable that qubesd has created.
pub data IsTarget (x : Execution) (w : World) (target : Bytes) : Type 0 where
  named : starts_with (codes "@dispvm:") x.target ≡ false → target ≡ x.target → IsTarget x w target
  created :
      (buf : Bytes)
      → starts_with (codes "@dispvm:") x.target ≡ true
      → w.qubesd (drop 8 x.target) (codes "admin.vm.CreateDisposable") ≡ some buf
      → target ≡ c_string (drop 2 buf)
      → IsTarget x w target

-- Two requests on top of those before: that of the command, to the daemon of the target, and what
-- that daemon answers behind MSG_HELLO and the header of its answer, the domain and the port, to the
-- daemon of the client.
pub record Announced (x : Execution) (w : World) (after : List (Bytes × Bytes)) : Type 0 where
  pub target : Bytes
  pub target_is : IsTarget x w target
  pub daemon : Link
  pub later : List (Bytes → Attempt)
  pub found : FirstReached target daemon w.attempts later
  pub client : Link
  pub client_found : next_attempt later (decimal x.remote_domain_id []) ≡ reached client
  pub both :
      let answer = take 8 (drop 20 daemon.incoming) in
      let type = if x.just_exec then msg_just_exec else msg_exec_cmdline in
      after
      ≡ w.requests
        ++ ((target, request_bytes x.remote_domain_id type x.cmd)
            ∷ (
              decimal x.remote_domain_id [],
              connect_bytes x.request_id (u32_at answer) (u32_at (drop 4 answer)),
            )
            ∷ [])

abbrev pub AnnouncesIfTrue : Execution → World → Executed → Type 0
AnnouncesIfTrue x w (returned true w') = Announced x w w'.requests
AnnouncesIfTrue x w (returned false w') = Unit
AnnouncesIfTrue x w (aborted w') = Unit

sends_connect-sent :
    (x : Execution) (domain port : ℕ) (s : Socket)
    → (sends_connect x domain port s).0 ≡ true
    → (sends_connect x domain port s).1 ≡ connect_bytes x.request_id domain port
sends_connect-sent x domain port (connected l) h =
    ap (λ s. drop (length l.sent) s) (send_service_connect-sent x.request_id domain port l h)
    ∙ drop-append l.sent (connect_bytes x.request_id domain port)
sends_connect-sent x domain port not_running h = absurd (cc h)
sends_connect-sent x domain port no_socket h = absurd (cc h)

sends_connect-reached :
    (x : Execution) (domain port : ℕ) (a : Attempt) (s : Socket)
    → IsSocketOf a s
    → (sends_connect x domain port s).0 ≡ true
    → (client : Link) × (a ≡ reached client)
sends_connect-reached x domain port a (connected l) r h = (r.daemon, r.found)
sends_connect-reached x domain port a not_running r h = absurd (cc h)
sends_connect-reached x domain port a no_socket r h = absurd (cc h)

pub announce-reached :
    (x : Execution) (domain port : ℕ) (w : World)
    → (announce x domain port w).0 ≡ true
    → (client : Link) × (next_attempt w.attempts (decimal x.remote_domain_id []) ≡ reached client)
unfolding announce
announce-reached x domain port w h =
    sends_connect-reached x domain port (next_attempt w.attempts (decimal x.remote_domain_id [])) _
      (connect-IsSocketOf w.socket_dir (decimal x.remote_domain_id []) _) h

pub announce-requests :
    (x : Execution) (domain port : ℕ) (w : World)
    → (announce x domain port w).0 ≡ true
    → (announce x domain port w).1.requests
      ≡ w.requests ++ ((decimal x.remote_domain_id [], connect_bytes x.request_id domain port) ∷ [])
unfolding announce
announce-requests x domain port w h =
    ap (λ s. w.requests ++ ((decimal x.remote_domain_id [], s) ∷ []))
      (sends_connect-sent x domain port (connect (decimal x.remote_domain_id []) w).0 h)
