-- ===== src/Dom0/Execute/Announce.antt =====
-- daemon/qrexec-daemon-common.c: what `qrexec_execute_vm` has sent where it succeeds.
use qubes_core_qrexec.Prelude.{
  take, c_string, by_test, decimal, ℕ, ◌≡◌, refl, sym, ap, ◌∙◌, subst, Bool, true, false, not, ◌&&◌,
  ◌||◌, Option, none, some, List, [], ◌∷◌, ◌++◌, append_assoc, ltb, length, drop, Bytes,
  starts_with,
}
use qubes_core_qrexec.Protocol.{u32_at, max_qrexec_cmd_len}
use qubes_core_qrexec.Dom0.Link.{Link}
use qubes_core_qrexec.Dom0.Execute.Reached.{
  FirstReached, next_attempt-reached, next_attempt-missing, drop-drop, Reaches, IsSocketOf,
  connect-IsSocketOf,
}
use qubes_core_qrexec.Dom0.Connect.{
  Attempt, Socket, connected, not_running, no_socket, Negotiated, granted, denied, asserts,
}
use qubes_core_qrexec.Dom0.Execute.{
  next_attempt, Execution, World, Executed, start_vm, dispvm_prefix, call_qubesd, is_ok, is_started,
  connect, kill_if, announce, request_type, after_announce, after_negotiation, without_sent,
  with_socket, after_start, autostarts, after_create, execute_disposable, execute_named,
  qrexec_execute_vm,
}
use qubes_core_qrexec.Dom0.Execute.Said.{
  connect_bytes, request_bytes, SaidIfGranted, negotiate-said,
}
use qubes_core_qrexec.Dom0.Execute.Requests.{
  IsTarget, named, created, Announced, AnnouncesIfTrue, announce-reached, announce-requests,
}

-- The state before the request to a daemon that was reached.
record IsReady (x : Execution) (w0 : World) (target : Bytes) (w : World) (l : Link) : Type 0 where
  target_is : IsTarget x w0 target
  daemon : Link
  found : FirstReached target daemon w0.attempts w.attempts
  answer : take 8 (drop 8 l.incoming) ≡ take 8 (drop 20 daemon.incoming)
  requests : w.requests ≡ w0.requests

kill_if-requests :
    (b : Bool) (target : Bytes) (w : World) → (kill_if b target w).requests ≡ w.requests
unfolding kill_if
kill_if-requests true target w = refl
kill_if-requests false target w = refl

module _ (x : Execution) (w0 : World) where
  after_announce-Announces :
      (kills : Bool) (target : Bytes) (r : Bool × World)
      → (r.0 ≡ true → Announced x w0 r.1.requests)
      → AnnouncesIfTrue x w0 (after_announce kills target r)
  after_announce-Announces kills target (true, w) h =
      subst (λ q. Announced x w0 q) (sym (kill_if-requests kills target w)) (h refl)
  after_announce-Announces kills target (false, w) h = tt

  negotiation-Announces :
      (disposable waits : Bool) (target : Bytes) (w : World) (l0 : Link) (r : Negotiated × Link)
      → IsReady x w0 target w l0
      → SaidIfGranted
          (request_bytes x.remote_domain_id (request_type x) x.cmd)
          (take 8 (drop 8 l0.incoming))
          r
      → AnnouncesIfTrue x w0 (after_negotiation x disposable waits target w r)
  negotiation-Announces disposable waits target w l0 (granted domain port, l) ready said =
      let w1 : World = record w { requests = w.requests ++ ((target, l.sent) ∷ []) } in
      let id = decimal x.remote_domain_id [] in
      let Two = λ (q : List (Bytes × Bytes)) (s : Bytes) (d p : ℕ).
        q ++ ((target, s) ∷ (id, connect_bytes x.request_id d p) ∷ []) in
      let request = request_bytes x.remote_domain_id (request_type x) x.cmd in
      let answer = take 8 (drop 20 ready.daemon.incoming) in
      after_announce-Announces (waits && disposable) target (announce x domain port w1) (λ h.
        let c = announce-reached x domain port w1 h in
        record {
          target = target;
          target_is = ready.target_is;
          daemon = ready.daemon;
          later = w.attempts;
          found = ready.found;
          client = c.0;
          client_found = c.1;
          both =
              announce-requests x domain port w1 h
              ∙ (append_assoc w.requests ((target, l.sent) ∷ []) _
                  ∙ (ap (λ q. Two q l.sent domain port) ready.requests
                      ∙ (ap (λ s. Two w0.requests s domain port) said.0
                          ∙ (ap (λ d. Two w0.requests request d port)
                                (said.1 ∙ ap (λ a. u32_at a) ready.answer)
                              ∙ ap (λ p. Two w0.requests request (u32_at answer) p)
                                  (said.2 ∙ ap (λ a. u32_at (drop 4 a)) ready.answer)))));
        })
  negotiation-Announces disposable waits target w l0 (denied, l) ready said = tt
  negotiation-Announces disposable waits target w l0 (asserts, l) ready said = tt

  with_socket-Announces :
      (disposable waits : Bool) (target : Bytes) (s : Socket) (w : World)
      → ((l : Link) → s ≡ connected l → IsReady x w0 target w l)
      → AnnouncesIfTrue x w0 (with_socket x disposable waits target s w)
  unfolding with_socket
  with_socket-Announces disposable waits target (connected l) w ready =
      negotiation-Announces disposable waits target w l _ (ready l refl)
        (negotiate-said x.remote_domain_id (request_type x) x.cmd (without_sent l) refl)
  with_socket-Announces disposable waits target not_running w ready = tt
  with_socket-Announces disposable waits target no_socket w ready = tt

  -- The connection to the daemon of the target, where those before have found none.
  connect-IsReady :
      (target : Bytes) (w : World)
      → IsTarget x w0 target
      → ((daemon : Link) (later : List (Bytes → Attempt))
          → FirstReached target daemon w.attempts later
          → FirstReached target daemon w0.attempts later)
      → w.requests ≡ w0.requests
      → (l : Link) → (connect target w).0 ≡ connected l
      → IsReady x w0 target (connect target w).1 l
  connect-IsReady target w t lift q l e =
      let a = next_attempt w.attempts target in
      let r : Reaches a l = subst (IsSocketOf a) e (connect-IsSocketOf w.socket_dir target a) in
      record {
        target_is = t;
        daemon = r.daemon;
        found = lift r.daemon _ (next_attempt-reached target r.daemon w.attempts r.found);
        answer =
            ap (λ s. take 8 (drop 8 s)) r.left
            ∙ ap (λ s. take 8 s) (drop-drop 8 12 r.daemon.incoming);
        requests = q;
      }

  after_start-Announces :
      (disposable waits : Bool) (target : Bytes) (r : Option Bytes) (w : World)
      → IsTarget x w0 target
      → ((daemon : Link) (later : List (Bytes → Attempt))
          → FirstReached target daemon w.attempts later
          → FirstReached target daemon w0.attempts later)
      → w.requests ≡ w0.requests
      → AnnouncesIfTrue x w0 (after_start x disposable waits target r w)
  unfolding after_start
  after_start-Announces disposable waits target none w t lift q = tt
  after_start-Announces disposable waits target (some buf) w t lift q =
      by_test (AnnouncesIfTrue x w0) (not (is_started buf)) (λ _. tt)
        (λ _. with_socket-Announces disposable waits target _ _ (connect-IsReady target w t lift q))

  after_create-Announces :
      (r : Option Bytes) (w : World)
      → ((buf : Bytes) → r ≡ some buf → IsTarget x w0 (c_string (drop 2 buf)))
      → w.attempts ≡ w0.attempts
      → w.requests ≡ w0.requests
      → AnnouncesIfTrue x w0 (after_create x r w)
  unfolding after_create autostarts with_socket
  after_create-Announces none w t a q = tt
  after_create-Announces (some buf) w t a q =
      let target = c_string (drop 2 buf) in
      by_test (AnnouncesIfTrue x w0) (is_ok buf)
        (λ _.
          by_test (AnnouncesIfTrue x w0) x.autostart
            (λ _.
              after_start-Announces true true target (w.qubesd target start_vm)
                (call_qubesd target start_vm w) (t buf refl)
                (λ daemon later. subst (λ y. FirstReached target daemon y later) a) q)
            (λ _. tt))
        (λ _. tt)

  named-Announces :
      (s : Socket)
      → IsTarget x w0 x.target
      → (connect x.target w0).0 ≡ s
      → AnnouncesIfTrue x w0
          (autostarts x false x.wait_connection_end x.target s (connect x.target w0).1)
  unfolding autostarts with_socket
  named-Announces not_running t e =
      let w = (connect x.target w0).1 in
      by_test (AnnouncesIfTrue x w0) x.autostart
        (λ _.
          after_start-Announces false x.wait_connection_end x.target (w.qubesd x.target start_vm)
            (call_qubesd x.target start_vm w) t
            (λ daemon later. next_attempt-missing x.target daemon w0.attempts later (
              subst (IsSocketOf (next_attempt w0.attempts x.target)) e
                (connect-IsSocketOf w0.socket_dir x.target _)))
            refl)
        (λ _. tt)
  named-Announces (connected l) t e =
      with_socket-Announces false x.wait_connection_end x.target (connected l) _
        (λ l' e'. connect-IsReady x.target w0 t (λ daemon later r. r) refl l' (e ∙ e'))
  named-Announces no_socket t e = tt

-- Where `qrexec_execute_vm` returns true, exactly two requests were sent. The first is that of the command, with its type, its length and the client's domain, whole, to the daemon of the target, which is the first one found under its name; the target is the VM that was asked for, or for "@dispvm:" the one that qubesd has answered. The second is MSG_SERVICE_CONNECT with the request's identifier and with the domain and the port that stand, in this order, in that daemon's answer, and it goes to the daemon of the client's domain, which was found.
pub execute_vm-Announces : (x : Execution) (w : World) → AnnouncesIfTrue x w (qrexec_execute_vm x w)
unfolding qrexec_execute_vm execute_disposable execute_named
execute_vm-Announces x w =
    let P : Executed → Type 0 = AnnouncesIfTrue x w in
    by_test P (ltb (length x.cmd) 2 || ltb max_qrexec_cmd_len (length x.cmd)) (λ _. tt)
      (λ _.
        by_test P (starts_with dispvm_prefix x.target)
          (λ d.
            by_test P (not x.autostart) (λ _. tt)
              (λ _.
                by_test P x.just_exec (λ _. tt)
                  (λ _. after_create-Announces x w _ _ (λ buf e. created buf d e refl) refl refl)))
          (λ d. named-Announces x w _ (named d refl) refl))
