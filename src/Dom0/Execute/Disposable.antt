-- ===== src/Dom0/Execute/Disposable.antt =====
-- daemon/qrexec-daemon-common.c: the calls of qubesd by `qrexec_execute_vm`.
use qubes_core_qrexec.Prelude.{
  by_test, ◌≡◌, refl, sym, ◌∙◌, subst, inl, inr, Bool, true, false, not, ◌||◌, Option, none, some,
  List, [], ◌∷◌, ◌++◌, append_assoc, append-nil, arith, ltb, if◌then◌else◌, Bool-cases, length,
  drop, Bytes, starts_with, c_string,
}
use qubes_core_qrexec.Protocol.{max_qrexec_cmd_len}
use qubes_core_qrexec.Dom0.Link.{Link}
use qubes_core_qrexec.Dom0.Connect.{
  Socket, connected, not_running, no_socket, Negotiated, granted, denied, asserts,
}
use qubes_core_qrexec.Dom0.Execute.{
  Execution, World, Executed, returned, aborted, create_disposable, start_vm, kill_vm,
  dispvm_prefix, call_qubesd, is_ok, is_started, kill_if, announce, after_negotiation, with_socket,
  after_start, autostarts, after_create, execute_disposable, qrexec_execute_vm,
}

-- The call of admin.vm.Kill, or none.
abbrev pub kills : Bool → Bytes → List (Bytes × Bytes)
kills disposable target = if disposable then (target, kill_vm) ∷ [] else []

-- The calls that a result adds.
abbrev pub Adds : List (Bytes × Bytes) → List (Bytes × Bytes) → Executed → Type 0
Adds before calls (returned _ w') = w'.called ≡ before ++ calls
Adds before calls (aborted w') = w'.called ≡ before

kill_if-called :
    (b : Bool) (target : Bytes) (w : World)
    → (kill_if b target w).called ≡ w.called ++ kills b target
unfolding kill_if
kill_if-called true target w = refl
kill_if-called false target w = sym (append-nil w.called)

negotiation-Adds :
    (x : Execution) (disposable : Bool) (waits : Bool) (target : Bytes) (w : World)
    (r : Negotiated × Link)
    → (disposable ≡ true → waits ≡ true)
    → Adds w.called (kills disposable target) (after_negotiation x disposable waits target w r)
unfolding announce
negotiation-Adds x true true target w (granted domain port, l) d = kill_if-called true target _
negotiation-Adds x true false target w (granted domain port, l) d = absurd (cc (d refl))
negotiation-Adds x false true target w (granted domain port, l) d = kill_if-called false target _
negotiation-Adds x false false target w (granted domain port, l) d = kill_if-called false target _
negotiation-Adds x disposable waits target w (denied, l) d = kill_if-called disposable target w
negotiation-Adds x disposable waits target w (asserts, l) d = refl

with_socket-Adds :
    (x : Execution) (disposable waits : Bool) (target : Bytes) (s : Socket) (w : World)
    → (disposable ≡ true → waits ≡ true)
    → Adds w.called (kills disposable target) (with_socket x disposable waits target s w)
unfolding with_socket
with_socket-Adds x disposable waits target (connected l) w d =
    negotiation-Adds x disposable waits target w _ d
with_socket-Adds x disposable waits target not_running w d = kill_if-called disposable target w
with_socket-Adds x disposable waits target no_socket w d = kill_if-called disposable target w

-- Whether admin.vm.Start succeeds.
abbrev pub starts : World → Bytes → Bool
starts w target = elim (w.qubesd target start_vm) [ none ↦ false | some buf ↦ is_started buf ]

-- The calls from admin.vm.Start on.
abbrev pub start_calls : World → Bool → Bytes → List (Bytes × Bytes)
start_calls w disposable target =
    (target, start_vm) ∷ (if starts w target then kills disposable target else [])

after_start-Adds :
    (x : Execution) (disposable waits : Bool) (target : Bytes) (w : World)
    → (disposable ≡ true → waits ≡ true)
    → Adds
        (w.called ++ ((target, start_vm) ∷ []))
        (if starts w target then kills disposable target else [])
        (after_start x disposable waits target
          (w.qubesd target start_vm)
          (call_qubesd target start_vm w))
unfolding after_start
after_start-Adds x disposable waits target w d = by_answer (w.qubesd target start_vm)
  where
    calls : List (Bytes × Bytes)
    calls = w.called ++ ((target, start_vm) ∷ [])

    by_answer :
        (r : Option Bytes)
        → (let ok : Bool = elim r [ none ↦ false | some buf ↦ is_started buf ] in
            Adds calls
              (if ok then kills disposable target else [])
              (after_start x disposable waits target r (call_qubesd target start_vm w)))
    by_answer none = sym (append-nil calls)
    by_answer (some buf) = elim (Bool-cases (is_started buf)) [
      | inl e ↦ rw (e, after_start) (with_socket-Adds x disposable waits target _ _ d)
      | inr e ↦ rw (e, after_start) (sym (append-nil calls))
    ]

-- The name of a disposable that was created.
abbrev pub disposable_name : Bytes → Bytes
disposable_name buf = c_string (drop 2 buf)

-- The destination of admin.vm.CreateDisposable.
abbrev pub destination : Execution → Bytes
destination x = drop (length dispvm_prefix) x.target

-- The disposable that qubesd creates, if it does.
abbrev pub created : World → Bytes → Option Bytes
created w dest = elim (w.qubesd dest create_disposable) [
  | none ↦ none
  | some buf ↦ if is_ok buf then some (disposable_name buf) else none
]

-- What becomes of the disposable that is created for an execution.
pub data Disposes (x : Execution) (w : World) : Executed → Type 0 where
  no_call : (w' : World) → w'.called ≡ w.called → Disposes x w (returned false w')
  not_created :
      (w' : World)
      → created w (destination x) ≡ none
      → w'.called ≡ w.called ++ ((destination x, create_disposable) ∷ [])
      → Disposes x w (returned false w')
  not_started :
      (name : Bytes) (w' : World)
      → created w (destination x) ≡ some name
      → starts w name ≡ false
      → w'.called ≡ w.called ++ ((destination x, create_disposable) ∷ (name, start_vm) ∷ [])
      → Disposes x w (returned false w')
  killed :
      (name : Bytes) (ok : Bool) (w' : World)
      → created w (destination x) ≡ some name
      → starts w name ≡ true
      → w'.called
        ≡ w.called ++ ((destination x, create_disposable) ∷ (name, start_vm) ∷ (name, kill_vm) ∷ [])
      → Disposes x w (returned ok w')
  assertion_fails : (w' : World) → Disposes x w (aborted w')

two_more :
    (calls rest : List (Bytes × Bytes)) (a b : Bytes × Bytes)
    → ((calls ++ (a ∷ [])) ++ (b ∷ [])) ++ rest ≡ calls ++ (a ∷ b ∷ rest)
two_more calls rest a b =
    append_assoc (calls ++ (a ∷ [])) (b ∷ []) rest ∙ append_assoc calls (a ∷ []) (b ∷ rest)

killed-Disposes :
    (x : Execution) (w : World) (name : Bytes)
    → created w (destination x) ≡ some name
    → starts w name ≡ true
    → (r : Executed)
    → Adds
        ((w.called ++ ((destination x, create_disposable) ∷ [])) ++ ((name, start_vm) ∷ []))
        (if starts w name then kills true name else [])
        r
    → Disposes x w r
killed-Disposes x w name c e (aborted w') a = assertion_fails w'
killed-Disposes x w name c e (returned ok w') a =
    killed name ok w' c e ((rw e at a) ∙ two_more w.called ((name, kill_vm) ∷ []) _ _)

after_start-fails :
    (x : Execution) (target : Bytes) (w : World) (r : Option Bytes)
    → (let ok : Bool = elim r [ none ↦ false | some buf ↦ is_started buf ] in ok ≡ false)
    → after_start x true true target r w ≡ returned false w
unfolding after_start
after_start-fails x target w none h = refl
after_start-fails x target w (some buf) h = rw (h, after_start) refl

after_create-Disposes :
    (x : Execution) (w : World)
    → x.autostart ≡ true
    → Disposes x w (
        after_create x
          (w.qubesd (destination x) create_disposable)
          (call_qubesd (destination x) create_disposable w))
unfolding after_create autostarts
after_create-Disposes x w auto = by_answer (w.qubesd (destination x) create_disposable) refl
  where
    w1 : World
    w1 = call_qubesd (destination x) create_disposable w

    by_answer :
        (r : Option Bytes)
        → w.qubesd (destination x) create_disposable ≡ r
        → Disposes x w (after_create x r w1)
    by_answer none q = not_created w1 (rw (q, created) refl) refl
    by_answer (some buf) q = elim (Bool-cases (is_ok buf)) [
      | inr e ↦ rw (e, after_create) (not_created w1 (rw (q, e, created) refl) refl)
      | inl e ↦
          let c : created w (destination x) ≡ some (disposable_name buf) =
            rw (q, e, created) refl in
          let name = disposable_name buf in
          rw (e, after_create)
            (by_test (Disposes x w) x.autostart
              (λ _. elim (Bool-cases (starts w name)) [
                | inl s ↦
                    killed-Disposes x w name c s _
                      (after_start-Adds x true true name w1 (λ z. refl))
                | inr s ↦
                    subst (λ r. Disposes x w r)
                      (sym (
                        after_start-fails x name (call_qubesd name start_vm w1)
                          (w.qubesd name start_vm) s))
                      (not_started name _ c s (append_assoc w.called _ _))
              ])
              (λ z. absurd (cc (z, auto))))
    ]

-- For a target that is a new disposable, whatever qubesd and the daemons answer: nothing is called, or it is not created, or admin.vm.Start for it fails, and then the result is false; else it is killed, with admin.vm.Kill as the last call and only once, whether the command was sent or not, unless the assertion on the type of the daemon's answer fails.
pub execute_vm-Disposes :
    (x : Execution) (w : World)
    → starts_with dispvm_prefix x.target ≡ true
    → Disposes x w (qrexec_execute_vm x w)
unfolding qrexec_execute_vm execute_disposable
execute_vm-Disposes x w h =
    by_test (Disposes x w) (ltb (length x.cmd) 2 || ltb max_qrexec_cmd_len (length x.cmd))
      (λ _. no_call w refl)
      (λ _. rw h (
        by_test (Disposes x w) (not x.autostart) (λ _. no_call w refl)
          (λ a.
            by_test (Disposes x w) x.just_exec (λ _. no_call w refl)
              (λ _. after_create-Disposes x w (ground arith)))))
