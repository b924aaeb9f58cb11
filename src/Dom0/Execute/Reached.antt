-- ===== src/Dom0/Execute/Reached.antt =====
-- daemon/qrexec-daemon-common.c: the daemon that `connect_unix_socket` has reached, and what it has
-- read from it.
use qubes_core_qrexec.Prelude.{
  by_test, ℕ, zero, suc, ◌+◌, ◌≡◌, refl, sym, ap, ◌∙◌, Bool, true, false, not, ◌||◌, Option, none,
  some, List, [], ◌∷◌, ◌++◌, leb, ◌==◌, if◌then◌else◌, arith, length, drop, Bytes, codes,
}
use qubes_core_qrexec.Protocol.{
  protocol_version, u32_bytes, msg_hello, header_at, sizeof_header, sizeof_peer_info,
}
use qubes_core_qrexec.Dom0.Link.{Link}
use qubes_core_qrexec.Dom0.Handshake.{
  hello_header, send_hello, after_info, after_hello_header, receive_hello, handle_daemon_handshake,
}
use qubes_core_qrexec.Dom0.Connect.{
  Attempt, reached, missing, unreachable, Socket, connected, not_running, no_socket, sun_path_size,
  after_handshake, connect_unix_socket,
}
use qubes_core_qrexec.Dom0.Execute.{next_attempt, later_attempts}
use qubes_core_qrexec.Dom0.Execute.Said.{two_writes-incoming, IsRead, read_link-IsRead}

-- The first daemon that the attempts find under a name, and the attempts after that.
pub data FirstReached (name : Bytes) (daemon : Link)
    : List (Bytes → Attempt) → List (Bytes → Attempt) → Type 0 where
  at_once :
      {find : Bytes → Attempt} {rest : List (Bytes → Attempt)}
      → find name ≡ reached daemon
      → FirstReached name daemon (find ∷ rest) rest
  after_missing :
      {find : Bytes → Attempt} {rest later : List (Bytes → Attempt)}
      → find name ≡ missing
      → FirstReached name daemon rest later
      → FirstReached name daemon (find ∷ rest) later

pub next_attempt-reached :
    (name : Bytes) (daemon : Link) (tries : List (Bytes → Attempt))
    → next_attempt tries name ≡ reached daemon
    → FirstReached name daemon tries (later_attempts tries)
next_attempt-reached name daemon [] h = absurd (cc h)
next_attempt-reached name daemon (find ∷ rest) h = at_once h

pub next_attempt-missing :
    (name : Bytes) (daemon : Link) (tries later : List (Bytes → Attempt))
    → next_attempt tries name ≡ missing
    → FirstReached name daemon (later_attempts tries) later
    → FirstReached name daemon tries later
next_attempt-missing name daemon [] later h r = r
next_attempt-missing name daemon (find ∷ rest) later h r = after_missing h r

drop-empty : (n : ℕ) → drop {A = ℕ} n [] ≡ []
drop-empty zero = refl
drop-empty (suc n) = refl

pub drop-drop : (m n : ℕ) (s : Bytes) → drop m (drop n s) ≡ drop (n + m) s
drop-drop m zero s = ap (λ k. drop k s) (omega arith)
drop-drop m (suc n) [] = drop-empty m ∙ sym (drop-empty (suc n + m))
drop-drop m (suc n) (c ∷ s) =
    let e : suc (n + m) ≡ suc n + m = omega arith in drop-drop m n s ∙ ap (λ k. drop k (c ∷ s)) e

-- What is left behind MSG_HELLO.
abbrev pub IsLeft : Bytes → Option (ℕ × Link) → Type 0
IsLeft inc none = Unit
IsLeft inc (some (_, l)) = l.incoming ≡ drop 12 inc

abbrev pub IsLeftIfTrue : Bytes → Bool × Link → Type 0
IsLeftIfTrue inc (true, l) = l.incoming ≡ drop 12 inc
IsLeftIfTrue inc (false, l) = Unit

if_true : (inc : Bytes) (r : Bool × Link) → r.1.incoming ≡ drop 12 inc → IsLeftIfTrue inc r
if_true inc (true, l) h = h
if_true inc (false, l) h = tt

after_info-IsLeft :
    (inc : Bytes) (l : Link) (r : Option (Bytes × Link))
    → l.incoming ≡ drop 8 inc
    → IsRead sizeof_peer_info l r
    → IsLeft inc (after_info r)
after_info-IsLeft inc l none h d = tt
after_info-IsLeft inc l (some (s, l')) h d = d.1 ∙ (ap (λ x. drop 4 x) h ∙ drop-drop 4 8 inc)

after_header-IsLeft :
    (l : Link) (r : Option (Bytes × Link))
    → IsRead sizeof_header l r
    → IsLeft l.incoming (after_hello_header r)
after_header-IsLeft l none d = tt
after_header-IsLeft l (some (s, l')) d =
    by_test (IsLeft l.incoming)
      (not ((header_at s).type == msg_hello) || not ((header_at s).len == sizeof_peer_info))
      (λ _. tt) (λ _. after_info-IsLeft l.incoming l' _ d.1 (read_link-IsRead sizeof_peer_info l'))

receive_hello-IsLeft : (l : Link) → IsLeft l.incoming (receive_hello l)
unfolding receive_hello
receive_hello-IsLeft l = after_header-IsLeft l _ (read_link-IsRead sizeof_header l)

daemon_handshake-IsLeft : (l : Link) → IsLeftIfTrue l.incoming (handle_daemon_handshake l)
unfolding handle_daemon_handshake
daemon_handshake-IsLeft l =
    elim (receive_hello l)
        as (λ r.
          IsLeft l.incoming r
          → IsLeftIfTrue l.incoming (
              let x : Bool × Link = elim r [
                | none ↦ (false, l)
                | some (version, l') ↦
                    if not (version == protocol_version) then (false, l') else send_hello l'
              ] in
              x)) [
                | none ↦ λ h. tt
                | some (version, l') ↦ λ h.
                    by_test (IsLeftIfTrue l.incoming) (not (version == protocol_version)) (λ _. tt)
                      (λ _.
                        if_true l.incoming (send_hello l')
                          (two_writes-incoming hello_header (u32_bytes protocol_version) l' ∙ h))
              ]
      (receive_hello-IsLeft l)

-- A daemon that was reached, and has been read as far as its MSG_HELLO.
pub record Reaches (a : Attempt) (l : Link) : Type 0 where
  pub daemon : Link
  pub found : a ≡ reached daemon
  pub left : l.incoming ≡ drop 12 daemon.incoming

abbrev pub IsSocketOf : Attempt → Socket → Type 0
IsSocketOf a (connected l) = Reaches a l
IsSocketOf a not_running = a ≡ missing
IsSocketOf a no_socket = Unit

after_handshake-IsSocketOf :
    (daemon : Link) (r : Bool × Link)
    → IsLeftIfTrue daemon.incoming r
    → IsSocketOf (reached daemon) (after_handshake r)
after_handshake-IsSocketOf daemon (true, l) h = record { daemon = daemon; found = refl; left = h }
after_handshake-IsSocketOf daemon (false, l) h = tt

pub connect-IsSocketOf :
    (socket_dir name : Bytes) (a : Attempt) → IsSocketOf a (connect_unix_socket socket_dir name a)
unfolding connect_unix_socket
connect-IsSocketOf socket_dir name (reached daemon) =
    by_test (IsSocketOf (reached daemon))
      (leb sun_path_size (length (socket_dir ++ (codes "/qrexec." ++ name)))) (λ _. tt)
      (λ _. after_handshake-IsSocketOf daemon _ (daemon_handshake-IsLeft daemon))
connect-IsSocketOf socket_dir name missing =
    by_test (IsSocketOf missing)
      (leb sun_path_size (length (socket_dir ++ (codes "/qrexec." ++ name)))) (λ _. tt) (λ _. refl)
connect-IsSocketOf socket_dir name unreachable =
    by_test (IsSocketOf unreachable)
      (leb sun_path_size (length (socket_dir ++ (codes "/qrexec." ++ name)))) (λ _. tt) (λ _. tt)
