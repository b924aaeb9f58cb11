-- ===== src/Agent/Invariant/Ends.antt =====
-- agent/qrexec-agent.c: the ends of connections and the requests of clients, and the accounts of
-- the connections.
use qubes_core_qrexec.Prelude.{
  ℕ, ◌≤◌, ◌<◌, ◌≡◌, refl, sym, ◌≢◌, inl, inr, Bool, false, Option, none, some, List, [], ◌∷◌, ◌++◌,
  arith, leb, leb→le, Bool-cases, Option-cases, length, take, length-append, length-take, Bytes,
  bytes_eq,
}
use qubes_core_qrexec.Protocol.{
  max_fds, MsgHeader, sizeof_header, header_bytes, header_at, sizeof_trigger_params3, read_exact,
}
use qubes_core_qrexec.Agent.State.{Agent, done, next_result, vchan_send_or_exit}
use qubes_core_qrexec.Agent.Ident.{socket_ident}
use qubes_core_qrexec.Agent.Connections.{
  is_free, terminated_message, terminate_connection, free_connection, release_connection,
  handle_terminated_fork_client,
}
use qubes_core_qrexec.Agent.Events.{
  with_ident, is_bad_trigger, forward_trigger, check_trigger, handle_trigger_io,
}
use qubes_core_qrexec.Agent.Invariant.{Returns, Returns-bind}
use qubes_core_qrexec.Agent.Invariant.Accounts.{
  count, message_of, IsBalanced, count-append, live_count-update, weight_free, weight_live,
}

-- A send whose failure ends the process.
pub Returns-send :
    (P : Agent → Type 0) (s : Bytes) (a : Agent)
    → ((results : List Bool)
        → P (record a { vchan_sent = a.vchan_sent ++ (s ∷ []); send_results = results }))
    → Returns P (vchan_send_or_exit s a)
unfolding vchan_send_or_exit
Returns-send P s a h = elim (Bool-cases (next_result a.send_results)) [
  | inl e ↦ rw (e, vchan_send_or_exit) (h _)
  | inr e ↦ rw (e, vchan_send_or_exit) tt
]

pub release_connection-IsBalanced :
    (id : ℕ) (a : Agent)
    → id < max_fds
    → is_free (a.connection_info id) ≡ false
    → IsBalanced a
    → Returns IsBalanced (release_connection id a)
unfolding release_connection terminate_connection
release_connection-IsBalanced id a u live h =
    let c = a.connection_info id in
    let m = message_of c in
    let sent = λ (b : Agent).
      (b.connection_info ≡ a.connection_info)
      × (b.registered ≡ a.registered)
      × (b.vchan_sent ≡ a.vchan_sent ++ (m ∷ [])) in
    Returns-bind sent IsBalanced (vchan_send_or_exit m a) (λ b. done (free_connection id b))
      (Returns-send sent m a (λ results. (refl, refl, refl)))
      (λ b s d t.
        let k = terminated_message d t in
        rw (s.0, s.1, s.2)
          (omega (
            arith,
            h d t,
            live_count-update k a.connection_info id (record c { pid = some 0 }) max_fds u,
            weight_live k c live,
            weight_free k (record c { pid = some 0 }) refl,
            count-append k a.vchan_sent (m ∷ []),
          )))

pub fork_client-IsBalanced :
    (id : ℕ) (a : Agent)
    → id < max_fds
    → is_free (a.connection_info id) ≡ false
    → IsBalanced a
    → Returns IsBalanced (handle_terminated_fork_client id a)
unfolding handle_terminated_fork_client
fork_client-IsBalanced id a u live h = elim (Option-cases (a.connection_info id).fd) [
  | inl e ↦ rw (e, handle_terminated_fork_client) (release_connection-IsBalanced id a u live h)
  | inr (fd, e) ↦
      rw (e, handle_terminated_fork_client)
        (release_connection-IsBalanced id (record a { closed = a.closed ++ (fd ∷ []) }) u live h)
]

bytes_eq-length : (a b : Bytes) → length a ≢ length b → bytes_eq a b ≡ false
bytes_eq-length [] [] h = absurd (h refl)
bytes_eq-length [] (y ∷ b) h = refl
bytes_eq-length (x ∷ a) [] h = refl
bytes_eq-length (x ∷ a) (y ∷ b) h = ground (arith, bytes_eq-length a b)

-- A message of another length than MSG_CONNECTION_TERMINATED does not change the accounts.
other_message :
    (s : Bytes) (a : Agent)
    → length s ≢ 16
    → IsBalanced a
    → Returns IsBalanced (vchan_send_or_exit s a)
other_message s a l h = Returns-send IsBalanced s a (λ results d t.
    let k = terminated_message d t in
    let e : bytes_eq k s ≡ false = bytes_eq-length k s (λ q. l (sym q)) in
    let n : count k (s ∷ []) ≡ 0 = rw e refl in
    omega (arith, h d t, count-append k a.vchan_sent (s ∷ []), n))

length-with_ident :
    (fd : ℕ) (params : Bytes) → 64 ≤ length params → 70 ≤ length (with_ident fd params)
length-with_ident fd params h = omega (
  arith,
  length-append {0} (take 64 params),
  length-append {0} (socket_ident fd),
  length-take 64 params,
)

forward_trigger-IsBalanced :
    (fd : ℕ) (hdr : MsgHeader) (s : Bytes) (a : Agent)
    → sizeof_trigger_params3 < hdr.len
    → IsBalanced a
    → Returns IsBalanced (forward_trigger fd hdr (read_exact hdr.len s) a)
unfolding forward_trigger
forward_trigger-IsBalanced fd hdr s a l h = elim (Bool-cases (leb hdr.len (length s))) [
  | inl e ↦ rw e (
      Returns-bind IsBalanced IsBalanced _ _
        (other_message (header_bytes hdr) a (λ q. omega arith) h)
        (λ b hb.
          let n : 64 ≤ length (take hdr.len s) =
            omega (arith, length-take hdr.len s, leb→le hdr.len (length s) e) in
          other_message (with_ident fd (take hdr.len s)) b
            (λ q. omega (arith, length-with_ident fd (take hdr.len s) n)) hb))
  | inr e ↦ rw e h
]

trigger_len : (hdr : MsgHeader) → is_bad_trigger hdr ≡ false → sizeof_trigger_params3 < hdr.len
trigger_len hdr h = ground arith

check_trigger-IsBalanced :
    (fd : ℕ) (r : Option (Bytes × Bytes)) (a : Agent)
    → IsBalanced a
    → Returns IsBalanced (check_trigger fd r a)
unfolding check_trigger
check_trigger-IsBalanced fd none a h = h
check_trigger-IsBalanced fd (some (s, rest)) a h =
    elim (Bool-cases (is_bad_trigger (header_at s))) [
      | inl e ↦ rw e h
      | inr e ↦
          rw e (forward_trigger-IsBalanced fd (header_at s) rest a (trigger_len (header_at s) e) h)
    ]

pub trigger_io-IsBalanced :
    (client : Option ℕ) (request : Bytes) (a : Agent)
    → IsBalanced a
    → Returns IsBalanced (handle_trigger_io client request a)
unfolding handle_trigger_io
trigger_io-IsBalanced none request a h = h
trigger_io-IsBalanced (some fd) request a h =
    check_trigger-IsBalanced fd (read_exact sizeof_header request) a h
