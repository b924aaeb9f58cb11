-- ===== src/Dom0/Handshake.antt =====
-- The handshakes: `handle_daemon_handshake` and `handle_agent_handshake` of
-- daemon/qrexec-daemon-common.c, and `handle_handshake` of agent/qrexec-agent-data.c.
use qubes_core_qrexec.Prelude.{
  ℕ, zero, suc, ◌+◌, ◌%◌, ◌≤◌, ◌<◌, ◌≡◌, ◌↔◌, ==_iff, refl, sym, subst, ap, ◌∙◌, inl, inr, Bool,
  true, false, not, ◌||◌, Option, none, some, List, [], ◌++◌, arith, ltb, ◌==◌, if◌then◌else◌,
  Bool-cases, Bytes,
}
use qubes_core_qrexec.Protocol.{
  u32_mod, protocol_v2, protocol_version, msg_hello, u32_bytes, u32_at, sizeof_header, header_bytes,
  header_at, sizeof_peer_info,
}
use qubes_core_qrexec.Protocol.Header.{u32_at-u32_bytes}
use qubes_core_qrexec.Dom0.Link.{Link, write_link, read_link, and_write, read_link-append}

abbrev pub hello_header : Bytes
hello_header = header_bytes (record { type = msg_hello; len = sizeof_peer_info })

abbrev pub hello_bytes : ℕ → Bytes
hello_bytes version = hello_header ++ u32_bytes version

abbrev pub send_hello : Link → Bool × Link
send_hello l = and_write (u32_bytes protocol_version) (write_link hello_header l)

abbrev pub after_info : Option (Bytes × Link) → Option (ℕ × Link)
after_info none = none
after_info (some (info, l)) = some (u32_at info, l)

abbrev pub after_hello_header : Option (Bytes × Link) → Option (ℕ × Link)
after_hello_header none = none
after_hello_header (some (s, l)) =
    if not ((header_at s).type == msg_hello) || not ((header_at s).len == sizeof_peer_info)
    then none
    else after_info (read_link sizeof_peer_info l)

-- The version in the MSG_HELLO of the peer.
unfoldable pub receive_hello : Link → Option (ℕ × Link)
receive_hello l = after_hello_header (read_link sizeof_header l)

-- 0 and -1.
unfoldable pub handle_daemon_handshake : Link → Bool × Link
handle_daemon_handshake l = elim (receive_hello l) [
  | none ↦ (false, l)
  | some (version, l') ↦ if not (version == protocol_version) then (false, l') else send_hello l'
]

-- The lower version, unless it is too old.
abbrev pub agreed : ℕ → Option ℕ
agreed version =
    let actual = if ltb version protocol_version then version else protocol_version in
    if ltb actual protocol_v2 then none else some actual

abbrev pub is_odd : ℕ → Bool
is_odd n = n % 2 == 1

abbrev pub bit : Bool → ℕ
bit true = 1
bit false = 0

abbrev after_agreed : (ℕ → Link → Option ℕ × Link) → Link → Option ℕ → Option ℕ × Link
after_agreed next l none = (none, l)
after_agreed next l (some actual) = next actual l

abbrev after_received : (ℕ → Link → Option ℕ × Link) → Link → Option (ℕ × Link) → Option ℕ × Link
after_received next l none = (none, l)
after_received next l (some (version, l')) = after_agreed next l' (agreed version)

abbrev after_send : (Link → Option ℕ × Link) → Bool × Link → Option ℕ × Link
after_send next (true, l) = next l
after_send next (false, l) = (none, l)

-- The loop on `who`, with the rounds left and `data_protocol_version`; `none` is -1.
unfoldable pub agent_loop : ℕ → ℕ → Bool → Option ℕ → Link → Option ℕ × Link
agent_loop zero who first version l = (version, l)
agent_loop (suc n) who first version l =
    let received =
      after_received (λ actual l'. agent_loop n (who + 1) first (some actual) l') l
        (receive_hello l) in
    let sent = after_send (λ l'. agent_loop n (who + 1) first version l') (send_hello l) in
    if is_odd (who + bit first) then received else sent

unfoldable pub handle_agent_handshake : Bool → Link → Option ℕ × Link
handle_agent_handshake remote_send_first l = agent_loop 2 0 remote_send_first none l

-- The agent's end sends first.
unfoldable pub handle_handshake : Link → Option ℕ × Link
handle_handshake l =
    after_send (λ l1. after_received (λ actual l2. (some actual, l2)) l1 (receive_hello l1))
      (send_hello l)

abbrev pub fresh : Bytes → Link
fresh incoming = record { incoming = incoming; sent = []; send_results = [] }

receive_hello-hello :
    (version : ℕ) (more sent : Bytes) (results : List Bool)
    → version < u32_mod
    → receive_hello
        (record { incoming = hello_bytes version ++ more; sent = sent; send_results = results })
      ≡ some (version, record { incoming = more; sent = sent; send_results = results })
unfolding receive_hello
receive_hello-hello version more sent results h =
    ap after_hello_header (
      read_link-append sizeof_header hello_header (u32_bytes version ++ more) sent results
        (omega arith))
    ∙ (ap after_info
          (read_link-append sizeof_peer_info (u32_bytes version) more sent results (omega arith))
        ∙ ap (λ v. some (v, record { incoming = more; sent = sent; send_results = results }))
            (u32_at-u32_bytes version [] h))

-- A handshake that ends with the agreed version.
after_agreed-version :
    (next : ℕ → Link → Option ℕ × Link) (l : Link) (r : Option ℕ)
    → ((actual : ℕ) → (next actual l).0 ≡ some actual)
    → (after_agreed next l r).0 ≡ r
after_agreed-version next l none h = refl
after_agreed-version next l (some actual) h = h actual

received-version :
    (next : ℕ → Link → Option ℕ × Link) (l : Link) (version : ℕ) (more sent : Bytes)
    → version < u32_mod
    → ((actual : ℕ) (l' : Link) → l'.send_results ≡ [] → (next actual l').0 ≡ some actual)
    → (after_received next l (
        receive_hello
          (record { incoming = hello_bytes version ++ more; sent = sent; send_results = [] }))).0
      ≡ agreed version
received-version next l version more sent h n =
    ap (λ r. (after_received next l r).0) (receive_hello-hello version more sent [] h)
    ∙ after_agreed-version next _ (agreed version) (λ actual. n actual _ refl)

-- What a handshake with a peer of this version ends with: an error below version 2, and then the
-- lower of the peer's version and 3.
pub data Agrees (version : ℕ) (r : Option ℕ) : Type 0 where
  too_old : version < 2 → r ≡ none → Agrees version r
  of_peer : 2 ≤ version → version ≤ 3 → r ≡ some version → Agrees version r
  own : 3 < version → r ≡ some 3 → Agrees version r

agreed-Agrees : (version : ℕ) → Agrees version (agreed version)
agreed-Agrees zero = too_old (omega arith) refl
agreed-Agrees (suc zero) = too_old (omega arith) refl
agreed-Agrees (suc (suc zero)) = of_peer (omega arith) (omega arith) refl
agreed-Agrees (suc (suc (suc zero))) = of_peer (omega arith) (omega arith) refl
agreed-Agrees (suc (suc (suc (suc n)))) = own (omega arith) (ground arith)

-- Both ends of the data vchan, with a peer that sends MSG_HELLO with its version, a 32-bit word, and where the sends succeed, end the handshake alike, whichever end is to send first: with an error if the peer's version is below 2, with the peer's version if that is 2 or 3, and with 3 if it is above. The handshake with a daemon's socket succeeds exactly if the peer's version is 3.
pub handshakes-agree :
    (version : ℕ) (more : Bytes)
    → version < u32_mod
    → let l : Link = fresh (hello_bytes version ++ more) in
      ((first : Bool) → Agrees version (handle_agent_handshake first l).0)
      × Agrees version (handle_handshake l).0
      × (((handle_daemon_handshake l).0 ≡ true) ↔ (version ≡ 3))
unfolding handle_handshake handle_agent_handshake agent_loop handle_daemon_handshake write_link
handshakes-agree version more h = (
  λ first. subst (Agrees version) (sym (by_first first)) (agreed-Agrees version),
  subst (Agrees version)
      (sym (
        received-version (λ actual l. (some actual, l)) _ version more
          (hello_bytes protocol_version) h (λ actual l' e. refl)))
      (agreed-Agrees version),
  (
    λ e. (==_iff version protocol_version).0 (sym by_version ∙ e),
    λ e. by_version ∙ (==_iff version protocol_version).1 e,
  ),
)
  where
    by_first :
        (first : Bool)
        → (handle_agent_handshake first (fresh (hello_bytes version ++ more))).0 ≡ agreed version
    by_first true = received-version _ _ version more [] h (λ actual l' e. rw e refl)
    by_first false =
        received-version _ _ version more (hello_bytes protocol_version) h (λ actual l' e. refl)

    daemon_after : Option (ℕ × Link) → Bool
    daemon_after r =
        (let x : Bool × Link = elim r [
          | none ↦ (false, fresh (hello_bytes version ++ more))
          | some (v, l') ↦ if not (v == protocol_version) then (false, l') else send_hello l'
        ] in
          x).0

    by_version :
        (handle_daemon_handshake (fresh (hello_bytes version ++ more))).0
        ≡ (version == protocol_version)
    by_version =
        ap daemon_after (receive_hello-hello version more [] [] h)
        ∙ elim (Bool-cases (version == protocol_version)) [ inl e ↦ rw e refl | inr e ↦ rw e refl ]

received-link :
    (next : ℕ → Link → Option ℕ × Link) (l : Link) (version actual : ℕ) (more sent : Bytes)
    → version < u32_mod
    → agreed version ≡ some actual
    → after_received next l (
        receive_hello
          (record { incoming = hello_bytes version ++ more; sent = sent; send_results = [] }))
      ≡ next actual (record { incoming = more; sent = sent; send_results = [] })
received-link next l version actual more sent h e =
    ap (λ r. after_received next l r) (receive_hello-hello version more sent [] h)
    ∙ ap (λ a. after_agreed next (record { incoming = more; sent = sent; send_results = [] }) a) e

-- The descriptor after a handshake that is agreed on.
abbrev pub agreed_link : Bytes → Link
agreed_link more = record {
  incoming = more;
  sent = hello_bytes protocol_version;
  send_results = [];
}

pub agent_handshake-link :
    (first : Bool) (version actual : ℕ) (more : Bytes)
    → version < u32_mod
    → agreed version ≡ some actual
    → handle_agent_handshake first (fresh (hello_bytes version ++ more))
      ≡ (some actual, agreed_link more)
unfolding handle_agent_handshake agent_loop write_link
agent_handshake-link true version actual more h e =
    received-link (λ a l'. after_send (λ l2. (some a, l2)) (send_hello l')) _ version actual more []
      h e
agent_handshake-link false version actual more h e =
    received-link (λ a l'. (some a, l')) _ version actual more (hello_bytes protocol_version) h e

pub handshake-link :
    (version actual : ℕ) (more : Bytes)
    → version < u32_mod
    → agreed version ≡ some actual
    → handle_handshake (fresh (hello_bytes version ++ more)) ≡ (some actual, agreed_link more)
unfolding handle_handshake write_link
handshake-link version actual more h e =
    received-link (λ a l'. (some a, l')) _ version actual more (hello_bytes protocol_version) h e
