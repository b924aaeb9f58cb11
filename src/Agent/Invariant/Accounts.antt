-- ===== src/Agent/Invariant/Accounts.antt =====
-- agent/qrexec-agent.c: the connections that were registered, those in the table, and the
-- MSG_CONNECTION_TERMINATED that were sent.
use qubes_core_qrexec.Prelude.{
  ℕ, zero, suc, ◌+◌, ◌≤◌, ◌<◌, ◌≡◌, refl, ap, ◌≢◌, inl, inr, true, false, Option, some, List, [],
  ◌∷◌, ◌++◌, arith, ◌==◌, if◌then◌else◌, Bool-cases, Option-cases, update, Bytes, bytes_eq,
  first_from, first_from-found,
}
use qubes_core_qrexec.Protocol.{max_fds}
use qubes_core_qrexec.Agent.State.{Connection, Agent}
use qubes_core_qrexec.Agent.Connections.{is_free, register_vchan_connection, terminated_message}
use qubes_core_qrexec.Agent.Invariant.{IsStable}

-- How often `k` stands in a list.
abbrev pub count : Bytes → List Bytes → ℕ
count k [] = 0
count k (s ∷ ss) = (if bytes_eq k s then 1 else 0) + count k ss

-- The message that tells of the end of a connection.
abbrev pub message_of : Connection → Bytes
message_of c = terminated_message c.connect_domain c.connect_port

abbrev pub messages_of : List Connection → List Bytes
messages_of [] = []
messages_of (c ∷ cs) = message_of c ∷ messages_of cs

-- 1 for a live connection with the message `k`.
abbrev pub weight : Bytes → Connection → ℕ
weight k c = if is_free c then 0 else if bytes_eq k (message_of c) then 1 else 0

-- The live connections with the message `k` below the index `n`.
unfoldable pub live_count : Bytes → (ℕ → Connection) → ℕ → ℕ
live_count k table zero = 0
live_count k table (suc n) = weight k (table n) + live_count k table n

-- Each connection that was registered is either in the table, or its end was reported, once.
abbrev pub IsBalanced : Agent → Type 0
IsBalanced a =
    (domain port : ℕ)
    → count (terminated_message domain port) (messages_of a.registered)
      ≡ live_count (terminated_message domain port) a.connection_info max_fds
        + count (terminated_message domain port) a.vchan_sent

pub count-append : (k : Bytes) (a b : List Bytes) → count k (a ++ b) ≡ count k a + count k b
count-append k [] b = omega arith
count-append k (s ∷ a) b = omega (arith, count-append k a b)

messages_of-append : (a b : List Connection) → messages_of (a ++ b) ≡ messages_of a ++ messages_of b
messages_of-append [] b = refl
messages_of-append (c ∷ a) b = rw (messages_of-append a b)

live_count-above :
    (k : Bytes) (table : ℕ → Connection) (i : ℕ) (c : Connection) (n : ℕ)
    → n ≤ i
    → live_count k (update table i c) n ≡ live_count k table n
unfolding live_count
live_count-above k table i c zero h = refl
live_count-above k table i c (suc n) h =
    let e : (n == i) ≡ false = ground arith in
    rw (e, live_count-above k table i c n (omega arith)) refl

-- A write to the table adds the new entry's weight in the place of the old one's.
pub live_count-update :
    (k : Bytes) (table : ℕ → Connection) (i : ℕ) (c : Connection) (n : ℕ)
    → i < n
    → live_count k (update table i c) n + weight k (table i) ≡ live_count k table n + weight k c
unfolding live_count
live_count-update k table i c zero h = absurd (omega arith)
live_count-update k table i c (suc n) h = elim (Bool-cases (n == i)) [
  | inl e ↦
      let q : n ≡ i = ground arith in
      rw e (let u = live_count-above k table i c n (omega arith) in rw (u, q) (omega arith))
  | inr e ↦ rw e (omega (arith, live_count-update k table i c n (ground arith)))
]

pub live_count_empty :
    (k : Bytes) (table : ℕ → Connection) (n : ℕ)
    → ((i : ℕ) → is_free (table i) ≡ true)
    → live_count k table n ≡ 0
unfolding live_count
live_count_empty k table zero free = refl
live_count_empty k table (suc n) free = rw (free n, live_count_empty k table n free) refl

pub weight_free : (k : Bytes) (c : Connection) → is_free c ≡ true → weight k c ≡ 0
weight_free k c h = rw h refl

pub weight_live :
    (k : Bytes) (c : Connection)
    → is_free c ≡ false
    → weight k c ≡ (if bytes_eq k (message_of c) then 1 else 0)
weight_live k c h = rw h refl

pub live_of_pid : (c : Connection) → c.pid ≢ some 0 → is_free c ≡ false
live_of_pid c h = elim (Bool-cases (is_free c)) [ inl e ↦ absurd (h (ground arith)) | inr e ↦ e ]

pub register-IsBalanced :
    (pid fd : Option ℕ) (domain port : ℕ) (a : Agent)
    → pid ≢ some 0
    → IsBalanced a
    → IsBalanced (register_vchan_connection pid fd domain port a)
unfolding register_vchan_connection
register-IsBalanced pid fd domain port a p h =
    elim (Option-cases (first_from (λ i. is_free (a.connection_info i)) 1 max_fds max_fds 0)) [
      | inl e ↦ rw (e, register_vchan_connection) h
      | inr (i, e) ↦
          let f = first_from-found (λ j. is_free (a.connection_info j)) 1 max_fds max_fds 0 i e in
          let c : Connection = record {
            pid = pid;
            fd = fd;
            connect_domain = domain;
            connect_port = port;
          } in
          rw (e, register_vchan_connection)
            (λ d t.
              let k = terminated_message d t in
              omega (
                arith,
                h d t,
                live_count-update k a.connection_info i c max_fds f.1,
                weight_free k (a.connection_info i) f.2,
                weight_live k c (live_of_pid c p),
                count-append k (messages_of a.registered) (messages_of (c ∷ [])),
                ap (λ l. count k l) (messages_of-append a.registered (c ∷ [])),
              ))
    ]

pub IsBalanced-IsStable : IsStable IsBalanced
IsBalanced-IsStable = record { registers = register-IsBalanced; quiet = λ a w c p h. h }
