-- ===== src/Daemon/Invariant.antt =====
-- daemon/qrexec-daemon.c: the well-formedness of the daemon's tables, and the rules by which the
-- functions on them keep a predicate.
pub mod Effects
pub mod Clients
pub mod Requests
pub mod Messages
pub mod Sessions
pub mod Starts
pub mod Steps
use qubes_core_qrexec.Prelude.{
  ℕ, ◌+◌, ◌-◌, ◌/◌, ◌≤◌, ◌<◌, ◌≡◌, refl, ◌≢◌, Bool, true, false, Option, none, some, List, [], ◌∷◌,
  if◌then◌else◌, All, Bytes, within,
}
use qubes_core_qrexec.Daemon.State.{
  ClientState, invalid, PolicyPending, port_unused, max_clients, Daemon, Outcome, done, exit, M,
  ◌>>=◌, ◌>>◌,
}
use qubes_core_qrexec.Daemon.Sanitize.{is_allowed, validate_request_id}
use qubes_core_qrexec.Daemon.Sanitize.Names.{IsServiceName}

-- The part of the state that reading and writing leave alone.
pub record Tables : Type 0 where
  pub clients : ℕ → ClientState
  pub client_bound : ℕ
  pub notify : ℕ → ℕ
  pub policy_pending : ℕ → PolicyPending
  pub pending_bound : ℕ
  pub requests : List (Bytes × Bytes × Bytes)
  pub version : ℕ

abbrev pub tables : Daemon → Tables
tables d = record {
  clients = d.clients;
  client_bound = d.client_bound;
  notify = d.vchan_port_notify_client;
  policy_pending = d.policy_pending;
  pending_bound = d.pending_bound;
  requests = d.requests;
  version = d.protocol_version;
}

-- What the daemon promises of a request before it forks: a target of letters, digits and `_-.@:`, a service name that it accepts, an identifier that it accepts.
pub record IsSafeRequest (r : Bytes × Bytes × Bytes) : Type 0 where
  pub target : All (λ c. is_allowed (b'@' ∷ b':' ∷ []) c ≡ true) r.0
  pub service : IsServiceName r.1
  pub ident : validate_request_id r.2 ≡ true

-- A live client is below `max_client_fd + 1`, which stays within the array; a port is announced to a live client only.
pub record ClientsValid (clients : ℕ → ClientState) (bound : ℕ) (notify : ℕ → ℕ) : Type 0 where
  pub in_range : bound ≤ max_clients
  pub bounded : (fd : ℕ) → clients fd ≢ invalid → fd < bound
  pub notify_live : (p : ℕ) → notify p ≢ port_unused → clients (notify p) ≢ invalid

-- A waiting request is below `policy_pending_max + 1`, which stays within its array.
pub record PendingValid (table : ℕ → PolicyPending) (bound : ℕ) : Type 0 where
  pub in_range : bound ≤ max_clients
  pub bounded : (i : ℕ) → (table i).pid ≢ 0 → i < bound

-- Both tables are well formed, and every request that was forked is safe.
pub record IsValid (t : Tables) : Type 0 where
  pub clients_valid : ClientsValid t.clients t.client_bound t.notify
  pub pending_valid : PendingValid t.policy_pending t.pending_bound
  pub all_safe : All IsSafeRequest t.requests

-- What an outcome leaves: `Q` of the result and the tables where the function returns, `P` of the tables where the process exits.
pub data Ensures {A : Type 0} (P : Tables → Type 0) (Q : A → Tables → Type 0)
    : Outcome A → Type 0 where
  returns : {a : A} {d : Daemon} → Q a (tables d) → Ensures P Q (done a d)
  exits : {n : ℕ} {d : Daemon} → P (tables d) → Ensures P Q (exit n d)

-- `P` of the tables either way.
abbrev pub Leaves : {A : Type 0} → (Tables → Type 0) → Outcome A → Type 0
Leaves P o = Ensures P (λ _. P) o

pub Ensures-bind :
    {A B : Type 0} {P : Tables → Type 0} {Q : A → Tables → Type 0} {R : B → Tables → Type 0}
    (m : M A) (k : A → M B) {d : Daemon}
    → Ensures P Q (m d)
    → ((a : A) (d' : Daemon) → Q a (tables d') → Ensures P R (k a d'))
    → Ensures P R ((m >>= k) d)
unfolding ◌>>=◌
Ensures-bind {A = A} {B = B} {P = P} {Q = Q} {R = R} m k {d = d} h step = by_outcome (m d) h
  where
    by_outcome :
        (o : Outcome A)
        → Ensures P Q o
        → (let r : Outcome B = elim o [ done a d' ↦ k a d' | exit n d' ↦ exit n d' ] in
            Ensures P R r)
    by_outcome (done a d') (returns h) = step a d' h
    by_outcome (exit n d') (exits h) = exits h

pub Ensures-if :
    {A : Type 0} {P : Tables → Type 0} {Q : A → Tables → Type 0} (b : Bool) {x y : Outcome A}
    → (b ≡ true → Ensures P Q x)
    → (b ≡ false → Ensures P Q y)
    → Ensures P Q (if b then x else y)
Ensures-if true hx hy = hx refl
Ensures-if false hx hy = hy refl

-- The same for a choice between two steps.
pub Ensures-if_step :
    {A : Type 0} {P : Tables → Type 0} {Q : A → Tables → Type 0} (b : Bool) (x y : M A) {d : Daemon}
    → (b ≡ true → Ensures P Q (x d))
    → (b ≡ false → Ensures P Q (y d))
    → Ensures P Q ((if b then x else y) d)
Ensures-if_step true x y hx hy = hx refl
Ensures-if_step false x y hx hy = hy refl

pub Ensures-option :
    {A B : Type 0} {P : Tables → Type 0} {Q : B → Tables → Type 0} (o : Option A) {x : Outcome B}
    {k : A → Outcome B}
    → Ensures P Q x
    → ((a : A) → o ≡ some a → Ensures P Q (k a))
    → (let r : Outcome B = elim o [ none ↦ x | some a ↦ k a ] in Ensures P Q r)
Ensures-option none hx hk = hx
Ensures-option (some a) hx hk = hk a refl

pub Ensures-option_step :
    {A B : Type 0} {P : Tables → Type 0} {Q : B → Tables → Type 0} (o : Option A) (x : M B)
    (k : A → M B) {d : Daemon}
    → Ensures P Q (x d)
    → ((a : A) → o ≡ some a → Ensures P Q (k a d))
    → (let m : M B = elim o [ none ↦ x | some a ↦ k a ] in Ensures P Q (m d))
Ensures-option_step none x k hx hk = hx
Ensures-option_step (some a) x k hx hk = hk a refl

pub Ensures-weaken :
    {A : Type 0} {P P' : Tables → Type 0} {Q Q' : A → Tables → Type 0} {o : Outcome A}
    → Ensures P Q o
    → ((t : Tables) → P t → P' t)
    → ((a : A) (t : Tables) → Q a t → Q' a t)
    → Ensures P' Q' o
Ensures-weaken (returns {a = a} {d = d} h) p q = returns (q a (tables d) h)
Ensures-weaken (exits {d = d} h) p q = exits (p (tables d) h)
