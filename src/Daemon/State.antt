-- ===== src/Daemon/State.antt =====
-- daemon/qrexec-daemon.c: the static data, and the effects of its functions on the outside.
-- The arrays of MAX_CLIENTS entries are functions of the index. `max_client_fd` and
-- `policy_pending_max`, which start at -1, are kept as the number one above, which starts at 0.
use qubes_core_qrexec.Prelude.{ℕ, Bool, true, false, List, [], ◌∷◌, ◌++◌, Bytes, if◌then◌else◌}
use qubes_core_qrexec.Protocol.{max_fds}

-- `enum client_state`.
pub data ClientState : Type 0 where
  invalid hello cmdline running : ClientState

-- `enum policy_response`.
pub data PolicyResponse : Type 0 where
  pending allow deny malformed : PolicyResponse

-- `struct _policy_pending`; `params` is the array `ident` of the request.
pub record PolicyPending : Type 0 where
  pub pid : ℕ
  pub params : Bytes
  pub response_sent : PolicyResponse

-- VCHAN_PORT_UNUSED, which is -1, as the word that an `int` holds.
abbrev pub port_unused : ℕ
port_unused = 0xffff_ffff

abbrev pub max_clients : ℕ
max_clients = max_fds

abbrev pub vchan_base_data_port : ℕ
vchan_base_data_port = 513

pub record Daemon : Type 0 where
  pub remote_domain_id : ℕ
  pub protocol_version : ℕ
  pub default_user : Bytes
  pub clients : ℕ → ClientState
  -- max_client_fd + 1
  pub client_bound : ℕ
  pub policy_pending : ℕ → PolicyPending
  -- policy_pending_max + 1
  pub pending_bound : ℕ
  pub used_vchan_ports : ℕ → ℕ
  pub vchan_port_notify_client : ℕ → ℕ
  -- What the peers will still send before they close: on the control vchan, and each client.
  pub vchan_incoming : Bytes
  pub client_incoming : ℕ → Bytes
  -- The children forked for a service request: target, service name, identifier.
  pub requests : List (Bytes × Bytes × Bytes)
  -- What went out, oldest first: on the control vchan, to clients, and the closed descriptors.
  pub vchan_sent : List Bytes
  pub client_sent : List (ℕ × Bytes)
  pub closed : List ℕ
  -- The outcomes of the writes to come; where the list has ended they succeed.
  pub write_results : List Bool

-- A function returns, or the process exits with a status.
pub data Outcome (A : Type 0) : Type 0 where
  done : A → Daemon → Outcome A
  exit : ℕ → Daemon → Outcome A

abbrev pub M : Type 0 → Type 0
M A = Daemon → Outcome A

infixl 5 ◌>>=◌ ◌>>◌
unfoldable pub ◌>>=◌ : {A B : Type 0} → M A → (A → M B) → M B
◌>>=◌ m f d = elim (m d) [ done a d' ↦ f a d' | exit n d' ↦ exit n d' ]

abbrev pub ◌>>◌ : {B : Type 0} → M (Unit {0}) → M B → M B
m >> k = m >>= λ _. k

abbrev pub pure : {A : Type 0} → A → M A
pure a d = done a d

-- `exit(status)`.
abbrev pub exit_with : {A : Type 0} → ℕ → M A
exit_with n d = exit n d

-- Runs a function that only changes the state.
abbrev pub modify : (Daemon → Daemon) → M (Unit {0})
modify f d = done tt (f d)

abbrev pub next_result : List Bool → Bool
next_result [] = true
next_result (b ∷ _) = b

abbrev later_results : List Bool → List Bool
later_results [] = []
later_results (_ ∷ bs) = bs

-- `libvchan_send` on the control vchan; true where it returns the whole size.
unfoldable pub vchan_send : Bytes → M Bool
vchan_send s d =
    if next_result d.write_results
    then done true (record d {
      vchan_sent = d.vchan_sent ++ (s ∷ []);
      write_results = later_results d.write_results;
    })
    else done false (record d { write_results = later_results d.write_results })

-- `write_all` to a client.
unfoldable pub client_write : ℕ → Bytes → M Bool
client_write fd s d =
    if next_result d.write_results
    then done true (record d {
      client_sent = d.client_sent ++ ((fd, s) ∷ []);
      write_results = later_results d.write_results;
    })
    else done false (record d { write_results = later_results d.write_results })

-- A send on the control vchan whose failure ends the process (`handle_vchan_error`).
unfoldable pub vchan_send_or_exit : Bytes → M (Unit {0})
unfolding vchan_send
vchan_send_or_exit s = do sent ← vchan_send s; if sent then pure tt else exit_with 1
