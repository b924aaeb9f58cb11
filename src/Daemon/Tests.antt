-- ===== src/Daemon/Tests.antt =====
-- Runs of the daemon's functions, and the theorems on them at concrete inputs.
mod Replies
mod Clients
use qubes_core_qrexec.Prelude.{
  ℕ, ◌+◌, ◌-◌, ◌/◌, ◌≡◌, refl, some, [], ◌∷◌, ◌++◌, length, replicate, All, Bytes, codes,
  first_from,
}
use qubes_core_qrexec.Daemon.State.{Daemon, Outcome, done, exit, ◌>>=◌, ◌>>◌}
use qubes_core_qrexec.Protocol.{msg_trigger_service, header_bytes, sizeof_trigger_params}
use qubes_core_qrexec.Daemon.Sanitize.{
  is_allowed, sanitize_name, is_ident_byte, all_nul, validate_request_id, validate_service_name,
  sanitize_message_from_agent,
}
use qubes_core_qrexec.Daemon.Pending.{
  find_policy_pending_slot, execute_in_slot, handle_execute_service,
}
use qubes_core_qrexec.Daemon.Agent.{
  vchan_recv_or_exit, execute_validated, handle_trigger_service, handle_checked_message,
  handle_message_from_agent,
}
use qubes_core_qrexec.Daemon.Restart.{start}
use qubes_core_qrexec.Daemon.Invariant.{IsSafeRequest, ClientsValid, PendingValid}
use qubes_core_qrexec.Daemon.Invariant.Steps.{
  arrival, agent_message, Reach, here, next, requests_safe, clients_well_formed,
  pending_well_formed,
}

abbrev pad : ℕ → Bytes → Bytes
pad n s = s ++ replicate (n - length s) 0

abbrev started : Daemon
started = start 5 2 (codes "user")

-- A MSG_TRIGGER_SERVICE of an agent of protocol 2, with a `/` in the service name.
abbrev trigger : Bytes
trigger =
    header_bytes (record { type = msg_trigger_service; len = sizeof_trigger_params })
    ++ (pad 64 (codes "qubes.Get/Date") ++ (pad 32 (codes "@default") ++ pad 32 (codes "SOCKET12")))

abbrev arrived : Daemon
arrived = record started {
  vchan_incoming = trigger;
  client_incoming = λ fd. [];
  write_results = [];
}

abbrev state_of : Outcome (Unit {0}) → Daemon
state_of (done a d) = d
state_of (exit n d) = d

abbrev asked : Daemon
asked = state_of (handle_message_from_agent (some 1234) arrived)

runs : handle_message_from_agent (some 1234) arrived ≡ done tt asked
unfolding handle_message_from_agent vchan_recv_or_exit ◌>>=◌ sanitize_message_from_agent
    handle_checked_message handle_trigger_service execute_validated validate_service_name
    validate_request_id is_ident_byte all_nul handle_execute_service execute_in_slot
    find_policy_pending_slot first_from sanitize_name is_allowed
runs = refl

asked-requests :
    asked.requests ≡ (codes "@default", codes "qubes.Get_Date", pad 32 (codes "SOCKET12")) ∷ []
unfolding handle_message_from_agent vchan_recv_or_exit ◌>>=◌ sanitize_message_from_agent
    handle_checked_message handle_trigger_service execute_validated validate_service_name
    validate_request_id is_ident_byte all_nul handle_execute_service execute_in_slot
    find_policy_pending_slot first_from sanitize_name is_allowed
asked-requests = refl

asked-Reach : Reach started asked
asked-Reach = next (next here (arrival trigger (λ fd. []) [])) (agent_message (some 1234) runs)

requests_safe_example : All IsSafeRequest asked.requests
requests_safe_example = requests_safe 5 2 (codes "user") asked asked-Reach

clients_well_formed_example :
    ClientsValid asked.clients asked.client_bound asked.vchan_port_notify_client
clients_well_formed_example = clients_well_formed 5 2 (codes "user") asked asked-Reach

pending_well_formed_example : PendingValid asked.policy_pending asked.pending_bound
pending_well_formed_example = pending_well_formed 5 2 (codes "user") asked asked-Reach
