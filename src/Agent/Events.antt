-- ===== src/Agent/Events.antt =====
-- agent/qrexec-agent.c: children that exit and requests of local clients (`reap_children`,
-- `handle_trigger_io`), and the start state.
use qubes_core_qrexec.Prelude.{
  ℕ, zero, suc, ◌+◌, Bool, false, not, ◌||◌, Option, none, some, List, [], ◌∷◌, ◌++◌, ltb, leb,
  ◌==◌, if◌then◌else◌, update, length, take, drop, Bytes,
}
use qubes_core_qrexec.Protocol.{
  max_fds, max_service_name_len, msg_trigger_service3, MsgHeader, sizeof_header, header_bytes,
  header_at, sizeof_trigger_params3, read_exact,
}
use qubes_core_qrexec.Agent.State.{
  WaitingRequest, Agent, Outside, Outcome, done, ◌>>=◌, vchan_send_or_exit,
}
use qubes_core_qrexec.Agent.Ident.{socket_ident}
use qubes_core_qrexec.Agent.Connections.{find_connection, release_connection}
use qubes_core_qrexec.Agent.Requests.{handle_server_exec_request_do}

-- One slot of the waiting requests, if it holds one: the request is handled and the slot cleared.
unfoldable pub resume_slot : Outside → ℕ → Option WaitingRequest → Agent → Agent
resume_slot outside id none a = a
resume_slot outside id (some w) a =
    let a' = handle_server_exec_request_do outside w.type w.cmd w.params a in
    record a' { requests_waiting_for_session = update a'.requests_waiting_for_session id none }

-- The loop over the slots, with the rounds left and the index; `outside` answers for each slot.
unfoldable pub resume_waiting : (ℕ → Outside) → ℕ → ℕ → Agent → Agent
resume_waiting outside zero id a = a
resume_waiting outside (suc n) id a =
    resume_waiting outside n (id + 1)
      (resume_slot (outside id) id (a.requests_waiting_for_session id) a)

abbrev pub is_session : ℕ → Agent → Bool
is_session pid a = elim a.wait_for_session_pid [ none ↦ false | some n ↦ n == pid ]

unfoldable pub session_ready : (ℕ → Outside) → Agent → Agent
session_ready outside a = record (resume_waiting outside max_fds 0 a) {
  wait_for_session_pid = none;
}

-- One child that `waitpid` reports.
unfoldable pub reap_child : (ℕ → Outside) → ℕ → Agent → Outcome
reap_child outside pid a =
    if is_session pid a
    then done (session_ready outside a)
    else elim (find_connection pid a) [ none ↦ done a | some id ↦ release_connection id a ]

-- The children that `waitpid` reports, in order, each with the answers of the outside.
unfoldable pub reap_children : List (ℕ × (ℕ → Outside)) → Agent → Outcome
reap_children [] a = done a
reap_children ((pid, outside) ∷ children) a = reap_child outside pid a >>= reap_children children

-- `snprintf` into the identifier, whose 32 bytes the text of an `int` fits in; the bytes behind its
-- NUL stay.
abbrev pub with_ident : ℕ → Bytes → Bytes
with_ident fd params =
    take 64 params ++ (socket_ident fd ++ (0 ∷ drop (64 + length (socket_ident fd) + 1) params))

abbrev pub is_bad_trigger : MsgHeader → Bool
is_bad_trigger hdr =
    not (hdr.type == msg_trigger_service3)
    || leb hdr.len sizeof_trigger_params3
    || ltb (sizeof_trigger_params3 + max_service_name_len) hdr.len

abbrev pub refuse : ℕ → Agent → Agent
refuse fd a = record a { closed = a.closed ++ (fd ∷ []) }

unfoldable pub forward_trigger : ℕ → MsgHeader → Option (Bytes × Bytes) → Agent → Outcome
forward_trigger fd hdr none a = done (refuse fd a)
forward_trigger fd hdr (some (params, rest)) a =
    vchan_send_or_exit (header_bytes hdr) a >>= vchan_send_or_exit (with_ident fd params)

unfoldable pub check_trigger : ℕ → Option (Bytes × Bytes) → Agent → Outcome
check_trigger fd none a = done (refuse fd a)
check_trigger fd (some (s, rest)) a =
    if is_bad_trigger (header_at s)
    then done (refuse fd a)
    else forward_trigger fd (header_at s) (read_exact (header_at s).len rest) a

-- `client` is what `do_accept` returns, `none` where it fails, and `request` what the client sends.
unfoldable pub handle_trigger_io : Option ℕ → Bytes → Agent → Outcome
handle_trigger_io none request a = done a
handle_trigger_io (some fd) request a = check_trigger fd (read_exact sizeof_header request) a

-- The static data before the first event.
abbrev pub start : Agent
start = record {
  connection_info = λ i. record { pid = some 0; fd = some 0; connect_domain = 0; connect_port = 0 };
  requests_waiting_for_session = λ i. none;
  wait_for_session_pid = none;
  meminfo_write_started = false;
  vchan_incoming = [];
  vchan_sent = [];
  written = [];
  closed = [];
  processes = [];
  signals = [];
  registered = [];
  send_results = [];
}
