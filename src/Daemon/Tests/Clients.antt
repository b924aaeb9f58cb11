-- ===== src/Daemon/Tests/Clients.antt =====
-- The theorems on ports, clients and restarts at concrete inputs.
use qubes_core_qrexec.Prelude.{
  ℕ, ◌%◌, ◌≡◌, refl, ◌≢◌, true, some, List, [], ◌++◌, arith, update, Bytes, codes, first_from,
}
use qubes_core_qrexec.Daemon.State.{running, allow, Daemon, done}
use qubes_core_qrexec.Protocol.{msg_just_exec, msg_service_connect, MsgHeader, ExecParams}
use qubes_core_qrexec.Daemon.Ports.{port_scan, allocate_vchan_port, release_vchan_port}
use qubes_core_qrexec.Daemon.Ports.Parity.{Fresh, allocate_vchan_port-Fresh, ports_disjoint}
use qubes_core_qrexec.Daemon.Ports.Release.{release-allocate}
use qubes_core_qrexec.Daemon.Pending.{new_request, set_response}
use qubes_core_qrexec.Daemon.Client.{strncmp_eq, find_request, accept_request, forward_cmdline}
use qubes_core_qrexec.Daemon.Client.Accept.{Waits, accept_request-Waits}
use qubes_core_qrexec.Daemon.Client.Forward.{concat, framed, forward_cmdline-framed}
use qubes_core_qrexec.Daemon.Restart.{start, refused, handle_agent_restart}
use qubes_core_qrexec.Daemon.Restart.Reset.{IsReset, handle_agent_restart-IsReset}
use qubes_core_qrexec.Daemon.Invariant.{Leaves}

abbrev daemon_of : ℕ → Daemon
daemon_of domain = start domain 3 (codes "user")

allocated : (allocate_vchan_port 9 (daemon_of 5)).0 ≡ 514
unfolding allocate_vchan_port port_scan first_from
allocated = refl

allocated_back : (allocate_vchan_port 5 (daemon_of 9)).0 ≡ 513
unfolding allocate_vchan_port port_scan first_from
allocated_back = refl

nonzero : (allocate_vchan_port 9 (daemon_of 5)).0 ≢ 0
nonzero e = omega (arith, allocated, e)

nonzero_back : (allocate_vchan_port 5 (daemon_of 9)).0 ≢ 0
nonzero_back e = omega (arith, allocated_back, e)

ports_disjoint_example :
    ((allocate_vchan_port 9 (daemon_of 5)).0 % 2 ≡ 0)
    × ((allocate_vchan_port 5 (daemon_of 9)).0 % 2 ≡ 1)
    × ((allocate_vchan_port 9 (daemon_of 5)).0 ≢ (allocate_vchan_port 5 (daemon_of 9)).0)
ports_disjoint_example =
    ports_disjoint 5 9 (daemon_of 5) (daemon_of 9) refl refl (omega arith) (omega arith)
      (omega arith) nonzero nonzero_back

allocate_vchan_port-Fresh_example : Fresh 9 (daemon_of 5) (allocate_vchan_port 9 (daemon_of 5))
allocate_vchan_port-Fresh_example = allocate_vchan_port-Fresh 9 (daemon_of 5) nonzero

-- All ports are held by domain 7.
abbrev full : Daemon
full = record (daemon_of 5) { used_vchan_ports = λ i. 7 }

full_run : (allocate_vchan_port 9 full).0 ≡ 0
unfolding allocate_vchan_port port_scan first_from
full_run = refl

release-allocate_example :
    (release_vchan_port
        (allocate_vchan_port 9 (daemon_of 5)).0
        9
        (allocate_vchan_port 9 (daemon_of 5)).1).used_vchan_ports
      1
    ≡ (daemon_of 5).used_vchan_ports 1
release-allocate_example = release-allocate 9 (daemon_of 5) 1 nonzero

-- Client 10 waits for port 514.
abbrev waiting_client : Daemon
waiting_client = record (daemon_of 5) {
  clients = update (daemon_of 5).clients 10 running;
  used_vchan_ports = update (daemon_of 5).used_vchan_ports 1 9;
  vchan_port_notify_client = update (daemon_of 5).vchan_port_notify_client 1 10;
}

abbrev waiting_request : Daemon
waiting_request = record (daemon_of 5) {
  policy_pending = update (daemon_of 5).policy_pending 0 (new_request 1234 (codes "SOCKET12"));
  pending_bound = 1;
}

abbrev connect_header : MsgHeader
connect_header = record { type = msg_service_connect; len = 16 }

abbrev connect_params : ExecParams
connect_params = record { connect_domain = 0; connect_port = 0; cmdline = codes "SOCKET12" }

accepted_run :
    accept_request connect_header connect_params waiting_request
    ≡ some (set_response 0 allow waiting_request)
unfolding accept_request find_request first_from strncmp_eq
accepted_run = refl

accept_request-Waits_example :
    (i : ℕ) × Waits (codes "SOCKET12") waiting_request i
    × (set_response 0 allow waiting_request ≡ set_response i allow waiting_request)
    × ¬ Waits (codes "SOCKET12") (set_response 0 allow waiting_request) i
accept_request-Waits_example =
    accept_request-Waits connect_header connect_params waiting_request
      (set_response 0 allow waiting_request) refl accepted_run

abbrev exec_header : MsgHeader
exec_header = record { type = msg_just_exec; len = 18 }

abbrev exec_params : ExecParams
exec_params = record { connect_domain = 0; connect_port = 513; cmdline = codes "DEFAULT:ls" }

forward_cmdline-framed_example :
    (sent : List Bytes) × (forward_cmdline exec_header exec_params (daemon_of 5)
      ≡ done true (record (daemon_of 5) { vchan_sent = [] ++ sent; write_results = [] }))
    × (concat sent ≡ framed (codes "user") exec_header exec_params)
forward_cmdline-framed_example =
    forward_cmdline-framed exec_header exec_params (daemon_of 5) refl refl (omega arith)

handle_agent_restart-IsReset_example :
    Leaves (IsReset 3) (handle_agent_restart refused waiting_request)
handle_agent_restart-IsReset_example = handle_agent_restart-IsReset refused waiting_request
