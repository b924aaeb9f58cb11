-- ===== src/Lib.antt =====
-- qubes-core-qrexec: remote execution between the virtual machines of a Qubes system.
--
-- The program. An agent in a virtual machine (agent/) asks the qrexec daemon of that machine in dom0
-- (daemon/qrexec-daemon.c) to call a service of another one. The daemon checks the request, forks a
-- child that asks the policy engine (qrexec/), and the child turns an `allow` into a command line
-- that the daemon of the target passes to its agent. The two machines then exchange the data over a
-- vchan of their own, with the functions of libqrexec/. The messages are those of
-- libqrexec/qrexec.h. The development models the daemon and the functions of dom0 that it shares with
-- the client, the agent and its processes for data, and of libqrexec the parsing of command lines
-- and service configurations, the buffers, the data channel and the loop on them.
--
-- The files.
--   Prelude/*: the names of the libraries and the shared lemmas. `first_from` (Prelude/Search) is the
--     loop that looks for the first index of an array.
--   Protocol/*: libqrexec/qrexec.h. Structures are lists of bytes in little-endian order.
--   Daemon/State: the static data of daemon/qrexec-daemon.c (`clients`, `policy_pending`,
--     `used_vchan_ports`, `vchan_port_notify_client` and their bounds) as the record `Daemon`. It also
--     holds what has arrived on the vchan and what was sent, and in `requests` the arguments of each
--     child that was forked. A function that changes the state takes it and returns it, or the
--     status with which the process exits.
--   Daemon/Ports: `allocate_vchan_port`, `release_vchan_port`, `terminate_client`.
--   Daemon/Sanitize: `sanitize_name`, `validate_request_id`, `validate_service_name`,
--     `sanitize_message_from_agent`.
--   Daemon/Policy: `parse_policy_response`.
--   Daemon/Execute: `send_request_to_daemon`, `connect_daemon_socket`, `handle_execute_service_child`.
--   Daemon/Pending: `find_policy_pending_slot`, `send_service_refused`, `handle_execute_service`,
--     `reap_children`.
--   Daemon/Agent: `handle_message_from_agent`, `handle_connection_terminated`.
--   Daemon/Client: `send_client_hello`, `handle_new_client`, `handle_client_hello`,
--     `handle_cmdline_message_from_client`, `handle_cmdline_body_from_client`,
--     `handle_message_from_client`.
--   Daemon/Restart: `handle_agent_hello`, `handle_agent_restart`, and what `init` sets up.
--   Daemon/Invariant/*: the well-formedness of the tables, that each handler keeps it, and the loop of
--     `main` as a relation `Step` with the states that it reaches (Steps).
--   Rpc/Command: `parse_qubes_rpc_command`, `exec_qubes_rpc_if_requested` of libqrexec/exec.c.
--   Rpc/Port: `validate_port` of libqrexec/exec.c.
--   Rpc/Find: `find_file`, `load_service_config_raw`, `load_service_config_v2` and
--     `qrexec_cmd_use_fork_server` of libqrexec/exec.c, on a file system that is a parameter.
--   Rpc/Service: the rest of `find_qrexec_service`, and `qubes_tcp_connect`.
--   Config/Value, Config/File: `parse_toml_value` and `qubes_toml_config_parse` of libqrexec/toml.c.
--   Io/Memory: libqrexec/buffer.c.  Io/Stdin: libqrexec/write-stdin.c.  Io/Replace:
--     libqrexec/replace.c.
--   Io/Channel/Sender, Io/Channel/Receiver: `handle_input_v2`, `send_exit_code` and
--     `handle_remote_data_v2` of libqrexec/remote.c.
--   Io/Process/State, Io/Process/Loop: `qrexec_process_io` of libqrexec/process_io.c, its variables as
--     the record `Process`, one round of its loop on what the outside does in it, and the loop.
--     Io/Process/Kept says what a predicate on its states needs to hold in all of them.
--   Io/All: libqrexec/ioall.c.
--   Agent/State: the static data of agent/qrexec-agent.c (`connection_info`,
--     `requests_waiting_for_session`, `wait_for_session_pid`) as the record `Agent`, with what was sent,
--     written, closed and registered.
--   Agent/Ident: the identifiers "SOCKET%d".  Agent/Connections: `register_vchan_connection`,
--     `find_connection`, `terminate_connection`, `release_connection`,
--     `handle_terminated_fork_client`.  Agent/Requests: `handle_server_cmd` and what it calls.
--     Agent/Events: `reap_children`, `handle_trigger_io`.
--   Agent/Invariant/*: the loop of `main` as a relation (Steps), and what holds of the states that it
--     reaches (Reached).
--   Agent/Data: agent/qrexec-agent-data.c, on Dom0/Handshake and Io/Process.
--   Agent/ClientVm: what agent/qrexec-client-vm.c writes to the agent.  Agent/ForkServer:
--     `handle_single_command` of agent/qrexec-fork-server.c.
--   Dom0/*: daemon/qrexec-daemon-common.c. Link is a descriptor or a vchan to a peer; Handshake has
--     both ends of the data vchan; Connect the messages to a daemon; Execute `qrexec_execute_vm`;
--     Run `run_qrexec_to_dom0`, `handshake_and_go` and `handle_failed_exec`.
--
-- The outside. What system calls and libvchan answer is an argument: the results of `fork`, `read`,
-- `write` and `libvchan_buffer_space`, the children that `waitpid` reports, the bytes that a client
-- or an agent sends, and the answers of the policy engine. A list of results that has ended means a
-- call that would block or, for writes on the vchan, one that succeeds, as the file says.
--
-- Bounds and fuel. Arrays are functions of the index and their bounds are those of the source: 256
-- clients, ports and waiting requests. A search has fuel for every index of its array.
-- The search along a path list has fuel for every byte of the list, and each round shortens it.
-- `receive_all` has fuel for every byte on the vchan, and each round takes at least a header of 8.
-- The loops on `read`, `write`, `send`, `sendmsg` and `libvchan_buffer_space` go down the list of
-- their results, and the loop of `qrexec_process_io` down the list of its rounds.
-- Unsigned words wrap where the source lets them; `int`s that stay at 0 or above are numbers, and
-- those that are compared with their sign have the comparison written out.
--
-- Not modelled: the descriptors and processes themselves; opening and reading files, and the
-- execution of services in libqrexec/exec.c (`execute_parsed_qubes_rpc_command`, `do_fork_exec`,
-- `exec_wait_for_session`), whose results are inputs;
-- libqrexec/unix-server.c, vchan_timeout.c and log.c, and of ioall.c `copy_fd_all` and the socket of
-- `qubesd_call`, which are system calls; daemon/qrexec-client.c, which reads
-- options and calls what is modelled, and the options, the local process and the set up of
-- agent/qrexec-client-vm.c and agent/qrexec-fork-server.c; of agent/qrexec-agent.c PAM and the set up; and the policy engine in qrexec/, of which the daemon sees the reply. That `malloc`
-- succeeds is taken for granted, except where libqrexec/buffer.c limits it and in
-- `qubes_read_all_to_malloc`.
pub mod Prelude
pub mod Protocol
pub mod Daemon
pub mod Rpc
pub mod Config
pub mod Io
pub mod Dom0
pub mod Agent
