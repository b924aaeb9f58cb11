-- ===== src/Agent/Connections.antt =====
-- agent/qrexec-agent.c: the table of connections (`register_vchan_connection`, `find_connection`,
-- `terminate_connection`, `release_connection`, `handle_terminated_fork_client`).
use qubes_core_qrexec.Prelude.{
  ℕ, Bool, false, Option, none, some, [], ◌∷◌, ◌++◌, ◌==◌, update, Bytes, first_from,
}
use qubes_core_qrexec.Protocol.{
  max_fds, msg_connection_terminated, header_bytes, sizeof_exec_params, exec_params_bytes,
}
use qubes_core_qrexec.Agent.State.{Connection, Agent, Outcome, done, ◌>>=◌, vchan_send_or_exit}

-- `pid == n`, for the number `n`.
abbrev pub has_pid : ℕ → Connection → Bool
has_pid n c = elim c.pid [ none ↦ false | some k ↦ k == n ]

abbrev pub is_free : Connection → Bool
is_free c = has_pid 0 c

-- Without a free entry nothing is registered.
unfoldable pub register_vchan_connection : Option ℕ → Option ℕ → ℕ → ℕ → Agent → Agent
register_vchan_connection pid fd domain port a =
    let c : Connection = record {
      pid = pid;
      fd = fd;
      connect_domain = domain;
      connect_port = port;
    } in
    elim (first_from (λ i. is_free (a.connection_info i)) 1 max_fds max_fds 0) [
      | none ↦ a
      | some i ↦ record a {
        connection_info = update a.connection_info i c;
        registered = a.registered ++ (c ∷ []);
      }
    ]

unfoldable pub find_connection : ℕ → Agent → Option ℕ
find_connection pid a = first_from (λ i. has_pid pid (a.connection_info i)) 1 max_fds max_fds 0

abbrev pub terminated_message : ℕ → ℕ → Bytes
terminated_message domain port =
    header_bytes (record { type = msg_connection_terminated; len = sizeof_exec_params })
    ++ exec_params_bytes (record { connect_domain = domain; connect_port = port; cmdline = [] })

unfoldable pub terminate_connection : ℕ → ℕ → Agent → Outcome
terminate_connection domain port a = vchan_send_or_exit (terminated_message domain port) a

abbrev pub free_connection : ℕ → Agent → Agent
free_connection id a = record a {
  connection_info = update a.connection_info id (record (a.connection_info id) { pid = some 0 });
}

unfoldable pub release_connection : ℕ → Agent → Outcome
release_connection id a =
    terminate_connection (a.connection_info id).connect_domain (a.connection_info id).connect_port a
    >>= λ a'. done (free_connection id a')

-- The descriptor of the entry is closed, whatever `read` returns.
unfoldable pub handle_terminated_fork_client : ℕ → Agent → Outcome
handle_terminated_fork_client id a = elim (a.connection_info id).fd [
  | none ↦ release_connection id a
  | some fd ↦ release_connection id (record a { closed = a.closed ++ (fd ∷ []) })
]
