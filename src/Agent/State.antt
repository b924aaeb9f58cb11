-- ===== src/Agent/State.antt =====
-- agent/qrexec-agent.c: the static data, and the effects of its functions on the outside.
-- The arrays of MAX_FDS entries are functions of the index.
use qubes_core_qrexec.Prelude.{
  ℕ, Bool, true, Option, none, some, List, [], ◌∷◌, ◌++◌, if◌then◌else◌, Bytes,
}
use qubes_core_qrexec.Protocol.{ExecParams, read_exact}
use qubes_core_qrexec.Rpc.Command.{ParsedCommand}
use qubes_core_qrexec.Rpc.Find.{FileSystem}

-- `struct connection_info`; `none` stands for a `pid` or `fd` of -1. A `pid` of 0 marks a free entry.
pub record Connection : Type 0 where
  pub pid : Option ℕ
  pub fd : Option ℕ
  pub connect_domain : ℕ
  pub connect_port : ℕ

-- `struct waiting_request`. The command line of `params` is a C string; `cmd` may be NULL.
pub record WaitingRequest : Type 0 where
  pub type : ℕ
  pub params : ExecParams
  pub cmd : Option ParsedCommand

-- A process that `handle_new_process` forks.
pub record NewProcess : Type 0 where
  pub type : ℕ
  pub connect_domain : ℕ
  pub connect_port : ℕ
  pub cmd : Option ParsedCommand

pub record Agent : Type 0 where
  pub connection_info : ℕ → Connection
  pub requests_waiting_for_session : ℕ → Option WaitingRequest
  -- `none` is -1.
  pub wait_for_session_pid : Option ℕ
  pub meminfo_write_started : Bool
  -- What dom0 has sent on the control vchan.
  pub vchan_incoming : Bytes
  -- What went out, oldest first: on the control vchan, to local sockets, the closed descriptors, the
  -- processes, the signals, and the connections that were registered.
  pub vchan_sent : List Bytes
  pub written : List (ℕ × Bytes)
  pub closed : List ℕ
  pub processes : List NewProcess
  pub signals : List ℕ
  pub registered : List Connection
  -- The outcomes of the sends to come on the vchan; where the list has ended they succeed.
  pub send_results : List Bool

-- How a `write` to a client ends: it succeeds, with EBADF, or with another error.
pub data IdentWrite : Type 0 where
  succeeds bad_descriptor write_error : IdentWrite

-- What the outside answers while one request is handled.
pub record Outside : Type 0 where
  pub files : FileSystem
  pub config_path : Bytes
  -- The child of `wait_for_session_maybe`; `none` where `pipe` or `fork` fails.
  pub session_child : Option ℕ
  pub ident_write : IdentWrite
  -- Whether `fork_server_path` is set, the socket of a user's fork server where it can be connected
  -- to, and whether the two writes to it succeed.
  pub has_fork_server : Bool
  pub fork_server : Option Bytes → Option ℕ
  pub info_written : Bool
  pub cmdline_written : Bool
  -- The child of `handle_new_process`; `none` where `fork` fails.
  pub child : Option ℕ
  -- The pid in the file of the meminfo writer, and whether it can be signalled.
  pub meminfo_pid : Option ℕ
  pub kill_succeeds : Bool
  -- What `socket_fd` holds in `handle_service_refused` before `sscanf`.
  pub uninitialized : ℕ

-- A function returns, or the process exits with a status.
pub data Outcome : Type 0 where
  done : Agent → Outcome
  exit : ℕ → Agent → Outcome

infixl 5 ◌>>=◌
unfoldable pub ◌>>=◌ : Outcome → (Agent → Outcome) → Outcome
done a >>= f = f a
exit n a >>= f = exit n a

abbrev pub next_result : List Bool → Bool
next_result [] = true
next_result (b ∷ _) = b

abbrev pub later_results : List Bool → List Bool
later_results [] = []
later_results (_ ∷ bs) = bs

-- `libvchan_send`, whose failure ends the process (`handle_vchan_error`).
unfoldable pub vchan_send_or_exit : Bytes → Agent → Outcome
vchan_send_or_exit s a =
    if next_result a.send_results
    then done (record a {
      vchan_sent = a.vchan_sent ++ (s ∷ []);
      send_results = later_results a.send_results;
    })
    else exit 1 (record a { send_results = later_results a.send_results })

-- `libvchan_recv` of `n` bytes, whose failure ends the process.
unfoldable pub vchan_recv_or_exit : ℕ → (Bytes → Agent → Outcome) → Agent → Outcome
vchan_recv_or_exit n next a = elim (read_exact n a.vchan_incoming) [
  | none ↦ exit 1 a
  | some (s, rest) ↦ next s (record a { vchan_incoming = rest })
]
