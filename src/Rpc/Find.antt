-- ===== src/Rpc/Find.antt =====
-- libqrexec/exec.c: `find_file`, the search of `load_service_config_raw` and `find_qrexec_service`
-- that calls it, `load_service_config_v2` and `qrexec_cmd_use_fork_server`. The file system is a
-- parameter, and so is the path list. The descriptor and the name of the service stand beside the
-- command, which here always has them. That `malloc` and `fopen` succeed is taken for granted.
pub mod Directories
pub mod Precedence
use qubes_core_qrexec.Prelude.{
  ℕ, zero, suc, ◌+◌, Bool, true, false, not, ◌&&◌, ◌||◌, Option, none, some, [], ◌∷◌, ◌++◌, ltb,
  leb, ◌==◌, if◌then◌else◌, length, take, drop, Bytes, codes, starts_with, bytes_eq,
}
use qubes_core_qrexec.Rpc.Command.{ParsedCommand, name_max, before}
use qubes_core_qrexec.Config.File.{Config, qubes_toml_config_parse}

-- The kinds of file that the code tells apart by `st_mode`.
pub data Mode : Type 0 where
  link socket other : Mode

-- What `lstat` and `stat` answer: a kind, ENOENT, or another error. `stat` never answers `link`.
pub data Stat : Type 0 where
  present : Mode → Stat
  enoent : Stat
  failed : Stat

pub record FileSystem : Type 0 where
  pub lstat : Bytes → Stat
  pub stat : Bytes → Stat
  pub readlink : Bytes → Option Bytes
  pub contents : Bytes → Bytes

-- The results 0, with what is in the buffer and in `st_mode`, -1 and -2.
pub data Found : Type 0 where
  found : Bytes → Mode → Found
  absent : Found
  error : Found

-- After `lstat` or `stat`; `none` where the next directory is tried.
abbrev pub after_stat : Bytes → Stat → Option Found
after_stat path (present m) = some (found path m)
after_stat path enoent = none
after_stat path failed = some error

abbrev pub is_tcp : Bytes → Bool
is_tcp target = starts_with (codes "/dev/tcp/") target || bytes_eq target (codes "/dev/tcp")

-- The target of a symbolic link, as far as it fits in the buffer.
unfoldable pub after_readlink : FileSystem → ℕ → Bytes → Option Bytes → Option Found
after_readlink fs size path none = some error
after_readlink fs size path (some target) =
    let t = take size target in
    if is_tcp t
    then if leb size (length t)
      then some error
      else if length t == length (codes "/dev/tcp/")
      then some error
      else some (found t link)
    else after_stat path (fs.stat path)

-- `with_statbuf` is false where the caller passes NULL for `statbuf`.
unfoldable pub after_lstat : FileSystem → Bool → ℕ → Bytes → Stat → Option Found
after_lstat fs true size path (present link) = after_readlink fs size path (fs.readlink path)
after_lstat fs false size path (present link) = after_stat path (fs.stat path)
after_lstat fs with_statbuf size path s = after_stat path s

-- One round of the loop: the file in one directory.
unfoldable pub look_up : FileSystem → Bool → ℕ → Bytes → Bytes → Option Found
look_up fs with_statbuf size name dir =
    let path = dir ++ (b'/' ∷ name) in
    if leb size (length dir + length name + 1)
    then some error
    else after_lstat fs with_statbuf size path (fs.lstat path)

abbrev pub skip_colons : Bytes → Bytes
skip_colons [] = []
skip_colons (c ∷ s) = if c == b':' then skip_colons s else c ∷ s

-- What follows the first directory.
abbrev pub next_directory : Bytes → Bytes
next_directory s = skip_colons (drop (length (before b':' s)) s)

-- `goto done` where a round has an answer.
abbrev pub or_next : Option Found → Found → Found
or_next none rest = rest
or_next (some r) rest = r

-- The loop over the path list. Each round shortens the list, so that fuel for its length is enough.
unfoldable pub search_path : ℕ → (Bytes → Option Found) → Bytes → Found
search_path zero look s = absent
search_path (suc fuel) look [] = absent
search_path (suc fuel) look (c ∷ s) =
    or_next (look (before b':' (c ∷ s))) (search_path fuel look (next_directory (c ∷ s)))

unfoldable pub find_file : FileSystem → Bool → ℕ → Bytes → Bytes → Found
find_file fs with_statbuf size path_list name =
    if ltb name_max (length name)
    then absent
    else search_path (length path_list) (look_up fs with_statbuf size name) path_list

-- First the descriptor, with the argument, and then the name of the service.
abbrev pub or_else : Found → Found → Found
or_else absent r = r
or_else (found path m) r = found path m
or_else error r = error

unfoldable pub find_service : FileSystem → Bool → ℕ → Bytes → Bytes → Bytes → Found
find_service fs with_statbuf size path_list descriptor name =
    or_else (find_file fs with_statbuf size path_list descriptor)
      (find_file fs with_statbuf size path_list name)

abbrev pub sockaddr_max : ℕ
sockaddr_max = 1024

-- The command with what a configuration sets; its user is returned beside it.
abbrev pub configured : ParsedCommand → Config → ParsedCommand × Option Bytes
configured cmd c = (
  record cmd {
    wait_for_session = c.wait_for_session;
    send_service_descriptor = c.send_service_descriptor;
    exit_on_stdout_eof = c.exit_on_service_eof;
    exit_on_stdin_eof = c.exit_on_client_eof;
  },
  c.user,
)

abbrev pub settings : ParsedCommand → Config
settings cmd = record {
  wait_for_session = cmd.wait_for_session;
  user = none;
  send_service_descriptor = cmd.send_service_descriptor;
  exit_on_service_eof = cmd.exit_on_stdout_eof;
  exit_on_client_eof = cmd.exit_on_stdin_eof;
}

-- The configuration that was found, if any; `none` for a negative result.
unfoldable pub load_found :
    FileSystem → ParsedCommand → Found → Option (ParsedCommand × Option Bytes)
load_found fs cmd absent = some (cmd, none)
load_found fs cmd error = none
load_found fs cmd (found path m) =
    elim (qubes_toml_config_parse (fs.contents path) (settings cmd)) [
      | none ↦ none
      | some c ↦ some (configured cmd c)
    ]

unfoldable pub load_service_config_raw :
    FileSystem → Bytes → Bytes → Bytes → ParsedCommand → Option (ParsedCommand × Option Bytes)
load_service_config_raw fs config_path descriptor name cmd =
    load_found fs cmd (find_service fs false sockaddr_max config_path descriptor name)

-- A user of the configuration takes the place of the command's.
unfoldable pub with_config_user : Option (ParsedCommand × Option Bytes) → Option ParsedCommand
with_config_user none = none
with_config_user (some (cmd, none)) = some cmd
with_config_user (some (cmd, some user)) =
    if not cmd.send_service_descriptor
    then none
    else if cmd.exit_on_stdin_eof
    then none
    else if cmd.exit_on_stdout_eof
    then none
    else some (record cmd { username = some user })

unfoldable pub load_service_config_v2 :
    FileSystem → Bytes → Bytes → Bytes → ParsedCommand → Option ParsedCommand
load_service_config_v2 fs config_path descriptor name cmd =
    with_config_user (load_service_config_raw fs config_path descriptor name cmd)

-- The argument `none` is NULL.
unfoldable pub qrexec_cmd_use_fork_server : Option ParsedCommand → Bool
qrexec_cmd_use_fork_server none = false
qrexec_cmd_use_fork_server (some cmd) =
    not cmd.nogui
    && cmd.send_service_descriptor
    && not cmd.exit_on_stdin_eof
    && not cmd.exit_on_stdout_eof
