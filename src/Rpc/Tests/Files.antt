-- ===== src/Rpc/Tests/Files.antt =====
-- The theorems on the search for files at concrete inputs.
use qubes_core_qrexec.Prelude.{
  read_digits, ◌≡◌, refl, true, none, some, arith, if◌then◌else◌, Bytes, codes, bytes_eq,
}
use qubes_core_qrexec.Rpc.Command.{ParsedCommand, new_command}
use qubes_core_qrexec.Config.File.{
  lines, chop, chop_newline, chop_blanks, read_key, read_entry, read_line, key_of, set, set_once,
  set_key, parse_entry, parse_lines, qubes_toml_config_parse,
}
use qubes_core_qrexec.Config.Value.{
  is_key_byte, at_end, strtoull, read_string, read_value, parse_toml_value,
}
use qubes_core_qrexec.Rpc.Find.{
  other, Stat, present, enoent, FileSystem, found, after_lstat, look_up, search_path, find_file,
  find_service, load_found, load_service_config_raw, with_config_user, load_service_config_v2,
}
use qubes_core_qrexec.Rpc.Find.Directories.{directories}
use qubes_core_qrexec.Rpc.Find.Precedence.{Precedes, find_service-Precedes}

-- One file.
abbrev at_path : Bytes → Stat
at_path path = if bytes_eq path (codes "/etc/qubes.Open") then present other else enoent

abbrev files : FileSystem
files = record {
  lstat = at_path;
  stat = at_path;
  readlink = λ path. none;
  contents = λ path. codes "force-user = 'root'";
}

abbrev path_list : Bytes
path_list = codes "/usr::/etc"

found_run :
    find_service files true 1024 path_list (codes "qubes.Open+x") (codes "qubes.Open")
    ≡ found (codes "/etc/qubes.Open") other
unfolding find_service find_file search_path look_up after_lstat
found_run = refl

find_service-Precedes_example :
    Precedes
      (look_up files true 1024 (codes "qubes.Open+x"))
      (look_up files true 1024 (codes "qubes.Open"))
      (directories path_list)
      (found (codes "/etc/qubes.Open") other)
find_service-Precedes_example =
    find_service-Precedes files true 1024 path_list (codes "qubes.Open+x") (codes "qubes.Open")
      (codes "/etc/qubes.Open") other (omega arith) (omega arith) found_run

abbrev command : ParsedCommand
command =
    new_command (codes "user:QUBESRPC qubes.Open+x work") (some (codes "user"))
      (codes "QUBESRPC qubes.Open+x work")

abbrev with_root : ParsedCommand
with_root = record command { username = some (codes "root") }

raw_run :
    load_service_config_raw files path_list (codes "qubes.Open+x") (codes "qubes.Open") command
    ≡ some (command, some (codes "root"))
unfolding load_service_config_raw load_found find_service find_file search_path look_up after_lstat
    qubes_toml_config_parse lines chop chop_newline chop_blanks read_key read_entry read_line key_of
    set set_once set_key parse_entry parse_lines read_digits strtoull read_string read_value
    parse_toml_value is_key_byte at_end
raw_run = refl

loaded_run :
    load_service_config_v2 files path_list (codes "qubes.Open+x") (codes "qubes.Open") command
    ≡ some with_root
unfolding load_service_config_v2 with_config_user
loaded_run = rw raw_run refl
