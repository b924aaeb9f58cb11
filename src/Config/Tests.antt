-- ===== src/Config/Tests.antt =====
-- The theorems on service configurations at concrete inputs.
use qubes_core_qrexec.Prelude.{
  read_digits, ◌≡◌, refl, ◌≢◌, true, false, none, some, [], ◌∷◌, ◌++◌, arith, All, Bytes, codes,
}
use qubes_core_qrexec.Config.Value.{
  is_key_byte, integer, string, strtoull, at_end, read_string, read_value, parse_toml_value,
}
use qubes_core_qrexec.Config.Value.Print.{value_text, parse_toml_value-text}
use qubes_core_qrexec.Config.File.{
  Config, lines, chop, chop_newline, chop_blanks, read_key, read_entry, read_line, force_user,
  exit_on_client_eof, key_of, set, set_once, set_key, parse_entry, parse_lines,
  qubes_toml_config_parse,
}
use qubes_core_qrexec.Config.File.Keys.{Gives, current, meaning, line_key}
use qubes_core_qrexec.Config.File.Once.{qubes_toml_config_parse-given}

comment_tail : at_end (codes " # answer") ≡ true
unfolding at_end
comment_tail = refl

parse_toml_value-text_example :
    parse_toml_value (value_text (integer 42) (codes " # answer")) ≡ some (integer 42)
parse_toml_value-text_example =
    parse_toml_value-text (integer 42) (codes " # answer") (omega arith) comment_tail

abbrev before : Config
before = record {
  wait_for_session = true;
  user = none;
  send_service_descriptor = true;
  exit_on_service_eof = true;
  exit_on_client_eof = false;
}

abbrev user_line : Bytes
user_line = codes "force-user = 'root'\n"

abbrev file : Bytes
file = codes "# settings\n" ++ (user_line ++ codes "skip-service-descriptor=true\n")

abbrev after : Config
after = record before {
  wait_for_session = false;
  user = some (codes "root");
  send_service_descriptor = false;
}

parsed_file : qubes_toml_config_parse file before ≡ some after
unfolding qubes_toml_config_parse parse_lines parse_entry set_key set_once set key_of read_line
    read_entry read_key chop_blanks chop_newline chop lines parse_toml_value read_value read_string
    strtoull read_digits at_end is_key_byte
parsed_file = refl

lines-file :
    lines file
    ≡ (codes "# settings\n" ∷ []) ++ (user_line ∷ codes "skip-service-descriptor=true\n" ∷ [])
unfolding lines
lines-file = refl

user-Gives : Gives user_line force_user (string (codes "root"))
unfolding key_of read_line read_entry read_key chop_blanks chop_newline chop parse_toml_value
    read_value read_string at_end is_key_byte
user-Gives = record {
  key = codes "force-user";
  text = codes "'root'";
  is_entry = refl;
  is_key = refl;
  is_value = refl;
}

qubes_toml_config_parse-given_example :
    (current force_user after ≡ meaning force_user (string (codes "root")))
    × All (λ l. line_key (read_line l) ≢ some force_user) (codes "# settings\n" ∷ [])
    × All
        (λ l. line_key (read_line l) ≢ some force_user)
        (codes "skip-service-descriptor=true\n" ∷ [])
qubes_toml_config_parse-given_example =
    qubes_toml_config_parse-given file before after (codes "# settings\n" ∷ [])
      (codes "skip-service-descriptor=true\n" ∷ []) user_line force_user (string (codes "root"))
      parsed_file lines-file user-Gives

unnamed_key : All (λ l. line_key (read_line l) ≢ some exit_on_client_eof) (lines file)
unfolding key_of read_line read_entry read_key chop_blanks chop_newline chop lines is_key_byte
unnamed_key = ((λ e. cc e), ((λ e. cc e), ((λ e. cc e), tt)))
