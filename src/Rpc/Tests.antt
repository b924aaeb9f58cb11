-- ===== src/Rpc/Tests.antt =====
-- The theorems on command lines and ports at concrete inputs.
mod Files
use qubes_core_qrexec.Prelude.{
  none, if◌then◌else◌, ◌&&◌, bytes_eq, ◌≡◌, refl, ◌↔◌, true, some, Bytes, codes,
}
use qubes_core_qrexec.Rpc.Command.{
  ParsedCommand, new_command, strip_user, strip_nogui, parse_descriptor, parse_service,
  parse_stripped, parse_qubes_rpc_command,
}
use qubes_core_qrexec.Rpc.Command.Parse.{IsServiceCall, parse-IsServiceCall}
use qubes_core_qrexec.Rpc.Find.{link, found}
use qubes_core_qrexec.Rpc.Service.{Network, with_arg, send_descriptor, connected, found_service}
use qubes_core_qrexec.Rpc.Service.Address.{dev_tcp, in_argument, found_service-Names}
use qubes_core_qrexec.Io.Memory.{empty_buffer, ok, then_do}
use qubes_core_qrexec.Rpc.Port.{validate_port}
use qubes_core_qrexec.Rpc.Port.Range.{IsPort, validate_port_iff}

abbrev line : Bytes
line = codes "user:QUBESRPC qubes.Open+x work"

abbrev parsed : ParsedCommand
parsed = record (new_command line (some (codes "user")) (codes "QUBESRPC qubes.Open+x work")) {
  service_name = some (codes "qubes.Open");
  service_descriptor = some (codes "qubes.Open+x");
  arg = some (codes "x");
  source_domain = some (codes "work");
}

parsed_run : parse_qubes_rpc_command line true ≡ some parsed
unfolding parse_qubes_rpc_command strip_user strip_nogui parse_stripped parse_service
    parse_descriptor
parsed_run = refl

parse-IsServiceCall_example : IsServiceCall parsed (codes "qubes.Open+x")
parse-IsServiceCall_example =
    parse-IsServiceCall line true parsed (codes "qubes.Open+x") parsed_run refl

validate_port_iff_example : (validate_port (codes "65535") ≡ true) ↔ IsPort (codes "65535")
validate_port_iff_example = validate_port_iff (codes "65535")

abbrev network : Network
network = record {
  unix_connect = λ path. none;
  tcp_connect = λ host port ipv6.
      if bytes_eq host (codes "::1") && bytes_eq port (codes "80") && ipv6 then some 6 else none;
  is_executable = λ path. true;
}

-- The service qubes.TCP with the argument "::1" and port 80.
abbrev tcp_command : ParsedCommand
tcp_command = record (new_command line none line) { arg = some (codes "++1+80") }

eighty-IsPort : IsPort (codes "80")
unfolding validate_port
eighty-IsPort = (validate_port_iff (codes "80")).0 refl

found_service-Names_example :
    found_service network tcp_command (found dev_tcp link) empty_buffer 0
    ≡ then_do (send_descriptor tcp_command empty_buffer 0) (λ b' total'.
      ok (connected (with_arg tcp_command (some (codes "::1"))) (some 6), b') total')
found_service-Names_example =
    found_service-Names network tcp_command (codes "::1") (codes "80") dev_tcp (some (codes "::1"))
      empty_buffer 0 eighty-IsPort (in_argument refl refl)
