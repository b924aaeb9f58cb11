-- ===== src/Daemon/Tests/Replies.antt =====
-- The theorems on names, policy replies and command lines at concrete inputs.
use qubes_core_qrexec.Prelude.{
  ◌≡◌, refl, ◌↔◌, true, some, [], ◌∷◌, ◌++◌, arith, replicate, Bytes, codes,
}
use qubes_core_qrexec.Daemon.State.{allow, deny}
use qubes_core_qrexec.Daemon.Sanitize.{
  is_allowed, sanitize_name, validate_request_id, validate_service_name,
}
use qubes_core_qrexec.Daemon.Sanitize.RequestId.{IsRequestId, validate_request_id_iff}
use qubes_core_qrexec.Daemon.Policy.{
  Reply, no_reply, split_lines, key_of, read_line, read_lines, conclude, parse_policy_response,
}
use qubes_core_qrexec.Daemon.Policy.RoundTrip.{allow_text, parse_policy_response-allow_text}
use qubes_core_qrexec.Daemon.Execute.{policy_request, send_request, vm_command}
use qubes_core_qrexec.Daemon.Execute.Request.{policy_request-lines, SentOf, send_request_lem}
use qubes_core_qrexec.Daemon.Execute.Command.{called, parse-vm_command}
use qubes_core_qrexec.Rpc.Command.{parse_qubes_rpc_command}

validated : validate_service_name (codes "qubes.Get/Date") ≡ some (codes "qubes.Get_Date")
unfolding validate_service_name sanitize_name is_allowed
validated = refl

validate_request_id_iff_example :
    (validate_request_id (codes "SOCKET12" ++ replicate 24 0) ≡ true)
    ↔ IsRequestId (codes "SOCKET12" ++ replicate 24 0)
validate_request_id_iff_example = validate_request_id_iff (codes "SOCKET12" ++ replicate 24 0)

abbrev denied : Bytes
denied = codes "result=deny\n"

abbrev denial : Reply
denial = record no_reply { result = some deny }

denied_run : parse_policy_response denied ≡ (deny, denial)
unfolding parse_policy_response conclude read_lines read_line key_of split_lines
denied_run = refl

abbrev allowed : Bytes
allowed = codes "user=u\nresult=allow\ntarget=t\nautostart=True\nrequested_target=r"

abbrev permission : Reply
permission = record {
  result = some allow;
  user = some (codes "u");
  target = some (codes "t");
  requested_target = some (codes "r");
  autostart = some true;
}

allowed_run : parse_policy_response allowed ≡ (allow, permission)
unfolding parse_policy_response conclude read_lines read_line key_of split_lines
allowed_run = refl

parse_policy_response-allow_text_example :
    parse_policy_response (allow_text (codes "u") (codes "t") true (codes "r"))
    ≡ (allow, permission)
parse_policy_response-allow_text_example =
    parse_policy_response-allow_text (codes "u") (codes "t") (codes "r") true (refl, refl)
      (refl, refl) (refl, refl)

policy_request-lines_example :
    split_lines (
      policy_request
        (codes "work")
        (sanitize_name (codes "@:") (codes "a\nb"))
        (sanitize_name (codes "+") (codes "s")))
    ≡ (codes "source=" ++ codes "work")
      ∷ (codes "intended_target=" ++ sanitize_name (codes "@:") (codes "a\nb"))
      ∷ (codes "service_and_arg=" ++ sanitize_name (codes "+") (codes "s"))
      ∷ []
      ∷ []
      ∷ []
policy_request-lines_example = policy_request-lines (codes "work") (codes "a\nb") (codes "s") refl

send_request_lem_example :
    SentOf (codes "source=a") (send_request (some 3 ∷ some 5 ∷ []) [] (codes "source=a"))
send_request_lem_example = send_request_lem (some 3 ∷ some 5 ∷ []) (codes "source=a")

parse-vm_command_example :
    parse_qubes_rpc_command (vm_command (codes "user") (codes "qubes.Open+x") (codes "work")) true
    ≡ some (
        called
          (vm_command (codes "user") (codes "qubes.Open+x") (codes "work"))
          (codes "user")
          (codes "qubes.Open+x")
          (codes "work"))
parse-vm_command_example =
    parse-vm_command (codes "user") (codes "qubes.Open+x") (codes "work") refl refl refl (λ e. cc e)
      (omega arith) (omega arith) (omega arith)
