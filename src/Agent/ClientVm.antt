-- ===== src/Agent/ClientVm.antt =====
-- agent/qrexec-client-vm.c: the request of a client to the agent, and what the agent makes of it.
pub mod Forwards
use qubes_core_qrexec.Prelude.{
  ◌+◌, ◌-◌, [], ◌∷◌, ◌++◌, ◌==◌, if◌then◌else◌, length, take, replicate, Bytes,
}
use qubes_core_qrexec.Protocol.{msg_trigger_service3, header_bytes, sizeof_trigger_params3}
use qubes_core_qrexec.Agent.Ident.{socket_word}

-- '@' in the place of each '$'.
abbrev pub convert_target_name_keyword : Bytes → Bytes
convert_target_name_keyword [] = []
convert_target_name_keyword (c ∷ s) =
    (if c == b'$' then b'@' else c) ∷ convert_target_name_keyword s

-- `strncpy` into 64 bytes that were set to NUL.
abbrev pub target_field : Bytes → Bytes
target_field target = take 63 target ++ replicate (64 - length (take 63 target)) 0

abbrev pub ident_start : Bytes
ident_start = socket_word ++ replicate 26 0

abbrev pub trigger_params : Bytes → Bytes
trigger_params target = target_field (convert_target_name_keyword target) ++ ident_start

-- What goes to the agent for a target and a service: the name goes with its NUL.
unfoldable pub trigger_request : Bytes → Bytes → Bytes
trigger_request target service_name =
    header_bytes (record {
      type = msg_trigger_service3;
      len = sizeof_trigger_params3 + (length service_name + 1);
    })
    ++ (trigger_params target ++ (service_name ++ (0 ∷ [])))
