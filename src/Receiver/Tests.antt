-- ===== src/Receiver/Tests.antt =====
-- The receiver with a validator that lets everything through.
use zero_trust_continuous_au.Base.{◌≡◌, ◌≢◌, refl, false, Option, some, none, []}
use zero_trust_continuous_au.Json.{Fields, get, truthy}
use zero_trust_continuous_au.Json.Text.{any_char}
use zero_trust_continuous_au.Policy.{get_or_value, set_field}
use zero_trust_continuous_au.Executor.{action_of}
use zero_trust_continuous_au.Executor.Checks.{
  only_keys, validate_parameters, script_parameters, check_kill, is_process_name,
}
use zero_trust_continuous_au.Executor.Run.{
  execute_template, execute_action, run_script, start_script, ran, judge, arguments,
}
use zero_trust_continuous_au.Receiver.{Raised, template_report}
use zero_trust_continuous_au.Receiver.Process.{
  process_command, raw_action, validated_by, check_action, check_params, dispatch, final_params,
}
use zero_trust_continuous_au.Receiver.Sample.{endpoint, payload, named, succeeds}
use zero_trust_continuous_au.Receiver.Refuses.{process_command_authorized}
use zero_trust_continuous_au.Receiver.Succeeds.{Shown, params_in, process_command-Shown}

acts : (process_command endpoint payload false).0 ≢ []
unfolding process_command raw_action validated_by check_action check_params dispatch final_params
    template_report execute_template execute_action run_script start_script ran judge action_of
    only_keys validate_parameters script_parameters check_kill is_process_name get_or_value get
    set_field any_char arguments truthy
acts empty = cc empty

process_command_authorized_example :
    (validate : Fields → Option Raised) × (endpoint.validator ≡ some validate)
    × (validate payload ≡ none)
process_command_authorized_example = process_command_authorized endpoint payload acts

process_command-Shown_example :
    Shown endpoint "KILL_PROCESS"
      (params_in endpoint payload)
      (process_command endpoint payload false).1.verification
process_command-Shown_example =
    process_command-Shown endpoint payload "KILL_PROCESS" named refl succeeds
