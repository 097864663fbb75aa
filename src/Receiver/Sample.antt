-- ===== src/Receiver/Sample.antt =====
-- An endpoint with a validator that lets everything through, and a command for it.
use zero_trust_continuous_au.Base.{◌≡◌, refl, false}
use zero_trust_continuous_au.Json.{get, truthy}
use zero_trust_continuous_au.Json.Text.{any_char}
use zero_trust_continuous_au.Policy.{get_or_value, set_field}
use zero_trust_continuous_au.Executor.{action_of}
use zero_trust_continuous_au.Executor.Checks.{
  only_keys, validate_parameters, script_parameters, check_kill, is_process_name,
}
use zero_trust_continuous_au.Executor.Run.{
  execute_template, execute_action, run_script, start_script, ran, judge, arguments,
}
use zero_trust_continuous_au.Receiver.{success, template_report}
use zero_trust_continuous_au.Receiver.Process.{
  process_command, raw_action, validated_by, check_action, check_params, dispatch, final_params,
}
use zero_trust_continuous_au.Base.{Option, some, none, true}
use zero_trust_continuous_au.Base.Int.{pos}
use zero_trust_continuous_au.Json.{str, obj, Fields, field, end}
use zero_trust_continuous_au.Executor.Sample.{machine, target}
use zero_trust_continuous_au.Script.{Scripts, returned}
use zero_trust_continuous_au.Receiver.{Endpoint, Raised}

abbrev pub scripts : Scripts
scripts = record {
  text_of = λ v. "x";
  lower = λ s. s;
  int_of = λ v. some (pos 8080);
  handle = λ id correlation params. returned true (pos 0) "ok" "" "LOGGED";
}

abbrev pub raised : Raised
raised = record { name = "ValueError"; text = "bad" }

abbrev pub let_through : Fields → Option Raised
let_through payload = none

abbrev pub endpoint : Endpoint
endpoint = record {
  machine = machine;
  scripts = scripts;
  agent_id = "a1";
  manager_address = none;
  validator = some let_through;
  message = λ o. "bad";
  lookup_error = raised;
  script_error = raised;
  type_error_of = raised;
  number_text = λ i. "1";
  fresh = "f1";
  drawn = "f2";
  now = "t0";
  then_now = "t1";
}

abbrev pub payload : Fields
payload =
    field "command_id" (str "c1")
      (field "action_type" (str "KILL_PROCESS") (field "params" (obj target) end))

pub named : raw_action endpoint payload ≡ str "KILL_PROCESS"
unfolding raw_action get get_or_value truthy
named = refl

pub succeeds : (process_command endpoint payload false).1.status ≡ success
unfolding process_command raw_action validated_by check_action check_params dispatch final_params
    template_report execute_template execute_action run_script start_script ran judge action_of
    only_keys validate_parameters script_parameters check_kill is_process_name get_or_value get
    set_field any_char arguments truthy
succeeds = refl
