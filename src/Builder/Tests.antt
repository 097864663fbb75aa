-- ===== src/Builder/Tests.antt =====
-- A command that is built from a kill decision.
use zero_trust_continuous_au.Base.{◌≡◌, refl, some}
use zero_trust_continuous_au.Json.{str, null, field, end, get, truthy}
use zero_trust_continuous_au.Json.Text.{any_char}
use zero_trust_continuous_au.Policy.{get_or_value, set_field}
use zero_trust_continuous_au.Executor.{action_of}
use zero_trust_continuous_au.Executor.Checks.{
  only_keys, validate_parameters, script_parameters, check_kill, is_process_name,
}
use zero_trust_continuous_au.Executor.Run.{execute_template, execute_action, run_script}
use zero_trust_continuous_au.Executor.Sample.{machine}
use zero_trust_continuous_au.Receiver.Sample.{scripts}
use zero_trust_continuous_au.Builder.{
  EventFacts, Decision, BuiltCommand, params_for, is_vetted, build_command,
}
use zero_trust_continuous_au.Builder.Vetted.{Vetted, build_command-Vetted}

abbrev event : EventFacts
event = record {
  agent_id = "a1";
  timestamp = some 5;
  user_name = null;
  user_domain = null;
  session_id = null;
  pid = str "512";
  process_name = str "evil.exe";
  process_path = str "C:/evil.exe";
  process_created_at = str "2026-01-01T00:00:00Z";
  raw_event = field "timestamp" (str "2026-01-01T00:00:00Z") end;
}

abbrev decision : Decision
decision = record { policy_id = "p1"; policy_code = "POL"; action = "KILL_PROCESS" }

abbrev built : BuiltCommand
built = record {
  command_id = "c1";
  agent_id = "a1";
  policy_id = "p1";
  policy_code = "POL";
  alert_id = "i1";
  action_type = "KILL_PROCESS";
  params = field "ProcessName" (str "evil.exe") (
      field "ProcessId" (str "512") (
        field "ProcessPath" (str "C:/evil.exe")
          (field "ProcessCreatedAt" (str "2026-01-01T00:00:00Z") end)));
  executor = "WINDOWS_POWERSHELL";
  created_at = 10;
  expires_at = 300000010;
  execution_source = "MANAGER";
}

is_built :
    build_command machine scripts "10.0.0.1" decision event "c1" "i1" "MANAGER" 9 10 ≡ some built
unfolding build_command params_for is_vetted execute_template execute_action run_script action_of
    only_keys validate_parameters script_parameters check_kill is_process_name get_or_value get
    set_field any_char truthy
is_built = refl

build_command-Vetted_example : Vetted machine scripts "10.0.0.1" decision event 9 built
build_command-Vetted_example =
    build_command-Vetted machine scripts "10.0.0.1" decision event "c1" "i1" "MANAGER" 9 10 built
      is_built
