-- ===== src/Executor/Tests.antt =====
-- The executor at a Windows machine whose scripts print their markers.
use zero_trust_continuous_au.Base.Int.{pos}
use zero_trust_continuous_au.Base.{◌≡◌, refl, true, false, some, All}
use zero_trust_continuous_au.Json.{get}
use zero_trust_continuous_au.Json.Text.{any_char}
use zero_trust_continuous_au.Policy.{get_or_value, set_field}
use zero_trust_continuous_au.Executor.{done, kill_process, action_of}
use zero_trust_continuous_au.Executor.Sample.{machine, target, killed}
use zero_trust_continuous_au.Executor.Checks.{
  only_keys, validate_parameters, script_parameters, check_kill, is_process_name,
}
use zero_trust_continuous_au.Executor.Run.{
  execute_template, execute_action, run_script, start_script, ran, judge, arguments,
}
use zero_trust_continuous_au.Executor.Evident.{Evident, judge-Evident}
use zero_trust_continuous_au.Executor.Plain.{IsPlainHost}
use zero_trust_continuous_au.Executor.Safe.{Harmless, execute_template-AllHarmless}
use zero_trust_continuous_au.Executor.Proves.{markers_of, is_one_of, asked_of}
use zero_trust_continuous_au.Executor.Asked.{execute_template-Proved}

is_killed : (execute_template machine "KILL_PROCESS" target false).1 ≡ done killed
unfolding execute_template execute_action run_script start_script ran judge action_of only_keys
    validate_parameters script_parameters check_kill is_process_name get_or_value get set_field
    any_char arguments
is_killed = refl

known : action_of "KILL_PROCESS" ≡ some kill_process
unfolding action_of
known = refl

plain : IsPlainHost machine
unfolding any_char
plain = (refl, refl)

execute_template-AllHarmless_example :
    All (Harmless machine) (execute_template machine "KILL_PROCESS" target false).0
execute_template-AllHarmless_example =
    execute_template-AllHarmless machine plain "KILL_PROCESS" target false

execute_template-Proved_example :
    is_one_of
      (markers_of kill_process (asked_of machine kill_process "KILL_PROCESS" target))
      killed.verification
    ≡ true
execute_template-Proved_example =
    execute_template-Proved machine "KILL_PROCESS" kill_process target killed known is_killed refl

prints : (judge machine kill_process "" (pos 0) "PROCESS_NOT_ACTIVE" "").success ≡ true
unfolding judge
prints = refl

judge-Evident_example :
    Evident machine kill_process ""
      (pos 0)
      "PROCESS_NOT_ACTIVE"
      (judge machine kill_process "" (pos 0) "PROCESS_NOT_ACTIVE" "")
judge-Evident_example =
    judge-Evident machine kill_process "" (pos 0) "PROCESS_NOT_ACTIVE" "" refl prints
