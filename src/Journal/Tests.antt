-- ===== src/Journal/Tests.antt =====
-- A journal at two receipts of one command with a crash between them, and a command that is taken on.
use zero_trust_continuous_au.Base.{String, ◌≡◌, refl, some, none, List, [], ◌∷◌}
use zero_trust_continuous_au.Base.Table.{select, update_rows}
use zero_trust_continuous_au.Json.{
  Value, null, str, Fields, field, end, get, value_eq, scalar_eq, truthy,
}
use zero_trust_continuous_au.Policy.{get_or_value}
use zero_trust_continuous_au.Authorization.{
  Crypto, moment, body_of, check_expiry, expiry_of, has_agent, verify,
}
use zero_trust_continuous_au.Receiver.Sample.{endpoint}
use zero_trust_continuous_au.Journal.{
  Codec, StoredReport, finished_before, claim_command, claim_after, recover_interrupted_commands,
  recover_entry, interrupted_report, new_entry,
}
use zero_trust_continuous_au.Journal.Keeps.{Answered, run_answers}
use zero_trust_continuous_au.Journal.Once.{run-NoRepeat}
use zero_trust_continuous_au.Journal.Sound.{NoRepeat}
use zero_trust_continuous_au.Journal.Steps.{
  Step, receive, start, process, crash, restart, step, run, received, no_commands,
}
use zero_trust_continuous_au.Journal.Validate.{
  validate_command, check_command, Taken, validate_command-Taken,
}

abbrev codec : Codec
codec = record {
  text_of = λ v. "x";
  dumps = λ v. "{}";
  dumps_text = λ o. "null";
  hash_of = λ r agent. "h";
  unknown_hash = λ id. id;
}

abbrev command : Fields
command = field "command_id" (str "c1") (
    field "status" (str "DISPATCHED") (
      field "action_type" (str "KILL_PROCESS") (
        field "agent_id" (str "a1")
          (field "expires_at" (str "2026-01-01T00:00:00Z") (field "signature" (str "key") end)))))

abbrev interrupted : List Step
interrupted = receive "c1" "KILL_PROCESS" "t0" command ∷ restart "t1" ∷ []

abbrev answer : StoredReport
answer = interrupted_report codec "a1" "t1" (new_entry codec "c1" "KILL_PROCESS" "t0" command)

answered : Answered codec "a1" "c1" answer (run codec "a1" interrupted no_commands).journal
unfolding run step received claim_command claim_after recover_interrupted_commands recover_entry
    select update_rows
answered = (_, refl, refl)

run-NoRepeat_example :
    NoRepeat
      (run codec "a1"
        (receive "c1" "KILL_PROCESS" "t0" command
          ∷ start "c1" "t1"
          ∷ process "c1" endpoint
          ∷ crash
          ∷ interrupted)
        no_commands).executed
run-NoRepeat_example = run-NoRepeat codec "a1" (
    receive "c1" "KILL_PROCESS" "t0" command
    ∷ start "c1" "t1"
    ∷ process "c1" endpoint
    ∷ crash
    ∷ interrupted)

run_answers_example :
    claim_command codec "c1" "KILL_PROCESS" "t9" command
      (run codec "a1" [] (run codec "a1" interrupted no_commands)).journal
    ≡ (
      (run codec "a1" [] (run codec "a1" interrupted no_commands)).journal,
      some (finished_before answer),
    )
run_answers_example =
    run_answers codec "a1" "c1" answer interrupted [] "KILL_PROCESS" "t9" command answered

abbrev text_value : Value → String
text_value (str s) = s
text_value v = ""

text_value_str : (s : String) → text_value (str s) ≡ s
text_value_str s = refl

abbrev crypto : Crypto
crypto = record {
  mac = λ secret _. secret;
  text_of = text_value;
  text_of_str = text_value_str;
  parse_time = λ _. moment 100;
}

is_taken : validate_command crypto "key" "a1" 50 null command ≡ none
unfolding validate_command check_command verify body_of get_or_value get has_agent value_eq
    scalar_eq expiry_of check_expiry truthy
is_taken = refl

validate_command-Taken_example : Taken crypto "key" "a1" 50 null command
validate_command-Taken_example = validate_command-Taken crypto "key" "a1" 50 null command is_taken
