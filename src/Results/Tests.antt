-- ===== src/Results/Tests.antt =====
-- Results at a table with a kill that was dispatched and a lock-out that has ended.
use zero_trust_continuous_au.Receiver.Process.{process_command}
use zero_trust_continuous_au.Receiver.Sample.{endpoint, payload, named, succeeds}
use zero_trust_continuous_au.Results.Agrees.{kill, process_command-may_succeed}
use zero_trust_continuous_au.Results.{may_succeed}
use zero_trust_continuous_au.Results.Shown.{value_of}
use zero_trust_continuous_au.Base.{false, true, ◌≡◌}
use zero_trust_continuous_au.Base.{String, refl, true, some, none, List, [], ◌∷◌}
use zero_trust_continuous_au.Base.Table.{select}
use zero_trust_continuous_au.Json.{Value, str, Fields, field, end}
use zero_trust_continuous_au.Authorization.{moment}
use zero_trust_continuous_au.Results.{
  Command, CommandStatus, dispatched, failed, CommandTables, Encoding,
}
use zero_trust_continuous_au.Results.Receive.{Event, uploaded, ticked, handle_all}
use zero_trust_continuous_au.Results.Final.{Holds, handle_all-Holds}
use zero_trust_continuous_au.Results.Proved.{IsValid, handle_all-IsValid}

abbrev text_value : Value → String
text_value (str s) = s
text_value v = ""

abbrev encoding : Encoding
encoding = record {
  dumps = λ v. "{}";
  text_of = text_value;
  hash_of = λ fs. "h";
  parse_time = λ v. moment 5;
}

abbrev command_row : String → String → CommandStatus → Command
command_row id action status = record {
  command_id = id;
  agent_id = "a1";
  action_type = action;
  alert_id = "i1";
  policy_id = "p1";
  status = status;
  output = none;
  error_message = none;
  verification = none;
  expires_at = some "t9";
  executing_at = none;
  completed_at = none;
  result_id = none;
  verification_status = none;
  correlation_id = none;
}

abbrev tables : CommandTables
tables = record {
  commands =
      command_row "c1" "KILL_PROCESS" dispatched ∷ command_row "c2" "LOGOUT_USER" failed ∷ [];
  results = [];
  incidents = [];
  evaluations = [];
  audits = [];
}

abbrev killed : Fields
killed = field "command_id" (str "c1") (
    field "agent_id" (str "a1")
      (field "status" (str "SUCCESS") (field "verification" (str "PROCESS_NOT_ACTIVE") end)))

abbrev logged_out : Fields
logged_out = field "command_id" (str "c2") (
    field "agent_id" (str "a1")
      (field "status" (str "SUCCESS") (field "verification" (str "SESSION_NOT_ACTIVE") end)))

abbrev events : List Event
events = uploaded killed "t1" ∷ uploaded logged_out "t2" ∷ ticked (λ s. true) "t3" ∷ []

holds : Holds encoding "c2" (command_row "c2" "LOGOUT_USER" failed) refl tables
unfolding select
holds = refl

handle_all-Holds_example :
    Holds encoding "c2"
      (command_row "c2" "LOGOUT_USER" failed)
      refl
      (handle_all encoding events tables)
handle_all-Holds_example =
    handle_all-Holds encoding "c2" (command_row "c2" "LOGOUT_USER" failed) refl events tables holds

tables-IsValid : IsValid encoding tables
unfolding select
tables-IsValid = record {
  ids = (refl, (refl, tt));
  allowed_rows = ((λ claim. absurd (cc claim)), ((λ claim. absurd (cc claim)), tt));
}

handle_all-IsValid_example : IsValid encoding (handle_all encoding events tables)
handle_all-IsValid_example = handle_all-IsValid encoding events tables tables-IsValid

process_command-may_succeed_example :
    may_succeed "KILL_PROCESS" (value_of (process_command endpoint payload false).1.verification)
    ≡ true
process_command-may_succeed_example =
    process_command-may_succeed endpoint payload kill named succeeds
