-- ===== src/Results/Rows.antt =====
-- Tests on the rows that `command_result` reads, and the changes that it makes to them.
use zero_trust_continuous_au.Base.{
  String, Bool, true, false, ◌&&◌, ◌||◌, Option, none, some, [], ◌∷◌, ◌++◌, leb, str_eq,
  if◌then◌else◌,
}
use zero_trust_continuous_au.Base.Table.{update_rows}
use zero_trust_continuous_au.Json.Text.{is_empty, concat}
use zero_trust_continuous_au.Authorization.{Expiry, moment}
use zero_trust_continuous_au.Results.{
  CommandStatus, dispatched, executing, expired, succeeded, unknown, rejected, Command, Result,
  Incident, Evaluation, CommandTables,
}

-- `started > expires` fails for an expiry that is missing; one without a zone cannot be compared.
abbrev pub starts_in_time : Expiry → Expiry → Bool
starts_in_time (moment started) (moment expires) = leb started expires
starts_in_time a b = false

-- The second part of the name of the audit event.
abbrev pub event_end : CommandStatus → String
event_end executing = "_EXECUTING"
event_end succeeded = "_SUCCEEDED"
event_end unknown = "_UNKNOWN"
event_end rejected = "_REJECTED"
event_end s = "_FAILED"

abbrev pub event_name : String → CommandStatus → String
event_name action status =
    concat
      (if str_eq action "LOGOUT_USER" || str_eq action "LOGOFF_USER" then "LOGOUT" else "RESPONSE")
      (event_end status)

abbrev pub is_expired : CommandStatus → Bool
is_expired expired = true
is_expired s = false

abbrev pub is_executing : CommandStatus → Bool
is_executing executing = true
is_executing s = false

-- The statuses in which a result may arrive that is not a repetition.
abbrev pub is_awaited : CommandStatus → Bool
is_awaited dispatched = true
is_awaited executing = true
is_awaited expired = true
is_awaited s = false

-- The evidence is what is stored under this result id, if anything is.
abbrev pub is_evidence : String → Option Result → Bool
is_evidence evidence none = true
is_evidence evidence (some r) = str_eq r.evidence_json evidence

abbrev pub is_result_id : String → Option String → Bool
is_result_id id none = true
is_result_id id (some s) = is_empty s || str_eq s id

-- A row whose id this is.
abbrev pub for_command : String → (Command → Command) → Command → Command
for_command id f c = if str_eq c.command_id id then f c else c

abbrev pub for_incident : String → CommandStatus → String → Incident → Incident
for_incident alert_id status now i =
    if str_eq i.incident_id alert_id
    then record i { response_status = status; updated_at = now }
    else i

abbrev pub for_evaluation : String → String → CommandStatus → Evaluation → Evaluation
for_evaluation alert_id policy_id status e =
    if str_eq e.alert_id alert_id && str_eq e.policy_id policy_id
    then record e { status = status }
    else e

-- The updates that follow every accepted result.
unfoldable pub followed : Command → CommandStatus → String → CommandTables → CommandTables
followed c status now t = record t {
  incidents = update_rows (for_incident c.alert_id status now) t.incidents;
  evaluations = update_rows (for_evaluation c.alert_id c.policy_id status) t.evaluations;
  audits =
      t.audits
      ++ (record {
        event = event_name c.action_type status;
        action_type = c.action_type;
        agent_id = c.agent_id;
        status = status;
      }
          ∷ []);
}
