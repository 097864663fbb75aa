-- ===== src/Journal.antt =====
-- The journal of commands on an agent: `execute_command` and `upload_results` of agent/agent_daemon.py, and
-- `recover_interrupted_commands` of agent/storage/offline_queue.py. The table is keyed by the command id.
pub mod Validate
pub mod Steps
pub mod Sound
pub mod Once
pub mod Keeps
mod Tests
use zero_trust_continuous_au.Base.{
  ℕ, String, ◌≡◌, Bool, true, false, not, ◌&&◌, ◌||◌, Option, none, some, List, [], ◌∷◌, ◌++◌,
  str_eq, if◌then◌else◌, is_some,
}
use zero_trust_continuous_au.Base.Table.{select, update_rows}
use zero_trust_continuous_au.Json.{Value, null, str, obj, Fields, end, get, truthy}
use zero_trust_continuous_au.Json.Text.{is_empty, concat}
use zero_trust_continuous_au.Policy.{get_or_value}
use zero_trust_continuous_au.Authorization.{body_of}
use zero_trust_continuous_au.Script.{or_value}
use zero_trust_continuous_au.Receiver.{Status, success, failed, unknown, rejected, preview, Report}
use zero_trust_continuous_au.Receiver.Succeeds.{params_of}

-- A report as it is stored and uploaded.
pub record StoredReport : Type 0 where
  pub report : Report
  pub agent_id : String
  pub result_id : String

-- A row of `command_journal`.
pub record Entry : Type 0 where
  pub command_id : String
  pub correlation_id : String
  pub action : String
  pub payload : Fields
  pub target_identity : String
  pub timestamp : String
  pub received_at : String
  pub state : String
  pub validated_at : Option String
  pub execution_started_at : Option String
  pub execution_finished_at : Option String
  pub result : Option String
  pub result_status : Option String
  pub verification : Option String
  pub verification_status : Option String
  pub failure_reason : Option String
  pub error_code : Option String
  pub error_message : Option String
  pub report : Option StoredReport
  pub reported : Bool
  pub result_uploaded_at : Option String

-- `str`, `json.dumps`, and the ids that are hashes of a report or of a command id.
pub record Codec : Type 0 where
  pub text_of : Value → String
  pub dumps : Value → String
  pub dumps_text : Option String → String
  pub hash_of : Report → String → String
  pub unknown_hash : String → String

abbrev pub status_text : Status → String
status_text success = "SUCCESS"
status_text failed = "FAILED"
status_text unknown = "UNKNOWN"
status_text rejected = "REJECTED"
status_text preview = "PREVIEW"

abbrev pub entry_key : Entry → String
entry_key e = e.command_id

abbrev pub text_or_blank : Option String → String
text_or_blank none = String.[]
text_or_blank (some s) = s

-- The answer to a command that was received before.
pub data Earlier : Type 0 where
  finished_before : StoredReport → Earlier
  in_progress : Report → Earlier

module _ (codec : Codec) where
  abbrev pub correlation_text : Fields → String
  correlation_text command = codec.text_of (
      or_value (get "correlation_id" command) (
        or_value (get "correlation_id" (params_of (get_or_value "params" (obj end) command)))
          (str "")))

  -- The INSERT of a new claim.
  abbrev pub new_entry : String → String → String → Fields → Entry
  new_entry id action now command = record {
    command_id = id;
    correlation_id = correlation_text command;
    action = action;
    payload = body_of command;
    target_identity = codec.dumps (or_value (get "params" command) (obj end));
    timestamp = now;
    received_at = now;
    state = "RECEIVED";
    validated_at = none;
    execution_started_at = none;
    execution_finished_at = none;
    result = none;
    result_status = none;
    verification = none;
    verification_status = none;
    failure_reason = none;
    error_code = none;
    error_message = none;
    report = none;
    reported = false;
    result_uploaded_at = none;
  }

  abbrev pub busy_report : String → Entry → Report
  busy_report action e = record {
    command_id = e.command_id;
    action_type = action;
    status = unknown;
    output = String.[];
    error = some "Command already has an unfinished execution claim";
    executed_at = text_or_blank e.execution_started_at;
    verification = some "UNKNOWN";
    correlation_id = e.correlation_id;
    failure_reason = none;
    dry_run = false;
    completed_at = String.[];
    verification_status = "UNKNOWN";
    error_code = some "EXECUTION_IN_PROGRESS";
  }

  abbrev pub earlier_of : String → Entry → Option StoredReport → Earlier
  earlier_of action e none = in_progress (busy_report action e)
  earlier_of action e (some r) = finished_before r

  -- The first transaction: a row that is there answers, or else the command is claimed.
  unfoldable pub claim_after :
      String → String → String → Fields → List Entry → Option Entry → List Entry × Option Earlier
  claim_after id action now command journal (some e) =
      (journal, some (earlier_of action e e.report))
  claim_after id action now command journal none =
      (journal ++ (new_entry id action now command ∷ []), none)

  unfoldable pub claim_command :
      String → String → String → Fields → List Entry → List Entry × Option Earlier
  unfolding claim_after
  claim_command id action now command journal =
      claim_after id action now command journal (select entry_key id journal)

  -- The second transaction.
  abbrev pub start_entry : String → String → Entry → Entry
  start_entry id now e =
      if str_eq e.command_id id
      then record e {
        state = "EXECUTING";
        validated_at = some now;
        execution_started_at = some now;
      }
      else e

  abbrev pub or_error : Option String → Option String → Option String
  or_error none error = error
  or_error (some s) error = if is_empty s then error else some s

  -- What the third transaction stores; `now` is the clock where the report has no time of completion.
  abbrev pub stored_of : String → String → Report → StoredReport
  stored_of agent_id now r =
      let completed = if is_empty r.completed_at then now else r.completed_at in
      let full = record r { completed_at = completed } in
      record {
        report = full;
        agent_id = agent_id;
        result_id = concat "result-" (codec.hash_of full agent_id);
      }

  abbrev pub finish_entry : String → StoredReport → Entry → Entry
  finish_entry id s e =
      if str_eq e.command_id id
      then record e {
        state = status_text s.report.status;
        result = some (status_text s.report.status);
        result_status = some (status_text s.report.status);
        verification = some (codec.dumps_text s.report.verification);
        verification_status = some s.report.verification_status;
        failure_reason = or_error s.report.failure_reason s.report.error;
        error_code = s.report.error_code;
        error_message = s.report.error;
        execution_finished_at = some s.report.completed_at;
        timestamp = s.report.completed_at;
        report = some s;
      }
      else e

  -- `recover_interrupted_commands`: a claim without a report becomes a report that the outcome is unknown.
  abbrev pub is_interrupted : Entry → Bool
  is_interrupted e =
      not (is_some e.report)
      && (str_eq e.state "RECEIVED"
          || str_eq e.state "VALIDATED"
          || str_eq e.state "EXECUTING"
          || str_eq e.state "VERIFYING")

  abbrev pub interrupted_error : String
  interrupted_error = "Agent restarted with an unfinished execution claim; action was not repeated"

  abbrev pub interrupted_report : String → String → Entry → StoredReport
  interrupted_report agent_id now e = record {
    report = record {
      command_id = e.command_id;
      action_type = e.action;
      status = unknown;
      output = String.[];
      error = some interrupted_error;
      executed_at = text_or_blank e.execution_started_at;
      verification = some "UNKNOWN";
      correlation_id = e.correlation_id;
      failure_reason = some "INTERRUPTED_UNKNOWN";
      dry_run = false;
      completed_at = now;
      verification_status = "UNKNOWN";
      error_code = some "INTERRUPTED_UNKNOWN";
    };
    agent_id = agent_id;
    result_id = concat "result-" (codec.unknown_hash e.command_id);
  }

  unfoldable pub recover_entry : String → String → Entry → Entry
  recover_entry agent_id now e =
      if is_interrupted e
      then record e {
        state = "UNKNOWN";
        result = some "UNKNOWN";
        result_status = some "UNKNOWN";
        verification = some (codec.dumps (str "UNKNOWN"));
        verification_status = some "UNKNOWN";
        failure_reason = some "INTERRUPTED_UNKNOWN";
        error_code = some "INTERRUPTED_UNKNOWN";
        error_message = some interrupted_error;
        execution_finished_at = some now;
        timestamp = now;
        report = some (interrupted_report agent_id now e);
      }
      else e

  unfoldable pub recover_interrupted_commands : String → String → List Entry → List Entry
  unfolding recover_entry
  recover_interrupted_commands agent_id now journal =
      update_rows (recover_entry agent_id now) journal

  -- `upload_results`: `accepts` says for which reports the manager answers 200.
  abbrev pub is_offline_payload : Fields → Bool
  is_offline_payload payload = elim (get "execution_source" payload) [
    | some (str s) ↦ str_eq s "AGENT_OFFLINE"
    | _ ↦ false
  ]

  abbrev pub is_accepted : (StoredReport → Bool) → Option StoredReport → Bool
  is_accepted accepts none = false
  is_accepted accepts (some s) = accepts s

  unfoldable pub upload_entry : (StoredReport → Bool) → String → Entry → Entry
  upload_entry accepts now e =
      if not e.reported && not (is_offline_payload e.payload) && is_accepted accepts e.report
      then record e { reported = true; result_uploaded_at = some now }
      else e

  unfoldable pub upload_results : (StoredReport → Bool) → String → List Entry → List Entry
  unfolding upload_entry
  upload_results accepts now journal = update_rows (upload_entry accepts now) journal
