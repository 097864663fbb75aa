-- ===== src/Receiver.antt =====
-- agent/commands/command_receiver.py: the reports that the agent's receiver of commands gives. The texts of exceptions
-- and the clock are parts of `Endpoint`; Receiver/Process.antt has the method itself.
pub mod Process
pub mod Refuses
pub mod Succeeds
pub mod Sample
mod Tests
use zero_trust_continuous_au.Base.{
  ℕ, String, ◌≡◌, Bool, true, false, not, ◌&&◌, ◌||◌, Option, none, some, List, [], ◌∷◌, map,
  str_eq, if◌then◌else◌,
}
use zero_trust_continuous_au.Base.Int.{ℤ, pos, eqb_ℤ}
use zero_trust_continuous_au.Json.{Value, null, str, obj, Fields, end, get, truthy}
use zero_trust_continuous_au.Json.Text.{is_empty, concat}
use zero_trust_continuous_au.Policy.{get_or_value, set_field}
use zero_trust_continuous_au.Executor.{
  System, PsResult, Ending, done, unknown_template, invalid_parameter, execution_timeout,
  unresolved, Effect,
}
use zero_trust_continuous_au.Executor.Run.{execute_template}
use zero_trust_continuous_au.Script.{
  Scripts, Validity, sound, refused, type_error, ScriptStatus, script_success, script_failed,
  script_rejected, ScriptResult, or_value, requested_id, validate_script_request, execute_script,
  HandlerCall,
}

pub data Status : Type 0 where
  success failed unknown rejected preview : Status

-- `CommandExecutionReport`
pub record Report : Type 0 where
  pub command_id : String
  pub action_type : String
  pub status : Status
  pub output : String
  pub error : Option String
  pub executed_at : String
  pub verification : Option String
  pub correlation_id : String
  pub failure_reason : Option String
  pub dry_run : Bool
  pub completed_at : String
  pub verification_status : String
  pub error_code : Option String

-- An exception: the name of its type, and its text.
pub record Raised : Type 0 where
  pub name : String
  pub text : String

-- What was done on the endpoint.
pub data Deed : Type 0 where
  told : Effect → Deed
  script : HandlerCall → Deed

pub record Endpoint : Type 0 where
  pub machine : System
  pub scripts : Scripts
  pub agent_id : String
  pub manager_address : Option String
  -- `command_validator`; it returns nothing, or raises.
  pub validator : Option (Fields → Option Raised)
  -- `str` of the exception of an outcome, and the exceptions of the session search and of the script validator.
  pub message : Ending → String
  pub lookup_error : Raised
  pub script_error : Raised
  pub type_error_of : Raised
  pub number_text : ℤ → String
  pub fresh : String
  pub drawn : String
  pub now : String
  pub then_now : String

abbrev pub is_unverified : Option String → Bool
is_unverified none = false
is_unverified (some v) = str_eq v "EXECUTION_COMPLETED_UNVERIFIED" || str_eq v "UNKNOWN"

abbrev pub or_none_text : Option String → String
or_none_text none = "None"
or_none_text (some s) = s

abbrev pub or_option : Option String → Option String → Option String
or_option none o = o
or_option (some s) o = if is_empty s then o else some s

-- `action_map`
abbrev pub mapped_action : String → String
mapped_action raw =
    if str_eq raw "ISOLATE_ENDPOINT"
      || str_eq raw "DISABLE_NETWORK"
      || str_eq raw "UNISOLATE_ENDPOINT"
    then "NETWORK_ISOLATION"
    else raw

module _ (endpoint : Endpoint) where
  -- The last `except` clause.
  abbrev pub unexpected : Fields → String → Raised → Report
  unexpected payload action_type err = record {
    command_id = endpoint.machine.text_of (get_or_value "command_id" (str "cmd-unknown") payload);
    action_type = action_type;
    status = failed;
    output = String.[];
    error = some (concat "Unexpected Execution Error: " err.text);
    executed_at = endpoint.now;
    verification = none;
    correlation_id = String.[];
    failure_reason = some err.text;
    dry_run = false;
    completed_at = endpoint.then_now;
    verification_status = "EXECUTION_FAILED";
    error_code = some err.name;
  }

  abbrev pub command_error : String → Raised
  command_error text = record { name = "CommandValidationError"; text = text }

  abbrev pub rejection : String → String → String → Report
  rejection command_id action_type text = record {
    command_id = command_id;
    action_type = action_type;
    status = rejected;
    output = String.[];
    error = some (concat "Command Validation Error: " text);
    executed_at = endpoint.now;
    verification = none;
    correlation_id = String.[];
    failure_reason = some text;
    dry_run = false;
    completed_at = endpoint.now;
    verification_status = "REJECTED";
    error_code = some "VALIDATION_ERROR";
  }

  abbrev pub timeout_report : Fields → String → String → Report
  timeout_report payload action_type text = record {
    command_id = endpoint.machine.text_of (get_or_value "command_id" (str "cmd-unknown") payload);
    action_type = action_type;
    status = unknown;
    output = String.[];
    error = some text;
    executed_at = endpoint.now;
    verification = some "UNKNOWN";
    correlation_id = String.[];
    failure_reason = some text;
    dry_run = false;
    completed_at = endpoint.then_now;
    verification_status = "UNKNOWN";
    error_code = some "EXECUTION_TIMEOUT";
  }

  abbrev pub ps_report : String → String → String → Bool → PsResult → Report
  ps_report command_id action_type correlation_id dry_run r = record {
    command_id = command_id;
    action_type = action_type;
    status =
        if r.success
        then (if dry_run then preview else success)
        else if is_unverified r.verification
        then unknown
        else failed;
    output = if r.success then r.output else concat "Execution failed: " (or_none_text r.error);
    error = r.error;
    executed_at = if dry_run then String.[] else endpoint.now;
    verification = r.verification;
    correlation_id = correlation_id;
    failure_reason = r.error;
    dry_run = dry_run;
    completed_at = if dry_run then String.[] else endpoint.then_now;
    verification_status =
        if dry_run
        then "NOT_EXECUTED"
        else if r.success
        then "VERIFIED_SUCCESS"
        else if is_unverified r.verification
        then "UNKNOWN"
        else "VERIFICATION_FAILED";
    error_code =
        or_option r.error_code
          (if eqb_ℤ r.exit_code (pos 0) then none else some (endpoint.number_text r.exit_code));
  }

  -- The report of what the PowerShell executor did.
  unfoldable pub template_report : Fields → String → String → String → Bool → Ending → Report
  template_report payload command_id action_type correlation_id dry_run (done r) =
      ps_report command_id action_type correlation_id dry_run r
  template_report payload command_id action_type correlation_id dry_run unknown_template =
      rejection command_id action_type (endpoint.message unknown_template)
  template_report payload command_id action_type correlation_id dry_run invalid_parameter =
      rejection command_id action_type (endpoint.message invalid_parameter)
  template_report payload command_id action_type correlation_id dry_run execution_timeout =
      timeout_report payload action_type (endpoint.message execution_timeout)
  template_report payload command_id action_type correlation_id dry_run unresolved =
      unexpected payload action_type endpoint.lookup_error

  abbrev pub script_status : ScriptStatus → Status
  script_status script_success = success
  script_status script_failed = failed
  script_status script_rejected = rejected

  abbrev pub script_verdict : ScriptStatus → String
  script_verdict script_success = "VERIFIED_SUCCESS"
  script_verdict s = "EXECUTION_FAILED"

  unfoldable pub script_report : Fields → String → Option ScriptResult → Report
  script_report payload command_id none = unexpected payload "DEMO_SCRIPT" endpoint.type_error_of
  script_report payload command_id (some r) = record {
    command_id = command_id;
    action_type = "DEMO_SCRIPT";
    status = script_status r.status;
    output = if is_empty r.stdout_summary then r.stderr_summary else r.stdout_summary;
    error = r.error;
    executed_at = r.started_at;
    verification = r.verification;
    correlation_id = r.correlation_id;
    failure_reason = r.error;
    dry_run = false;
    completed_at = r.completed_at;
    verification_status = script_verdict r.status;
    error_code =
        if eqb_ℤ r.exit_code (pos 0) then none else some (endpoint.number_text r.exit_code);
  }

  -- A dry run of a script only validates the request.
  unfoldable pub script_preview : Fields → String → Validity → Report
  script_preview payload command_id sound = record {
    command_id = command_id;
    action_type = "DEMO_SCRIPT";
    status = preview;
    output = "Allowlisted script request validated; no action executed";
    error = none;
    executed_at = String.[];
    verification = none;
    correlation_id = String.[];
    failure_reason = none;
    dry_run = true;
    completed_at = String.[];
    verification_status = "NOT_EXECUTED";
    error_code = none;
  }
  script_preview payload command_id refused = unexpected payload "DEMO_SCRIPT" endpoint.script_error
  script_preview payload command_id type_error =
      unexpected payload "DEMO_SCRIPT" endpoint.type_error_of
