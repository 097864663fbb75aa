-- ===== src/Builder.antt =====
-- engine/response/command_builder.py: from the decision of a policy and its event to a command for the endpoint.
-- Times are microseconds; `none` stands for every exception.
pub mod Vetted
mod Tests
use zero_trust_continuous_au.Base.{
  ℕ, ◌+◌, ◌*◌, String, ◌≡◌, Bool, true, false, not, ◌&&◌, ◌||◌, Option, none, some, List, [], ◌∷◌,
  ltb, str_eq, if◌then◌else◌,
}
use zero_trust_continuous_au.Json.{Value, null, str, obj, Fields, end, field, get, truthy}
use zero_trust_continuous_au.Rule.{at}
use zero_trust_continuous_au.Script.{
  Scripts, Validity, sound, refused, type_error, or_value, validate_script_request,
}
use zero_trust_continuous_au.Executor.{
  System, Ending, done, unknown_template, invalid_parameter, execution_timeout, unresolved,
}
use zero_trust_continuous_au.Executor.Run.{execute_template}

-- What the builder reads of an event; `timestamp` is `none` where the time has no zone. `raw_event` is a dict.
pub record EventFacts : Type 0 where
  pub agent_id : String
  pub timestamp : Option ℕ
  pub user_name : Value
  pub user_domain : Value
  pub session_id : Value
  pub pid : Value
  pub process_name : Value
  pub process_path : Value
  pub process_created_at : Value
  pub raw_event : Fields

pub record Decision : Type 0 where
  pub policy_id : String
  pub policy_code : String
  pub action : String

pub record BuiltCommand : Type 0 where
  pub command_id : String
  pub agent_id : String
  pub policy_id : String
  pub policy_code : String
  pub alert_id : String
  pub action_type : String
  pub params : Fields
  pub executor : String
  pub created_at : ℕ
  pub expires_at : ℕ
  pub execution_source : String

-- The live response window: at most 300 seconds old, and at most 60 seconds ahead.
abbrev pub is_fresh : ℕ → ℕ → Bool
is_fresh now t = not (ltb (t + 300 * 1000000) now) && not (ltb (now + 60 * 1000000) t)

abbrev pub is_demo : String → Bool
is_demo action = str_eq action "DEMO_SCRIPT"

module _ (system : System) (scripts : Scripts) (manager_ip : String) where
  -- `str(v or '')`
  abbrev pub shown_or_empty : Value → Value
  shown_or_empty v = str (system.text_of (or_value (some v) (str "")))

  -- `v or ''`
  abbrev pub or_empty_text : Value → Value
  or_empty_text v = or_value (some v) (str "")

  abbrev pub logout_params : EventFacts → Option Fields
  logout_params e = some (
      field "UserName" e.user_name (
        field "Domain" (or_empty_text e.user_domain)
          (field "SessionId" (shown_or_empty e.session_id) end)))

  abbrev pub kill_params : EventFacts → Option Fields
  kill_params e =
      if truthy e.pid
        && truthy e.process_name
        && truthy e.process_path
        && truthy e.process_created_at
      then some (
          field "ProcessName" e.process_name (
            field "ProcessId" (str (system.text_of e.pid)) (
              field "ProcessPath" e.process_path
                (field "ProcessCreatedAt" e.process_created_at end))))
      else none

  abbrev pub account_params : EventFacts → Option Fields
  account_params e =
      if truthy e.user_name
      then some (
          field "UserName" e.user_name (
            field "Domain" (or_empty_text e.user_domain)
              (field "LogoutExistingSessions" (str "false") end)))
      else none

  abbrev pub network_params : String → Option Fields
  network_params action =
      some (field "Action" (str action) (field "ManagerIP" (str manager_ip) end))

  abbrev pub lock_params : EventFacts → Option Fields
  lock_params e =
      if truthy e.user_name && truthy e.session_id
      then some
          (field "UserName" e.user_name (field "SessionId" (str (system.text_of e.session_id)) end))
      else none

  -- `raw.get('data')` where it is a dict, or else `raw`.
  abbrev pub data_of : Fields → Value → Fields
  data_of raw (obj fs) = fs
  data_of raw v = raw

  abbrev pub file_params : Fields → Option Fields
  file_params facts =
      let path = or_value (get "file_path" facts) (at "target_path" facts) in
      let digest = or_value (get "sha256" facts) (at "file_sha256" facts) in
      if truthy path && truthy digest
      then some (
          field "FilePath" (str (system.text_of path))
            (field "ExpectedSha256" (str (system.text_of digest)) end))
      else none

  abbrev pub script_params_of : String → Fields → Option Fields
  script_params_of alert_id raw =
      let script_id = or_value (get "script_id" raw) (at "response_script_id" raw) in
      if truthy script_id
      then some (field "script_id" script_id (field "correlation_id" (str alert_id) end))
      else none

  unfoldable pub params_for : String → String → EventFacts → Option Fields
  params_for action alert_id e =
      if str_eq action "LOGOUT_USER" || str_eq action "LOGOFF_USER"
      then logout_params e
      else if str_eq action "KILL_PROCESS"
      then kill_params e
      else if str_eq action "LOCK_LOCAL_ACCOUNT" || str_eq action "UNLOCK_LOCAL_ACCOUNT"
      then account_params e
      else if str_eq action "ISOLATE_ENDPOINT" || str_eq action "DISABLE_NETWORK"
      then network_params "ISOLATE"
      else if str_eq action "UNISOLATE_ENDPOINT"
      then network_params "UNISOLATE"
      else if str_eq action "LOCK_WORKSTATION"
      then lock_params e
      else if str_eq action "QUARANTINE_FILE"
      then file_params (data_of e.raw_event (at "data" e.raw_event))
      else if is_demo action
      then script_params_of alert_id e.raw_event
      else none

  abbrev pub is_sound : Validity → Bool
  is_sound sound = true
  is_sound v = false

  -- A dry run that returns, whatever its result, lets the command pass.
  abbrev pub returns : Ending → Bool
  returns (done r) = true
  returns o = false

  unfoldable pub is_vetted : String → Fields → Bool
  is_vetted action params =
      if is_demo action
      then is_sound (validate_script_request scripts (at "script_id" params) params)
      else returns (execute_template system action params true).1

  abbrev pub command_of :
      Decision → EventFacts → String → String → String → ℕ → Fields → BuiltCommand
  command_of d e command_id alert_id source now params = record {
    command_id = command_id;
    agent_id = e.agent_id;
    policy_id = d.policy_id;
    policy_code = d.policy_code;
    alert_id = alert_id;
    action_type = d.action;
    params = params;
    executor = if is_demo d.action then "ALLOWLISTED_SCRIPT" else "WINDOWS_POWERSHELL";
    created_at = now;
    expires_at = now + 300 * 1000000;
    execution_source = source;
  }

  abbrev pub vetted :
      Decision → EventFacts → String → String → String → ℕ → Option Fields → Option BuiltCommand
  vetted d e command_id alert_id source now none = none
  vetted d e command_id alert_id source now (some params) =
      if is_vetted d.action params
      then some (command_of d e command_id alert_id source now params)
      else none

  abbrev pub is_live_time : ℕ → Option ℕ → Bool
  is_live_time now none = false
  is_live_time now (some t) = is_fresh now t

  -- `now` and `then_now` are the two readings of the clock.
  unfoldable pub build_command :
      Decision → EventFacts → String → String → String → ℕ → ℕ → Option BuiltCommand
  unfolding params_for is_vetted
  build_command d e command_id alert_id source now then_now =
      if is_live_time now e.timestamp && truthy (at "timestamp" e.raw_event)
      then vetted d e command_id alert_id source then_now (params_for d.action alert_id e)
      else none
