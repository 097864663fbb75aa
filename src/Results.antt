-- ===== src/Results.antt =====
-- `command_result` of api/ingestion.py: what the manager does with the result of a command that an agent uploads, and
-- the expiry of commands in `tick` of api/background.py. The fields of a payload that go into a column as
-- they are, are taken to be texts or null.
pub mod Rows
pub mod Receive
pub mod Final
pub mod Shown
pub mod Proved
pub mod Agrees
mod Tests
use zero_trust_continuous_au.Base.{
  ℕ, String, ◌≡◌, Bool, true, false, not, ◌&&◌, ◌||◌, Option, none, some, List, [], ◌∷◌, ◌++◌, any,
  leb, ltb, str_eq, if◌then◌else◌,
}
use zero_trust_continuous_au.Json.{Value, null, str, arr, obj, Fields, end, get, truthy}
use zero_trust_continuous_au.Json.Text.{is_empty, text_length}
use zero_trust_continuous_au.Rule.{at}
use zero_trust_continuous_au.Authorization.{Expiry, not_a_time, without_zone, moment}

-- The status of a command on the manager; `open_status` stands for those before its dispatch.
pub data CommandStatus : Type 0 where
  open_status : String → CommandStatus
  dispatched executing expired succeeded failed unknown rejected : CommandStatus

-- A row of `commands`, as far as results go.
pub record Command : Type 0 where
  pub command_id : String
  pub agent_id : String
  pub action_type : String
  pub alert_id : String
  pub policy_id : String
  pub status : CommandStatus
  pub output : Option String
  pub error_message : Option String
  pub verification : Option String
  pub expires_at : Option String
  pub executing_at : Option String
  pub completed_at : Option String
  pub result_id : Option String
  pub verification_status : Option String
  pub correlation_id : Option String

-- A row of `command_results`.
pub record Result : Type 0 where
  pub result_id : String
  pub command_id : String
  pub agent_id : String
  pub status : CommandStatus
  pub verification_status : Option String
  pub verification : Option String
  pub evidence_json : String
  pub received_at : String

pub record Incident : Type 0 where
  pub incident_id : String
  pub response_status : CommandStatus
  pub updated_at : String

pub record Evaluation : Type 0 where
  pub alert_id : String
  pub policy_id : String
  pub status : CommandStatus

-- An entry of the audit log: its event, the action, the agent and the status.
pub record Audit : Type 0 where
  pub event : String
  pub action_type : String
  pub agent_id : String
  pub status : CommandStatus

pub record CommandTables : Type 0 where
  pub commands : List Command
  pub results : List Result
  pub incidents : List Incident
  pub evaluations : List Evaluation
  pub audits : List Audit

-- `json.dumps` with sorted keys, `str`, the hash of the identifying fields, and the parsing of ISO times.
pub record Encoding : Type 0 where
  pub dumps : Value → String
  pub text_of : Value → String
  pub hash_of : Fields → String
  pub parse_time : Value → Expiry

abbrev pub command_key : Command → String
command_key c = c.command_id

abbrev pub result_key : Result → String
result_key r = r.result_id

-- The five statuses that a payload may carry.
unfoldable pub told_status : Value → Option CommandStatus
told_status (str s) =
    if str_eq s "EXECUTING"
    then some executing
    else if str_eq s "SUCCESS"
    then some succeeded
    else if str_eq s "FAILED"
    then some failed
    else if str_eq s "UNKNOWN"
    then some unknown
    else if str_eq s "REJECTED"
    then some rejected
    else none
told_status v = none

abbrev pub is_terminal : CommandStatus → Bool
is_terminal succeeded = true
is_terminal failed = true
is_terminal unknown = true
is_terminal rejected = true
is_terminal s = false

abbrev pub claims_success : CommandStatus → Bool
claims_success succeeded = true
claims_success s = false

-- Both are terminal and the same.
abbrev pub same_end : CommandStatus → CommandStatus → Bool
same_end succeeded succeeded = true
same_end failed failed = true
same_end unknown unknown = true
same_end rejected rejected = true
same_end s t = false

abbrev pub is_id : Value → Bool
is_id (str s) = not (is_empty s) && not (ltb 256 (text_length s))
is_id v = false

abbrev pub is_note : Value → Bool
is_note null = true
is_note (str s) = not (ltb 10000 (text_length s))
is_note v = false

-- `required`; an action that is not listed asks for nothing.
unfoldable pub required : String → Option (List String)
required action =
    if str_eq action "KILL_PROCESS"
    then some ("PROCESS_NOT_ACTIVE" ∷ [])
    else if str_eq action "LOGOUT_USER" || str_eq action "LOGOFF_USER"
    then some ("SESSION_NOT_ACTIVE" ∷ [])
    else if str_eq action "ISOLATE_ENDPOINT" || str_eq action "DISABLE_NETWORK"
    then some ("ISOLATION_VERIFIED" ∷ [])
    else if str_eq action "UNISOLATE_ENDPOINT"
    then some ("UNISOLATION_VERIFIED" ∷ [])
    else if str_eq action "QUARANTINE_FILE"
    then some ("FILE_QUARANTINED" ∷ [])
    else if str_eq action "LOCK_LOCAL_ACCOUNT"
    then some ("LOCAL_ACCOUNT_DISABLED" ∷ [])
    else if str_eq action "UNLOCK_LOCAL_ACCOUNT"
    then some ("LOCAL_ACCOUNT_ENABLED" ∷ "LOCAL_ACCOUNT_RESTORED_DISABLED" ∷ [])
    else none

abbrev pub is_text_in : List String → Value → Bool
is_text_in texts (str s) = any (λ t. str_eq t s) texts
is_text_in texts v = false

-- A success may be reported of the action with this verification.
unfoldable pub may_succeed : String → Value → Bool
unfolding required
may_succeed action verification =
    not (str_eq action "LOCK_WORKSTATION")
    && elim (required action) [ none ↦ true | some texts ↦ is_text_in texts verification ]

-- A column equals a value of the payload.
abbrev pub same_value : Option String → Value → Bool
same_value none null = true
same_value (some s) (str t) = str_eq s t
same_value o v = false

abbrev pub column : Value → Option String
column (str s) = some s
column v = none

abbrev pub first_some : Option String → Option String → Option String
first_some none o = o
first_some (some s) o = some s

-- What the call gives: `True`, `False`, or an exception, after which the transaction is rolled back.
pub data Answer : Type 0 where
  changed unchanged refused : Answer
