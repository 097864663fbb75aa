-- ===== src/Executor.antt =====
-- powershell/ps_executor.py: the endpoint's executor of allowlisted response actions. What it asks of the operating
-- system is the record `System`; what it does to it is a list of effects.
pub mod Checks
pub mod Outcomes
pub mod Run
pub mod Plain
pub mod Safe
pub mod Proves
pub mod Asked
pub mod Evident
pub mod Sample
mod Tests
use Prim.Native.Char.{Char, code}
use zero_trust_continuous_au.Base.{
  ℕ, String, ◌≡◌, Bool, true, false, not, ◌&&◌, ◌||◌, Option, none, some, List, [], ◌∷◌, any, leb,
  str_eq, if◌then◌else◌, ◌==◌,
}
use zero_trust_continuous_au.Base.Int.{ℤ}
use zero_trust_continuous_au.Json.{Value, str, Fields, end, field}
use zero_trust_continuous_au.Json.Text.{any_char}

-- `ALLOWLISTED_TEMPLATES` and the two native actions.
pub data Action : Type 0 where
  logoff_user kill_process network_isolation local_account_control lock_workstation
        quarantine_file :
      Action

-- The action that a name stands for, by itself or as an alias.
unfoldable pub action_of : String → Option Action
action_of s =
    if str_eq s "LOGOFF_USER" || str_eq s "LOGOUT_USER"
    then some logoff_user
    else if str_eq s "KILL_PROCESS"
    then some kill_process
    else if str_eq s "NETWORK_ISOLATION"
        || str_eq s "ISOLATE_ENDPOINT"
        || str_eq s "DISABLE_NETWORK"
        || str_eq s "UNISOLATE_ENDPOINT"
    then some network_isolation
    else if str_eq s "LOCAL_ACCOUNT_CONTROL"
        || str_eq s "LOCK_LOCAL_ACCOUNT"
        || str_eq s "UNLOCK_LOCAL_ACCOUNT"
    then some local_account_control
    else if str_eq s "LOCK_WORKSTATION"
    then some lock_workstation
    else if str_eq s "QUARANTINE_FILE"
    then some quarantine_file
    else none

-- `PARAMETERS`
abbrev pub parameters_of : Action → List String
parameters_of logoff_user = "UserName" ∷ "Domain" ∷ "SessionId" ∷ []
parameters_of kill_process =
    "ProcessName" ∷ "ProcessId" ∷ "ProcessPath" ∷ "ProcessCreatedAt" ∷ "AgentProcessId" ∷ []
parameters_of network_isolation = "Action" ∷ "ManagerIP" ∷ "ManagerPort" ∷ []
parameters_of local_account_control =
    "Action" ∷ "UserName" ∷ "Domain" ∷ "LogoutExistingSessions" ∷ "AgentAccount" ∷ []
parameters_of lock_workstation = "UserName" ∷ "SessionId" ∷ []
parameters_of quarantine_file = "FilePath" ∷ "ExpectedSha256" ∷ []

-- The script of an action; the native actions have none.
abbrev pub script_of : Action → String
script_of logoff_user = "logoff_user.ps1"
script_of kill_process = "kill_process.ps1"
script_of network_isolation = "network_isolation.ps1"
script_of local_account_control = "local_account_control.ps1"
script_of _ = String.[]

-- One character of `DANGEROUS_CHAR_PATTERN`.
abbrev pub is_dangerous_char : Char → Bool
is_dangerous_char c =
    any (λ d. code c == d) (b';' ∷ b'|' ∷ b'&' ∷ b'$' ∷ b'`' ∷ b'<' ∷ b'>' ∷ 39 ∷ [])

abbrev pub is_dangerous : String → Bool
is_dangerous s = any_char is_dangerous_char s

-- What a run of a script gives: its exit code, stdout and stderr; a timeout; or another exception.
pub data Ran : Type 0 where
  finished : ℤ → String → String → Ran
  timed_out : Ran
  broken : String → Ran

-- The end of a call of `WindowsSessions.logoff`, or of `FileQuarantine.quarantine` after its `validate`, with the
-- text of the result or of the exception.
pub data Attempt : Type 0 where
  managed : String → Attempt
  raised_here : String → String → Attempt

pub record System : Type 0 where
  -- Python's texts: `str`, `strip`, `upper`, `lower`, and `int` of a text that `isdecimal` accepts.
  pub text_of : Value → String
  pub text_of_str : (s : String) → text_of (str s) ≡ s
  pub strip : String → String
  pub upper : String → String
  pub lower : String → String
  pub decimal : String → Option ℕ
  -- The process and its environment.
  pub is_windows : Bool
  pub isolation_switch : String
  pub user_name : String
  pub process_id : String
  pub script_path : String → String
  pub exists : String → Bool
  -- What the actions meet.
  pub run : List String → Ran
  pub session_of_user : String → ℕ → Option ℕ
  pub own_session : Option ℕ
  pub locks : Bool
  pub last_error : ℕ
  pub logoff : String → String → Option ℕ → Attempt
  pub quarantine : String → String → Attempt

pub record PsResult : Type 0 where
  pub success : Bool
  pub output : String
  pub error : Option String
  pub exit_code : ℤ
  pub verification : Option String
  pub dry_run : Bool
  pub error_code : Option String

-- The call returns or raises; `unresolved` is an error from the search for the session to lock.
pub data Ending : Type 0 where
  done : PsResult → Ending
  unknown_template invalid_parameter execution_timeout unresolved : Ending

-- What the machine was told to do.
pub data Effect : Type 0 where
  subprocess : List String → Effect
  lock_station : Effect
  log_off : String → String → Option ℕ → Effect
  put_away : String → String → Effect
