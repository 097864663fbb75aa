-- ===== src/Script.antt =====
-- agent/execution/validators.py and agent/execution/script_executor.py: the demonstration scripts that an agent may run.
-- The handlers of agent/execution/script_registry.py, which act on the system, are a parameter.
pub mod Names
pub mod Accepted
mod Tests
use Prim.Native.Char.{Char, code}
use zero_trust_continuous_au.Base.{
  ℕ, String, ◌≡◌, Bool, true, false, not, ◌&&◌, ◌||◌, Option, none, some, List, [], ◌∷◌, ◌++◌, any,
  leb, str_eq, if◌then◌else◌, ◌==◌,
}
use zero_trust_continuous_au.Base.Int.{ℤ, pos, negsuc, leb_ℤ}
use zero_trust_continuous_au.Json.{Value, str, arr, obj, Fields, end, field, get, has_key, truthy}
use zero_trust_continuous_au.Json.Text.{text_length, any_char, is_empty}
use zero_trust_continuous_au.Rule.{is_structure}
use zero_trust_continuous_au.Row.{text_take}
use zero_trust_continuous_au.Executor.Checks.{only_keys}

-- `ALLOWED_SCRIPT_IDS`
abbrev pub script_ids : List String
script_ids =
    "DEMO_PROCESS_START" ∷ "DEMO_FILE_CREATE" ∷ "DEMO_FILE_MODIFY" ∷ "DEMO_NETWORK_CONNECTION"
    ∷ "DEMO_LISTENING_PORT" ∷ "DEMO_AUTH_EVENT" ∷ "DEMO_RULE_TRIGGER" ∷ "DEMO_LOG_PUSH" ∷ []

-- `SCRIPT_PARAMETERS`, with the two that every script takes
unfoldable pub script_keys : String → List String
script_keys id =
    (if str_eq id "DEMO_NETWORK_CONNECTION"
      then "destination_ip" ∷ "destination_port" ∷ []
      else if str_eq id "DEMO_LISTENING_PORT"
      then "host" ∷ "port" ∷ []
      else if str_eq id "DEMO_AUTH_EVENT"
      then "username" ∷ []
      else if str_eq id "DEMO_LOG_PUSH"
      then "message" ∷ []
      else [])
    ++ ("script_id" ∷ "correlation_id" ∷ [])

abbrev pub disallowed_keys : List String
disallowed_keys =
    "command" ∷ "cmd" ∷ "script" ∷ "code" ∷ "powershell" ∷ "shell" ∷ "exec" ∷ "eval" ∷ "raw" ∷ []

-- One character of `[a-zA-Z0-9_\-\.:]`.
abbrev pub is_correlation_char : Char → Bool
is_correlation_char c =
    (leb b'a' (code c) && leb (code c) b'z')
    || (leb b'A' (code c) && leb (code c) b'Z')
    || (leb b'0' (code c) && leb (code c) b'9')
    || (code c == b'_')
    || (code c == b'-')
    || (code c == b'.')
    || (code c == b':')

-- `$` also matches before a line break that ends the text.
unfoldable pub drop_line_end : String → String
drop_line_end String.[] = String.[]
drop_line_end (String.◌∷◌ c s) =
    if code c == 10 && is_empty s then String.[] else String.◌∷◌ c (drop_line_end s)

-- `SAFE_CORRELATION_REGEX.match`
unfoldable pub is_correlation : String → Bool
unfolding drop_line_end
is_correlation s =
    not (any_char (λ c. not (is_correlation_char c)) (drop_line_end s))
    && leb 1 (text_length (drop_line_end s))
    && leb (text_length (drop_line_end s)) 128

-- How a handler ends: what it returns, or an exception.
pub data Handled : Type 0 where
  returned : Bool → ℤ → String → String → String → Handled
  raised : String → Handled

pub record Scripts : Type 0 where
  -- `str`, `str.lower` and `int`, which gives nothing where it raises.
  pub text_of : Value → String
  pub lower : String → String
  pub int_of : Value → Option ℤ
  pub handle : String → String → Fields → Handled

-- The validator returns, raises a `ScriptValidationError`, or raises a `TypeError` on an id that has no hash.
pub data Validity : Type 0 where
  sound refused type_error : Validity

-- The check of an optional parameter.
abbrev pub where_given : (Value → Bool) → Option Value → Bool
where_given p none = true
where_given p (some v) = p v

abbrev pub is_port : Option ℤ → Bool
is_port none = false
is_port (some i) = leb_ℤ (pos 1) i && leb_ℤ i (pos 65535)

unfoldable pub is_short_text : Value → Bool
is_short_text (str s) = leb 1 (text_length s) && leb (text_length s) 256
is_short_text v = false

module _ (scripts : Scripts) where
  abbrev pub is_safe_id : Value → Bool
  is_safe_id v = not (truthy v) || is_correlation (scripts.text_of v)

  unfoldable pub has_disallowed : Fields → Bool
  has_disallowed end = false
  has_disallowed (field k v fs) =
      any (λ d. str_eq d (scripts.lower k)) disallowed_keys || has_disallowed fs

  unfoldable pub are_values : Fields → Bool
  unfolding is_correlation is_short_text
  are_values params =
      where_given is_safe_id (get "correlation_id" params)
      && where_given (λ v. is_port (scripts.int_of v)) (get "destination_port" params)
      && where_given (λ v. is_port (scripts.int_of v)) (get "port" params)
      && where_given is_short_text (get "destination_ip" params)
      && where_given is_short_text (get "host" params)
      && where_given is_short_text (get "username" params)
      && where_given is_short_text (get "message" params)

  unfoldable pub validate_script_request : Value → Fields → Validity
  unfolding has_disallowed are_values script_keys only_keys
  validate_script_request (str id) params =
      if any (λ i. str_eq i id) script_ids
        && not (has_disallowed params)
        && only_keys (script_keys id) params
        && are_values params
      then sound
      else refused
  validate_script_request id params = if is_structure id && truthy id then type_error else refused

pub data ScriptStatus : Type 0 where
  script_success script_failed script_rejected : ScriptStatus

pub record ScriptResult : Type 0 where
  pub execution_id : String
  pub script_id : Value
  pub agent_id : String
  pub status : ScriptStatus
  pub requested_by : String
  pub source : String
  pub parameters : Fields
  pub started_at : String
  pub completed_at : String
  pub exit_code : ℤ
  pub stdout_summary : String
  pub stderr_summary : String
  pub verification : Option String
  pub correlation_id : String
  pub error : Option String

-- `v or w`
abbrev pub or_value : Option Value → Value → Value
or_value none w = w
or_value (some v) w = if truthy v then v else w

-- A call of a handler, with the arguments that it is given.
pub record HandlerCall : Type 0 where
  pub script_id : String
  pub correlation_id : String
  pub parameters : Fields

module _ (scripts : Scripts) where
  -- What every result of this request has; it stands for a failure with this text.
  abbrev pub failed_with : ScriptStatus → String → ScriptResult → ScriptResult
  failed_with status error r = record r {
    status = status;
    exit_code = negsuc 0;
    stderr_summary = error;
    error = some error;
  }

  unfoldable pub after_handler : ScriptResult → Handled → ScriptResult
  after_handler r (returned success exit_code stdout stderr verification) = record r {
    status = if success then script_success else script_failed;
    exit_code = exit_code;
    stdout_summary = text_take 1000 stdout;
    stderr_summary = text_take 1000 stderr;
    verification = some verification;
    error = if success then none else some stderr;
  }
  after_handler r (raised error) = failed_with script_failed error r

  abbrev pub id_text : Value → String
  id_text (str s) = s
  id_text v = String.[]

  abbrev pub handler_call : ScriptResult → HandlerCall
  handler_call r = record {
    script_id = id_text r.script_id;
    correlation_id = r.correlation_id;
    parameters = r.parameters;
  }

  -- `handler(correlation_id, params)` of the registry.
  abbrev pub called : HandlerCall → Handled
  called c = scripts.handle c.script_id c.correlation_id c.parameters

  -- The calls of handlers, and the result; `none` is the `TypeError`. `refusal` is the text of the error.
  unfoldable pub run_validated :
      String → ScriptResult → Validity → List HandlerCall × Option ScriptResult
  unfolding after_handler
  run_validated refusal r sound =
      (handler_call r ∷ [], some (after_handler r (called (handler_call r))))
  run_validated refusal r refused = ([], some (failed_with script_rejected refusal r))
  run_validated refusal r type_error = ([], none)

  -- The parameters of a command: `params`, or else `parameters`; `none` where `get` of it raises.
  unfoldable pub script_params : Fields → Option Fields
  script_params command =
      elim (or_value (get "params" command) (or_value (get "parameters" command) (obj end))) [
        | obj fs ↦ some fs
        | _ ↦ none
      ]

  abbrev pub requested_id : Fields → Fields → Value
  requested_id command params =
      or_value (get "script_id" params) (or_value (get "script_id" command) (str ""))

  abbrev pub result_of : String → String → String → String → String → Fields → Fields → ScriptResult
  result_of agent_id fresh drawn now then_now command params = record {
    execution_id = scripts.text_of (or_value (get "command_id" command) (str fresh));
    script_id = requested_id command params;
    agent_id = agent_id;
    status = script_failed;
    requested_by = scripts.text_of (or_value (get "requested_by" command) (str "SOC_ADMIN"));
    source = scripts.text_of (or_value (get "execution_source" command) (str "MANAGER"));
    parameters = params;
    started_at = now;
    completed_at = then_now;
    exit_code = negsuc 0;
    stdout_summary = String.[];
    stderr_summary = String.[];
    verification = none;
    correlation_id = scripts.text_of (or_value (get "correlation_id" params) (str drawn));
    error = none;
  }

  -- `execute_script`: `fresh` and `drawn` are the ids that replace missing ones, `now` and `then_now` for the two readings of the clock.
  unfoldable pub execute_script :
      String
      → String
      → String
      → String
      → String
      → String
      → Fields
      → List HandlerCall × Option ScriptResult
  unfolding script_params validate_script_request run_validated
  execute_script agent_id fresh drawn now then_now refusal command = elim (script_params command) [
    | none ↦ ([], none)
    | some params ↦
        run_validated refusal (result_of agent_id fresh drawn now then_now command params)
          (validate_script_request scripts (requested_id command params) params)
  ]
