-- ===== src/Rule.antt =====
-- `RuleValidator` of engine/events/conditions.py: the definition of a rule, before it is stored or used.
-- The checks run in the order of the code, and the first that fails is the result.
pub mod Accepted
mod Tests
use zero_trust_continuous_au.Base.{
  ℕ, String, ◌≡◌, Bool, true, false, not, ◌&&◌, ◌||◌, Option, none, some, List, [], ◌∷◌, any, ltb,
  str_eq, if◌then◌else◌,
}
use zero_trust_continuous_au.Base.Int.{ℤ, pos, leb_ℤ, eqb_ℤ}
use zero_trust_continuous_au.Json.{Value, null, bool, int, str, arr, obj, Fields, get}
use zero_trust_continuous_au.Json.Text.{text_length}
use zero_trust_continuous_au.Condition.{
  Host, Invalid, Checked, accepted, invalid, or_null, validate,
}

-- What the validator does: it returns, or it raises. `unhashable` is the `TypeError` of a list or dict that is
-- looked for in a set.
pub data Verdict : Type 0 where
  valid : Verdict
  not_a_rule : Verdict
  bad_text : String → Verdict
  bad_choice : String → Verdict
  unhashable : String → Verdict
  bad_risk : Verdict
  bad_flag : String → Verdict
  bad_json : Verdict
  bad_condition : Invalid → Verdict

-- The next check runs where this one passed.
infixr 5 ◌>>◌
abbrev pub ◌>>◌ : Verdict → Verdict → Verdict
valid >> w = w
v >> w = v

abbrev pub require : Bool → Verdict → Verdict
require b v = if b then valid else v

-- Python's `str.strip` to nothing, and `json.loads`.
pub record Texts : Type 0 where
  pub is_blank : String → Bool
  -- Nothing is left of the empty text after `strip`.
  pub blank_empty : is_blank "" ≡ true
  pub parse : String → Option Value

abbrev pub severities : List String
severities = "LOW" ∷ "MEDIUM" ∷ "HIGH" ∷ "CRITICAL" ∷ []

abbrev pub categories : List String
categories =
    "Authentication" ∷ "Execution" ∷ "Persistence" ∷ "Privilege Escalation" ∷ "Defense Evasion"
    ∷ "Credential Access" ∷ "Discovery" ∷ "Lateral Movement" ∷ "Collection" ∷ "Exfiltration"
    ∷ "Command and Control" ∷ "General" ∷ "DEMO" ∷ []

abbrev pub response_actions : List String
response_actions =
    "MONITOR" ∷ "ALERT" ∷ "NOTIFY_SOC" ∷ "LOGOUT_USER" ∷ "LOGOFF_USER" ∷ "KILL_PROCESS"
    ∷ "LOCK_LOCAL_ACCOUNT" ∷ "UNLOCK_LOCAL_ACCOUNT" ∷ "ISOLATE_ENDPOINT" ∷ "UNISOLATE_ENDPOINT"
    ∷ "LOCK_WORKSTATION" ∷ "QUARANTINE_FILE" ∷ []

abbrev pub logic_types : List String
logic_types = "CONDITION_TREE" ∷ []

-- `rule.get(k)`
abbrev pub at : String → Fields → Value
at k rule = or_null (get k rule)

abbrev pub is_choice : List String → Value → Bool
is_choice allowed (str s) = any (λ a. str_eq a s) allowed
is_choice allowed v = false

abbrev pub is_structure : Value → Bool
is_structure (arr vs) = true
is_structure (obj fs) = true
is_structure v = false

-- An optional text of at most 1000 characters.
unfoldable pub is_description : Value → Bool
is_description null = true
is_description (str s) = not (ltb 1000 (text_length s))
is_description v = false

-- `risk_delta`: an integer from 0 through 100, and no Boolean.
unfoldable pub is_percent : Value → Bool
is_percent (int i) = leb_ℤ (pos 0) i && leb_ℤ i (pos 100)
is_percent v = false

-- `_flag`: a Boolean, or the integer 0 or 1.
unfoldable pub is_flag : Value → Bool
is_flag (bool b) = true
is_flag (int i) = eqb_ℤ i (pos 0) || eqb_ℤ i (pos 1)
is_flag v = false

-- `rule.get(field) not in allowed`
unfoldable pub check_choice : String → List String → Fields → Verdict
check_choice field allowed rule =
    require (not (is_structure (at field rule))) (unhashable field)
    >> require (is_choice allowed (at field rule)) (bad_choice field)

abbrev pub checked_condition : Checked → Verdict
checked_condition (accepted n) = valid
checked_condition (invalid e) = bad_condition e

module _ (host : Host) (texts : Texts) where
  -- `_required_text`
  unfoldable pub is_required_text : ℕ → Value → Bool
  is_required_text maximum (str s) = not (texts.is_blank s) && not (ltb maximum (text_length s))
  is_required_text maximum v = false

  -- The condition: `condition`, or the value that the text `condition_json` encodes; `none` where it does not parse.
  unfoldable pub parsed_condition : Value → Value → Option Value
  parsed_condition null (str s) = texts.parse s
  parsed_condition v w = some v

  unfoldable pub check_condition : Option Value → Verdict
  check_condition none = bad_json
  check_condition (some c) = checked_condition (validate host c)

  unfoldable pub validate_fields : Fields → Verdict
  unfolding check_choice check_condition parsed_condition
  validate_fields rule =
      require (is_required_text 64 (at "code" rule)) (bad_text "code")
      >> require (is_required_text 160 (at "name" rule)) (bad_text "name")
      >> require (is_description (at "description" rule)) (bad_text "description")
      >> require (is_description (at "mitre_tactic" rule)) (bad_text "mitre_tactic")
      >> require (is_description (at "mitre_technique_id" rule)) (bad_text "mitre_technique_id")
      >> check_choice "category" categories rule
      >> check_choice "severity" severities rule
      >> check_choice "response_action" response_actions rule
      >> check_choice "logic_type" logic_types rule
      >> require (is_percent (at "risk_delta" rule)) bad_risk
      >> require (is_flag (at "enabled" rule)) (bad_flag "enabled")
      >> require (is_flag (at "allow_offline" rule)) (bad_flag "allow_offline")
      >> check_condition (parsed_condition (at "condition" rule) (at "condition_json" rule))

  unfoldable pub validate_rule : Value → Verdict
  unfolding validate_fields
  validate_rule (obj rule) = validate_fields rule
  validate_rule v = not_a_rule
