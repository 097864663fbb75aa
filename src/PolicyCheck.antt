-- ===== src/PolicyCheck.antt =====
-- `PolicyValidator` of engine/policy/engine.py: the definition of a policy, before it is stored. The checks and
-- the texts are those of Rule.antt.
pub mod Accepted
mod Tests
use zero_trust_continuous_au.Base.{
  ℕ, String, Bool, true, false, not, ◌&&◌, ◌||◌, Option, none, some, List, [], ◌∷◌, if◌then◌else◌,
}
use zero_trust_continuous_au.Base.Int.{ℤ, pos, leb_ℤ}
use zero_trust_continuous_au.Json.{
  Value, null, bool, int, str, obj, nil, cons, Fields, member, truthy,
}
use zero_trust_continuous_au.Condition.{Host, validate}
use zero_trust_continuous_au.Policy.{get_or_value}
use zero_trust_continuous_au.Rule.{
  Verdict, valid, not_a_rule, bad_text, bad_choice, bad_risk, bad_flag, unhashable, ◌>>◌, require,
  Texts, severities, response_actions, at, is_choice, is_structure, is_description,
  is_required_text, checked_condition,
}

abbrev pub modes : List String
modes = "ALERT_ONLY" ∷ "ENFORCE" ∷ []

-- `policy.get(field, default) not in allowed`
unfoldable pub check_choice_or : String → String → List String → Fields → Verdict
check_choice_or field default allowed policy =
    require (not (is_structure (get_or_value field (str default) policy))) (unhashable field)
    >> require (is_choice allowed (get_or_value field (str default) policy)) (bad_choice field)

-- An integer from 0 to a limit, and no Boolean.
unfoldable pub is_between : ℕ → Value → Bool
is_between limit (int i) = leb_ℤ (pos 0) i && leb_ℤ i (pos limit)
is_between limit v = false

-- `min_risk > max_risk` of two integers does not hold.
unfoldable pub is_ordered : Value → Value → Bool
is_ordered (int a) (int b) = leb_ℤ a b
is_ordered v w = false

-- `value in (True, False, 0, 1)`
unfoldable pub is_truth : Value → Bool
is_truth v =
    member v (cons (bool true) (cons (bool false) (cons (int (pos 0)) (cons (int (pos 1)) nil))))

abbrev pub min_risk_of : Fields → Value
min_risk_of policy = get_or_value "min_risk" (int (pos 0)) policy

abbrev pub max_risk_of : Fields → Value
max_risk_of policy = get_or_value "max_risk" (int (pos 100)) policy

-- `condition`, or `condition_json` where there is none; the text is not parsed.
unfoldable pub policy_condition : Value → Value → Value
policy_condition null v = if truthy v then v else null
policy_condition c v = c

module _ (host : Host) (texts : Texts) where
  unfoldable pub check_policy_condition : Value → Verdict
  check_policy_condition c = if truthy c then checked_condition (validate host c) else valid

  unfoldable pub validate_policy_fields : Fields → Verdict
  unfolding check_choice_or is_between is_ordered is_truth policy_condition check_policy_condition
  validate_policy_fields policy =
      require (is_required_text host texts 64 (at "code" policy)) (bad_text "code")
      >> require (is_required_text host texts 160 (at "name" policy)) (bad_text "name")
      >> require (is_description (at "category" policy)) (bad_text "category")
      >> require (is_description (at "description" policy)) (bad_text "description")
      >> require (is_description (at "rule_id" policy)) (bad_text "rule_id")
      >> check_choice_or "severity" "HIGH" severities policy
      >> check_choice_or "mode" "ALERT_ONLY" modes policy
      >> check_choice_or "action" "MONITOR" response_actions policy
      >> require (is_between 100 (min_risk_of policy)) bad_risk
      >> require (is_between 100 (max_risk_of policy)) bad_risk
      >> require (is_between 100 (get_or_value "risk_threshold" (int (pos 100)) policy)) bad_risk
      >> require (is_ordered (min_risk_of policy) (max_risk_of policy)) bad_risk
      >> require (is_between 10000 (get_or_value "priority" (int (pos 1000)) policy)) bad_risk
      >> require (is_truth (get_or_value "enabled" (bool false) policy)) (bad_flag "enabled")
      >> require (is_truth (get_or_value "allow_offline" (bool false) policy))
          (bad_flag "allow_offline")
      >> check_policy_condition
          (policy_condition (at "condition" policy) (at "condition_json" policy))

  unfoldable pub validate_policy : Value → Verdict
  unfolding validate_policy_fields
  validate_policy (obj policy) = validate_policy_fields policy
  validate_policy v = not_a_rule
