-- ===== src/Rule/Tests.antt =====
-- The validator at a concrete rule.
use zero_trust_continuous_au.Base.{str_eq, ◌≡◌, ◌≢◌, refl, true, false, none, String}
use zero_trust_continuous_au.Base.Int.{pos}
use zero_trust_continuous_au.Json.{Value, int, bool, str, obj, Fields, end, field, get, has_key}
use zero_trust_continuous_au.Json.Text.{text_length, split_dots}
use zero_trust_continuous_au.Condition.{
  Host, answered, bad_pattern, validate, has_group, check_leaf, check_path, check_op, check_value,
  check_scalar, is_structured, find_op, has_unknown,
}
use zero_trust_continuous_au.Rule.{
  Texts, valid, validate_rule, validate_fields, check_choice, check_condition, parsed_condition,
  is_required_text, is_description, is_percent, is_flag,
}
use zero_trust_continuous_au.Rule.Accepted.{Accepted, validate_rule-Accepted}

found_nothing : (p s : String) → true ≡ true → answered false ≢ bad_pattern
found_nothing p s h e = cc e

abbrev plain_host : Host
plain_host = record {
  casefold = λ s. s;
  compiles = λ _. true;
  search = λ _ _. answered false;
  search_compiled = found_nothing;
}

abbrev texts : Texts
texts = record { is_blank = λ s. str_eq s ""; blank_empty = refl; parse = λ _. none }

abbrev condition : Value
condition = obj (field "field" (str "a") (field "op" (str "eq") (field "value" (str "u") end)))

abbrev rule : Fields
rule = field "code" (str "R-1") (
    field "name" (str "login") (
      field "category" (str "Execution") (
        field "severity" (str "HIGH") (
          field "response_action" (str "ALERT") (
            field "logic_type" (str "CONDITION_TREE") (
              field "risk_delta" (int (pos 30)) (
                field "enabled" (bool true)
                  (field "allow_offline" (bool false) (field "condition" condition end)))))))))

rule_is_valid : validate_rule plain_host texts (obj rule) ≡ valid
unfolding validate_rule validate_fields check_choice check_condition parsed_condition
    is_required_text is_description is_percent is_flag get text_length split_dots validate has_group
    check_leaf check_path check_op check_value check_scalar is_structured find_op has_unknown
    has_key
rule_is_valid = refl

validate_rule-Accepted_example : Accepted plain_host texts rule
validate_rule-Accepted_example = validate_rule-Accepted plain_host texts rule rule_is_valid
