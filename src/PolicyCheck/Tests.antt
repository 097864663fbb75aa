-- ===== src/PolicyCheck/Tests.antt =====
-- The policy validator at concrete policies.
use zero_trust_continuous_au.Base.{str_eq, ◌≡◌, ◌≢◌, refl, true, false, none, String}
use zero_trust_continuous_au.Base.Int.{pos}
use zero_trust_continuous_au.Json.{
  null, int, bool, str, obj, Fields, end, field, get, member, value_eq, scalar_eq, truthy,
}
use zero_trust_continuous_au.Json.Text.{text_length}
use zero_trust_continuous_au.Condition.{Host, answered, bad_pattern}
use zero_trust_continuous_au.Policy.{get_or_value}
use zero_trust_continuous_au.Rule.{Texts, valid, at, is_required_text, is_description}
use zero_trust_continuous_au.PolicyCheck.{
  validate_policy, validate_policy_fields, check_choice_or, is_between, is_ordered, is_truth,
  policy_condition, check_policy_condition,
}
use zero_trust_continuous_au.PolicyCheck.Accepted.{
  Accepted, validate_policy-Accepted, condition_json_refused,
}

found_nothing : (p s : String) → true ≡ true → answered false ≢ bad_pattern
found_nothing p s h e = cc e

abbrev plain_host : Host
plain_host = record {
  casefold = λ s. s;
  compiles = λ _. true;
  search = λ _ _. answered false;
  search_compiled = found_nothing;
}

abbrev texts : Texts
texts = record { is_blank = λ s. str_eq s ""; blank_empty = refl; parse = λ _. none }

abbrev policy : Fields
policy = field "code" (str "P-1") (
    field "name" (str "contain") (
      field "mode" (str "ENFORCE")
        (field "min_risk" (int (pos 85)) (field "enabled" (bool true) end))))

policy_is_valid : validate_policy plain_host texts (obj policy) ≡ valid
unfolding validate_policy validate_policy_fields check_choice_or is_between is_ordered is_truth
    policy_condition check_policy_condition is_required_text is_description get text_length
    get_or_value member value_eq scalar_eq truthy
policy_is_valid = refl

validate_policy-Accepted_example : Accepted plain_host texts policy
validate_policy-Accepted_example = validate_policy-Accepted plain_host texts policy policy_is_valid

abbrev with_text : Fields
with_text =
    field "code" (str "P-2") (field "name" (str "text") (field "condition_json" (str "{}") end))

no_condition : at "condition" with_text ≡ null
unfolding get
no_condition = refl

has_text : at "condition_json" with_text ≡ str "{}"
unfolding get
has_text = refl

text_is_set : truthy (str "{}") ≡ true
unfolding truthy
text_is_set = refl

condition_json_refused_example : validate_policy plain_host texts (obj with_text) ≢ valid
condition_json_refused_example =
    condition_json_refused plain_host texts with_text "{}" no_condition has_text text_is_set
