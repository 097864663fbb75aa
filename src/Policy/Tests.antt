-- ===== src/Policy/Tests.antt =====
-- The properties of policies at the engine's default policies.
use zero_trust_continuous_au.Base.{◌≡◌, ◌∙◌, refl, String, true, false, ◌&&◌, some, ◌≢◌}
use zero_trust_continuous_au.Base.Int.{pos, leb_ℤ}
use zero_trust_continuous_au.Base.Order.{text_less}
use zero_trust_continuous_au.Json.{int, Fields, end, field, get, value_eq, scalar_eq}
use zero_trust_continuous_au.Condition.{Host, answered, bad_pattern}
use zero_trust_continuous_au.Policy.{
  Policy, PolicyDecision, evaluate_single_policy, eligible_for, is_offline, linked_to, key_order,
  policy_sort_key, evaluate, default_policy, default_policies,
}
use zero_trust_continuous_au.Policy.Select.{Explains, evaluate-Explains}
use zero_trust_continuous_au.Policy.Gates.{Passed, triggered-Passed}
use zero_trust_continuous_au.Policy.Defaults.{risk_band-triggers}

plain_search : (p s : String) → true ≡ true → answered true ≢ bad_pattern
plain_search p s h e = cc e

abbrev plain_host : Host
plain_host = record {
  casefold = λ s. s;
  compiles = λ _. true;
  search = λ _ _. answered true;
  search_compiled = plain_search;
}

abbrev containment : Policy
containment =
    default_policy "pol-004" "Critical Risk Containment" 85 100 "ISOLATE_ENDPOINT" "POL-004"
      "ENFORCE" false

abbrev logout : Policy
logout =
    default_policy "pol-005" "Critical Login & Session Protection" 85 100 "LOGOUT_USER"
      "POL-LOGOUT-001" "ENFORCE" true

abbrev context : Fields
context = field "risk_score" (int (pos 90)) end

risk_is_90 : get "risk_score" context ≡ some (int (pos 90))
unfolding get
risk_is_90 = refl

contained :
    (d : PolicyDecision) × (evaluate_single_policy plain_host containment context ≡ some d)
    × (d.triggered ≡ (
        eligible_for containment context && (leb_ℤ (pos 85) (pos 90) && leb_ℤ (pos 90) (pos 100))))
contained = risk_band-triggers plain_host containment (pos 90) context refl risk_is_90

contained_fires : contained.0.triggered ≡ true
unfolding eligible_for is_offline linked_to get value_eq scalar_eq
contained_fires = contained.2 ∙ refl

triggered-Passed_example : Passed plain_host containment context contained.0
triggered-Passed_example =
    triggered-Passed plain_host containment context contained.0 contained.1 contained_fires

evaluate-Explains_example :
    Explains plain_host default_policies "a1"
      (pos 90)
      (pos 10)
      end
      (evaluate plain_host default_policies "a1" (pos 90) (pos 10) end)
evaluate-Explains_example = evaluate-Explains plain_host default_policies "a1" (pos 90) (pos 10) end

less_key :
    key_order.less (policy_sort_key plain_host containment) (policy_sort_key plain_host logout)
    ≡ true
unfolding policy_sort_key text_less
less_key = refl
