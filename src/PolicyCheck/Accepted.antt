-- ===== src/PolicyCheck/Accepted.antt =====
-- What a policy that the validator accepts is like.
use zero_trust_continuous_au.Base.{
  ◌≡◌, ◌≢◌, refl, sym, ap, ◌∙◌, String, true, false, not, some, List, arith, if◌then◌else◌,
}
use zero_trust_continuous_au.Base.Int.{ℤ, pos, ◌≤ℤ◌}
use zero_trust_continuous_au.Json.{Value, null, bool, int, str, obj, Fields, truthy}
use zero_trust_continuous_au.Condition.{Host, validate}
use zero_trust_continuous_au.Condition.Trace.{Trace, explain, explained}
use zero_trust_continuous_au.Condition.Total.{explain_total}
use zero_trust_continuous_au.Policy.{get_or_value}
use zero_trust_continuous_au.Rule.{
  valid, bad_text, bad_choice, bad_risk, bad_flag, unhashable, require, Texts, severities,
  response_actions, at, is_choice, is_structure, is_description, is_required_text,
  checked_condition,
}
use zero_trust_continuous_au.Rule.Accepted.{>>-valid, require-valid, checked_condition-valid}
use zero_trust_continuous_au.PolicyCheck.{
  modes, check_choice_or, is_between, is_ordered, is_truth, min_risk_of, max_risk_of,
  policy_condition, check_policy_condition, validate_policy_fields, validate_policy,
}

check_choice_or-valid :
    (field default : String) (allowed : List String) (policy : Fields)
    → check_choice_or field default allowed policy ≡ valid
    → is_choice allowed (get_or_value field (str default) policy) ≡ true
unfolding check_choice_or
check_choice_or-valid field default allowed policy h =
    require-valid (is_choice allowed (get_or_value field (str default) policy)) (bad_choice field)
      (λ e. cc e)
      (>>-valid
        (require (not (is_structure (get_or_value field (str default) policy))) (unhashable field))
        h).1

-- Two risks from 0 through 100, in order.
ordered_risks :
    (v w : Value)
    → is_between 100 v ≡ true
    → is_between 100 w ≡ true
    → is_ordered v w ≡ true
    → (low high : ℤ) × (v ≡ int low)
      × (w ≡ int high)
      × (pos 0 ≤ℤ low)
      × (low ≤ℤ high)
      × (high ≤ℤ pos 100)
unfolding is_between is_ordered
ordered_risks (int a) (int b) p q r = (a, b, refl, refl, ground arith, ground arith, ground arith)
ordered_risks v w p q r = absurd (cc p)

module _ (host : Host) (texts : Texts) where
  abbrev condition_in : Fields → Value
  condition_in policy = policy_condition (at "condition" policy) (at "condition_json" policy)

  pub record Accepted (policy : Fields) : Type 0 where
    pub mode : is_choice modes (get_or_value "mode" (str "ALERT_ONLY") policy) ≡ true
    pub action : is_choice response_actions (get_or_value "action" (str "MONITOR") policy) ≡ true
    pub low : ℤ
    pub high : ℤ
    pub has_low : min_risk_of policy ≡ int low
    pub has_high : max_risk_of policy ≡ int high
    pub low_bound : pos 0 ≤ℤ low
    pub in_order : low ≤ℤ high
    pub high_bound : high ≤ℤ pos 100
    pub runs :
        (event : Value)
        → truthy (condition_in policy) ≡ true
        → (t : Trace) × (explain host (condition_in policy) event ≡ explained (some t))

  check_policy_condition-runs :
      (c : Value)
      → check_policy_condition host texts c ≡ valid
      → (event : Value) → truthy c ≡ true
      → (t : Trace) × (explain host c event ≡ explained (some t))
  unfolding check_policy_condition
  check_policy_condition-runs c h event set =
      let checked : checked_condition (validate host c) ≡ valid =
        ap (λ b. if b then checked_condition (validate host c) else valid) (sym set) ∙ h in
      let (n, ok) = checked_condition-valid (validate host c) checked in
      let (t, e, _) = explain_total host event c n ok in (t, e)

  -- A policy that the validator accepts has a known mode and action and limits with
  -- 0 ≤ min_risk ≤ max_risk ≤ 100, and its condition, where there is one, is evaluated on every event without an
  -- exception.
  pub validate_policy-Accepted :
      (policy : Fields) → validate_policy host texts (obj policy) ≡ valid → Accepted policy
  unfolding validate_policy validate_policy_fields
  validate_policy-Accepted policy h =
      let (_, r1) =
        >>-valid (require (is_required_text host texts 64 (at "code" policy)) (bad_text "code"))
          h in
      let (_, r2) =
        >>-valid (require (is_required_text host texts 160 (at "name" policy)) (bad_text "name"))
          r1 in
      let (_, r3) =
        >>-valid (require (is_description (at "category" policy)) (bad_text "category")) r2 in
      let (_, r4) =
        >>-valid (require (is_description (at "description" policy)) (bad_text "description")) r3 in
      let (_, r5) =
        >>-valid (require (is_description (at "rule_id" policy)) (bad_text "rule_id")) r4 in
      let (_, r6) = >>-valid (check_choice_or "severity" "HIGH" severities policy) r5 in
      let (c7, r7) = >>-valid (check_choice_or "mode" "ALERT_ONLY" modes policy) r6 in
      let (c8, r8) = >>-valid (check_choice_or "action" "MONITOR" response_actions policy) r7 in
      let (c9, r9) = >>-valid (require (is_between 100 (min_risk_of policy)) bad_risk) r8 in
      let (c10, r10) = >>-valid (require (is_between 100 (max_risk_of policy)) bad_risk) r9 in
      let (_, r11) =
        >>-valid
          (require (is_between 100 (get_or_value "risk_threshold" (int (pos 100)) policy)) bad_risk)
          r10 in
      let (c12, r12) =
        >>-valid (require (is_ordered (min_risk_of policy) (max_risk_of policy)) bad_risk) r11 in
      let (_, r13) =
        >>-valid
          (require (is_between 10000 (get_or_value "priority" (int (pos 1000)) policy)) bad_risk)
          r12 in
      let (_, r14) =
        >>-valid
          (require (is_truth (get_or_value "enabled" (bool false) policy)) (bad_flag "enabled"))
          r13 in
      let (_, r15) =
        >>-valid
          (require (is_truth (get_or_value "allow_offline" (bool false) policy))
            (bad_flag "allow_offline"))
          r14 in
      let (low, high, is_low, is_high, p, q, r) =
        ordered_risks (min_risk_of policy) (max_risk_of policy)
          (require-valid (is_between 100 (min_risk_of policy)) bad_risk (λ e. cc e) c9)
          (require-valid (is_between 100 (max_risk_of policy)) bad_risk (λ e. cc e) c10)
          (require-valid (is_ordered (min_risk_of policy) (max_risk_of policy)) bad_risk (λ e. cc e)
            c12) in
      record {
        mode = check_choice_or-valid "mode" "ALERT_ONLY" modes policy c7;
        action = check_choice_or-valid "action" "MONITOR" response_actions policy c8;
        low = low;
        high = high;
        has_low = is_low;
        has_high = is_high;
        low_bound = p;
        in_order = q;
        high_bound = r;
        runs = check_policy_condition-runs (condition_in policy) r15;
      }

  as_text :
      (policy : Fields) (s : String)
      → at "condition" policy ≡ null
      → at "condition_json" policy ≡ str s
      → truthy (str s) ≡ true
      → condition_in policy ≡ str s
  unfolding policy_condition
  as_text policy s none_set text set =
      ap (λ c. policy_condition c (at "condition_json" policy)) none_set
      ∙ ap (λ v. if truthy v then v else null) text
      ∙ ap (λ b. if b then str s else null) set

  text_not_explained : (s : String) (t : Trace) → explain host (str s) (str s) ≢ explained (some t)
  unfolding explain validate
  text_not_explained s t h = cc h

  -- A policy without `condition` whose `condition_json` is a text that is not empty is never accepted: the text is
  -- validated as it stands, and a text is no condition.
  pub condition_json_refused :
      (policy : Fields) (s : String)
      → at "condition" policy ≡ null
      → at "condition_json" policy ≡ str s
      → truthy (str s) ≡ true
      → validate_policy host texts (obj policy) ≢ valid
  unfolding validate_policy validate_policy_fields
  condition_json_refused policy s none_set text set h =
      let (_, r1) =
        >>-valid (require (is_required_text host texts 64 (at "code" policy)) (bad_text "code"))
          h in
      let (_, r2) =
        >>-valid (require (is_required_text host texts 160 (at "name" policy)) (bad_text "name"))
          r1 in
      let (_, r3) =
        >>-valid (require (is_description (at "category" policy)) (bad_text "category")) r2 in
      let (_, r4) =
        >>-valid (require (is_description (at "description" policy)) (bad_text "description")) r3 in
      let (_, r5) =
        >>-valid (require (is_description (at "rule_id" policy)) (bad_text "rule_id")) r4 in
      let (_, r6) = >>-valid (check_choice_or "severity" "HIGH" severities policy) r5 in
      let (_, r7) = >>-valid (check_choice_or "mode" "ALERT_ONLY" modes policy) r6 in
      let (_, r8) = >>-valid (check_choice_or "action" "MONITOR" response_actions policy) r7 in
      let (_, r9) = >>-valid (require (is_between 100 (min_risk_of policy)) bad_risk) r8 in
      let (_, r10) = >>-valid (require (is_between 100 (max_risk_of policy)) bad_risk) r9 in
      let (_, r11) =
        >>-valid
          (require (is_between 100 (get_or_value "risk_threshold" (int (pos 100)) policy)) bad_risk)
          r10 in
      let (_, r12) =
        >>-valid (require (is_ordered (min_risk_of policy) (max_risk_of policy)) bad_risk) r11 in
      let (_, r13) =
        >>-valid
          (require (is_between 10000 (get_or_value "priority" (int (pos 1000)) policy)) bad_risk)
          r12 in
      let (_, r14) =
        >>-valid
          (require (is_truth (get_or_value "enabled" (bool false) policy)) (bad_flag "enabled"))
          r13 in
      let (_, r15) =
        >>-valid
          (require (is_truth (get_or_value "allow_offline" (bool false) policy))
            (bad_flag "allow_offline"))
          r14 in
      let same : condition_in policy ≡ str s = as_text policy s none_set text set in
      let (t, e) =
        check_policy_condition-runs (condition_in policy) r15 (str s) (ap truthy same ∙ set) in
      text_not_explained s t (ap (λ c. explain host c (str s)) (sym same) ∙ e)
