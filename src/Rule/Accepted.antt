-- ===== src/Rule/Accepted.antt =====
-- What a rule that the validator accepts is like.
use zero_trust_continuous_au.Base.{
  ℕ, ◌≡◌, ◌≢◌, ◌≤◌, refl, String, Bool, true, false, not, Option, none, some, List, arith,
}
use zero_trust_continuous_au.Base.Int.{ℤ, pos, ◌≤ℤ◌}
use zero_trust_continuous_au.Json.{Value, int, str, obj, Fields}
use zero_trust_continuous_au.Json.Text.{text_length}
use zero_trust_continuous_au.Condition.{Host, Checked, accepted, invalid, validate}
use zero_trust_continuous_au.Condition.Trace.{Trace, explain, explained}
use zero_trust_continuous_au.Condition.Total.{explain_total}
use zero_trust_continuous_au.Rule.{
  Verdict, valid, bad_text, bad_choice, bad_risk, bad_flag, unhashable, ◌>>◌, require, Texts,
  severities, categories, response_actions, logic_types, at, is_choice, is_structure, is_percent,
  is_flag, is_required_text, is_description, check_choice, parsed_condition, check_condition,
  checked_condition, validate_fields, validate_rule,
}

-- A chain of checks passes exactly where each does.
pub >>-valid : (v : Verdict) {w : Verdict} → (v >> w) ≡ valid → (v ≡ valid) × (w ≡ valid)
>>-valid valid h = (refl, h)
>>-valid v h = (h, cc h)

pub require-valid : (b : Bool) (v : Verdict) → v ≢ valid → require b v ≡ valid → b ≡ true
require-valid true v ne h = refl
require-valid false v ne h = absurd (ne h)

pub checked_condition-valid :
    (c : Checked) → checked_condition c ≡ valid → (n : ℕ) × (c ≡ accepted n)
checked_condition-valid (accepted n) h = (n, refl)
checked_condition-valid (invalid e) h = absurd (cc h)

int_of-percent :
    (v : Value)
    → is_percent v ≡ true
    → (risk : ℤ) × (v ≡ int risk) × (pos 0 ≤ℤ risk) × (risk ≤ℤ pos 100)
unfolding is_percent
int_of-percent (int i) h = (i, refl, ground arith, ground arith)
int_of-percent v h = absurd (cc h)

module _ (host : Host) (texts : Texts) where
  text_of-required :
      (n : ℕ) (v : Value)
      → is_required_text host texts n v ≡ true
      → (s : String) × (v ≡ str s) × (texts.is_blank s ≡ false) × (text_length s ≤ n)
  unfolding is_required_text
  text_of-required n (str s) h = (s, refl, ground arith, ground arith)
  text_of-required n v h = absurd (cc h)

  -- The empty text is blank.
  long_enough : (s : String) → texts.is_blank s ≡ false → 1 ≤ text_length s
  unfolding text_length
  long_enough String.[] h = absurd (cc (texts.blank_empty, h))
  long_enough (String.◌∷◌ c s) h = ground arith

  check_condition-valid :
      (o : Option Value)
      → check_condition host texts o ≡ valid
      → (c : Value) × (n : ℕ) × (o ≡ some c) × (validate host c ≡ accepted n)
  unfolding check_condition
  check_condition-valid none h = absurd (cc h)
  check_condition-valid (some c) h =
      let (n, e) = checked_condition-valid (validate host c) h in (c, n, refl, e)

  -- What holds of a rule that is accepted.
  pub record Accepted (rule : Fields) : Type 0 where
    pub code : String
    pub has_code : at "code" rule ≡ str code
    pub code_low : 1 ≤ text_length code
    pub code_high : text_length code ≤ 64
    pub not_blank : texts.is_blank code ≡ false
    pub severity : is_choice severities (at "severity" rule) ≡ true
    pub action : is_choice response_actions (at "response_action" rule) ≡ true
    pub risk : ℤ
    pub has_risk : at "risk_delta" rule ≡ int risk
    pub risk_low : pos 0 ≤ℤ risk
    pub risk_high : risk ≤ℤ pos 100
    pub enabled : is_flag (at "enabled" rule) ≡ true
    pub condition : Value
    pub has_condition :
        parsed_condition host texts (at "condition" rule) (at "condition_json" rule)
        ≡ some condition
    pub runs : (event : Value) → (t : Trace) × (explain host condition event ≡ explained (some t))

  check_choice-valid :
      (field : String) (allowed : List String) (rule : Fields)
      → check_choice field allowed rule ≡ valid
      → is_choice allowed (at field rule) ≡ true
  unfolding check_choice
  check_choice-valid field allowed rule h =
      require-valid (is_choice allowed (at field rule)) (bad_choice field) (λ e. cc e)
        (>>-valid (require (not (is_structure (at field rule))) (unhashable field)) h).1

  -- A rule that the validator accepts has a code of 1 to 64 characters that is not blank, a known severity and response action,
  -- a risk from 0 through 100, a flag `enabled`, and a condition that is evaluated on every event
  -- without an exception.
  pub validate_rule-Accepted :
      (rule : Fields) → validate_rule host texts (obj rule) ≡ valid → Accepted rule
  unfolding validate_rule validate_fields
  validate_rule-Accepted rule h =
      let (code, r1) =
        >>-valid (require (is_required_text host texts 64 (at "code" rule)) (bad_text "code")) h in
      let (_, r2) =
        >>-valid (require (is_required_text host texts 160 (at "name" rule)) (bad_text "name"))
          r1 in
      let (_, r3) =
        >>-valid (require (is_description (at "description" rule)) (bad_text "description")) r2 in
      let (_, r4) =
        >>-valid (require (is_description (at "mitre_tactic" rule)) (bad_text "mitre_tactic")) r3 in
      let (_, r5) =
        >>-valid
          (require (is_description (at "mitre_technique_id" rule)) (bad_text "mitre_technique_id"))
          r4 in
      let (_, r6) = >>-valid (check_choice "category" categories rule) r5 in
      let (severity, r7) = >>-valid (check_choice "severity" severities rule) r6 in
      let (action, r8) = >>-valid (check_choice "response_action" response_actions rule) r7 in
      let (_, r9) = >>-valid (check_choice "logic_type" logic_types rule) r8 in
      let (risk, r10) = >>-valid (require (is_percent (at "risk_delta" rule)) bad_risk) r9 in
      let (enabled, r11) =
        >>-valid (require (is_flag (at "enabled" rule)) (bad_flag "enabled")) r10 in
      let (_, r12) =
        >>-valid (require (is_flag (at "allow_offline" rule)) (bad_flag "allow_offline")) r11 in
      let (s, is_s, s_blank, s_size) = text_of-required 64 (at "code" rule) (
        require-valid (is_required_text host texts 64 (at "code" rule)) (bad_text "code")
          (λ e. cc e) code) in
      let (i, is_i, low, high) =
        int_of-percent (at "risk_delta" rule)
          (require-valid (is_percent (at "risk_delta" rule)) bad_risk (λ e. cc e) risk) in
      let (c, n, is_c, ok) =
        check_condition-valid
          (parsed_condition host texts (at "condition" rule) (at "condition_json" rule)) r12 in
      record {
        code = s;
        has_code = is_s;
        code_low = long_enough s s_blank;
        code_high = s_size;
        not_blank = s_blank;
        severity = check_choice-valid "severity" severities rule severity;
        action = check_choice-valid "response_action" response_actions rule action;
        risk = i;
        has_risk = is_i;
        risk_low = low;
        risk_high = high;
        enabled =
            require-valid (is_flag (at "enabled" rule)) (bad_flag "enabled") (λ e. cc e) enabled;
        condition = c;
        has_condition = is_c;
        runs = λ event. let (t, e, _) = explain_total host event c n ok in (t, e);
      }
