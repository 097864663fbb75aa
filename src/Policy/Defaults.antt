-- ===== src/Policy/Defaults.antt =====
-- Policies that only set risk limits.
use zero_trust_continuous_au.Base.{◌≡◌, refl, Bool, true, none, some, ◌&&◌, arith, ap, ◌∙◌, [], ◌∷◌}
use zero_trust_continuous_au.Base.Int.{ℤ, pos, negsuc, leb_ℤ, scale}
use zero_trust_continuous_au.Json.{Value, Fields, obj, int, get, has_key, count_items, frac_le}
use zero_trust_continuous_au.Json.Text.{split_dots, text_length}
use zero_trust_continuous_au.Condition.{
  Host, Op, gte, lte, validate, accepted, check_leaf, find_op, has_group, has_unknown, check_path,
  check_op, check_value, check_number, is_number,
}
use zero_trust_continuous_au.Condition.Trace.{
  and, leaf, one_more, none_left, Trace, result, explain, explained, evaluate_node, evaluate_leaf,
  evaluate_op, evaluate_at, walk, compare_values, compare_numbers, close_gate, close_with, join,
}
use zero_trust_continuous_au.Policy.{
  Policy, PolicyDecision, compare_risk, risk_band, condition_of, evaluate_single_policy,
  decide_explained, decide, eligible_for,
}

-- The limits stand for a condition of three nodes, which is accepted.
validate-risk_band : (host : Host) (low high : ℤ) → validate host (risk_band low high) ≡ accepted 3
unfolding validate risk_band has_group check_leaf check_path check_op check_value check_number
    is_number find_op has_unknown get has_key count_items split_dots text_length
validate-risk_band host low high = refl

scale_one : (a : ℤ) → scale 1 a ≡ a
scale_one (pos n) = ground arith
scale_one (negsuc n) = ground arith

frac_le_int : (a b : ℤ) → frac_le (a, 0) (b, 0) ≡ leb_ℤ a b
frac_le_int a b = rw (scale_one a, scale_one b) refl

walk_risk :
    (context : Fields) (v : Value)
    → get "risk_score" context ≡ some v
    → walk ("risk_score" ∷ []) (obj context) ≡ some v
unfolding walk
walk_risk context v h = rw (h, walk) refl

-- The evidence of one limit.
abbrev limit_trace : Op → ℤ → ℤ → Bool → Trace
limit_trace op n r b = leaf (record {
  field = "risk_score";
  op = op;
  expected = int n;
  actual = int r;
  present = true;
  result = b;
  error = none;
})

module _ (host : Host) (n r : ℤ) (context : Fields)
    (h : get "risk_score" context ≡ some (int r)) where
  lower :
      evaluate_node host (compare_risk "gte" n) (obj context)
      ≡ some (limit_trace gte n r (leb_ℤ n r))
  unfolding evaluate_node has_group evaluate_leaf evaluate_op find_op get has_key split_dots
      evaluate_at compare_values compare_numbers
  lower =
      ap (evaluate_at host "risk_score" gte (int n)) (walk_risk context (int r) h)
      ∙ ap (λ b. some (limit_trace gte n r b)) (frac_le_int n r)

  upper :
      evaluate_node host (compare_risk "lte" n) (obj context)
      ≡ some (limit_trace lte n r (leb_ℤ r n))
  unfolding evaluate_node has_group evaluate_leaf evaluate_op find_op get has_key split_dots
      evaluate_at compare_values compare_numbers
  upper =
      ap (evaluate_at host "risk_score" lte (int n)) (walk_risk context (int r) h)
      ∙ ap (λ b. some (limit_trace lte n r b)) (frac_le_int r n)

-- The evidence of the two limits.
abbrev band_trace : ℤ → ℤ → ℤ → Trace
band_trace low high r = close_gate and (
    one_more (limit_trace gte low r (leb_ℤ low r))
      (one_more (limit_trace lte high r (leb_ℤ r high)) none_left))

evaluate-risk_band :
    (host : Host) (low high r : ℤ) (context : Fields)
    → get "risk_score" context ≡ some (int r)
    → evaluate_node host (risk_band low high) (obj context) ≡ some (band_trace low high r)
unfolding evaluate_node risk_band
evaluate-risk_band host low high r context h =
    let lte_trace = limit_trace lte high r (leb_ℤ r high) in
    let gte_trace = limit_trace gte low r (leb_ℤ low r) in
    ap
      (λ o. close_with host and (
        join host o (
          join host (evaluate_node host (compare_risk "lte" high) (obj context)) (some none_left))))
      (lower host low r context h)
    ∙ ap (λ o. close_with host and (join host (some gte_trace) (join host o (some none_left))))
        (upper host high r context h)

result-band_trace :
    (low high r : ℤ) → result (band_trace low high r) ≡ (leb_ℤ low r && leb_ℤ r high)
unfolding close_gate
result-band_trace low high r = ground arith

explain-risk_band :
    (host : Host) (low high r : ℤ) (context : Fields)
    → get "risk_score" context ≡ some (int r)
    → explain host (risk_band low high) (obj context) ≡ explained (some (band_trace low high r))
unfolding explain
explain-risk_band host low high r context h =
    rw (validate-risk_band host low high, explain)
      (ap explained (evaluate-risk_band host low high r context h))

condition_of-none :
    (p : Policy) → p.condition ≡ none → condition_of p ≡ risk_band p.min_risk p.max_risk
unfolding condition_of
condition_of-none p h = rw (h, condition_of) refl

-- A policy that only sets risk limits decides, and it triggers exactly when it is eligible and the
-- context's risk score lies within its limits, both included.
pub risk_band-triggers :
    (host : Host) (p : Policy) (r : ℤ) (context : Fields)
    → p.condition ≡ none
    → get "risk_score" context ≡ some (int r)
    → (d : PolicyDecision) × (evaluate_single_policy host p context ≡ some d)
      × (d.triggered ≡ (eligible_for p context && (leb_ℤ p.min_risk r && leb_ℤ r p.max_risk)))
unfolding evaluate_single_policy decide_explained decide
risk_band-triggers host p r context none_set h =
    let trace = band_trace p.min_risk p.max_risk r in
    (
      _,
      ap (λ c. decide_explained p context (explain host c (obj context)))
            (condition_of-none p none_set)
          ∙ ap (decide_explained p context)
              (explain-risk_band host p.min_risk p.max_risk r context h),
      ap (λ b. eligible_for p context && b) (result-band_trace p.min_risk p.max_risk r),
    )
