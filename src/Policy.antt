-- ===== src/Policy.antt =====
-- engine/policy/engine.py: policies, their order, and the decision for an agent. A policy is a
-- `ZTAPolicy`; the branches of the code for a policy that is a plain dict are not modelled. A decision's
-- fresh identifier and time are left out.
pub mod Select
pub mod Gates
pub mod Defaults
mod Tests
use zero_trust_continuous_au.Base.{
  ℕ, String, Bool, true, false, not, ◌&&◌, ◌||◌, Option, none, some, List, [], ◌∷◌, str_eq,
  if◌then◌else◌,
}
use zero_trust_continuous_au.Base.Int.{ℤ, pos, negsuc}
use zero_trust_continuous_au.Base.Order.{Order, int_order, text_order, pair_order, sort}
use zero_trust_continuous_au.Json.{
  Value, null, bool, int, str, arr, obj, nil, cons, Fields, end, field, get, value_eq, truthy,
}
use zero_trust_continuous_au.Json.Text.{is_empty}
use zero_trust_continuous_au.Condition.{Host, Invalid, or_null}
use zero_trust_continuous_au.Condition.Trace.{Trace, result, explain, Explained, refused, explained}

pub record Policy : Type 0 where
  pub policy_id : String
  pub name : String
  pub min_risk : ℤ
  pub max_risk : ℤ
  pub action : String
  pub enabled : Bool
  pub code : Option String
  pub category : String
  pub severity : String
  pub rule_id : Option String
  pub risk_threshold : ℤ
  pub mode : String
  pub condition : Option Value
  pub allow_offline : Bool
  pub priority : ℤ

-- The texts of `reason`, by what they say.
pub data Reason : Type 0 where
  condition_matched : Reason
  not_met : Reason
  condition_invalid : Invalid → Reason

-- `evaluation_result` and `triggered` are one Boolean.
pub record PolicyDecision : Type 0 where
  pub policy_name : String
  pub agent_id : Value
  pub action : String
  pub reason : Reason
  pub trigger_risk_score : Value
  pub trigger_trust_score : Value
  pub policy_id : String
  pub policy_code : String
  pub mode : String
  pub triggered : Bool
  pub eligible : Bool
  -- the evidence tree; `none` where the condition was refused
  pub condition_trace : Option Trace

-- Python's `str` of an optional text.
abbrev pub str_of : Option String → String
str_of none = "None"
str_of (some s) = s

-- Tuples are compared from the left.
abbrev pub key_order : Order (ℤ × (String × String))
key_order = pair_order int_order (pair_order text_order text_order)

-- `context.get(k)` of a dict
abbrev pub at : String → Fields → Value
at k context = or_null (get k context)

-- `value("rule_id")` is missing, empty, or names the rule of the context.
unfoldable pub linked_to : Option String → Fields → Bool
linked_to none context = true
linked_to (some rule) context =
    is_empty rule
    || value_eq (str rule) (at "rule_id" context)
    || value_eq (str rule) (at "rule_code" context)

abbrev pub is_mode : String → Bool
is_mode mode = str_eq mode "ALERT_ONLY" || str_eq mode "ENFORCE"

unfoldable pub is_offline : Fields → Bool
is_offline context = value_eq (at "execution_source" context) (str "AGENT_OFFLINE")

unfoldable pub eligible_for : Policy → Fields → Bool
eligible_for p context =
    let eligible = p.enabled && linked_to p.rule_id context && is_mode p.mode in
    if is_offline context then eligible && p.allow_offline else eligible

abbrev pub compare_risk : String → ℤ → Value
compare_risk op n =
    obj (field "field" (str "risk_score") (field "op" (str op) (field "value" (int n) end)))

-- The condition that the risk limits stand for.
unfoldable pub risk_band : ℤ → ℤ → Value
risk_band low high =
    obj (field "all" (arr (cons (compare_risk "gte" low) (cons (compare_risk "lte" high) nil))) end)

-- `value("condition") or value("condition_tree")`, and the default where that is `None`.
unfoldable pub condition_of : Policy → Value
unfolding risk_band
condition_of p = elim p.condition [
  | none ↦ risk_band p.min_risk p.max_risk
  | some c ↦ if truthy c then c else risk_band p.min_risk p.max_risk
]

abbrev pub or_text : Option String → String → String
or_text none s = s
or_text (some t) s = if is_empty t then s else t

-- `{**context, k: v}`
unfoldable pub set_field : String → Value → Fields → Fields
set_field k v end = field k v end
set_field k v (field j w fs) = if str_eq j k then field k v fs else field j w (set_field k v fs)

unfoldable pub get_or_value : String → Value → Fields → Value
get_or_value k v fs = elim (get k fs) [ none ↦ v | some w ↦ w ]

unfoldable pub decide : Policy → Fields → Bool → Reason → Bool → Option Trace → PolicyDecision
decide p context triggered reason eligible trace = record {
  policy_name = p.name;
  agent_id = get_or_value "agent_id" (str String.[]) context;
  action = p.action;
  reason = reason;
  trigger_risk_score = get_or_value "risk_score" (int (pos 0)) context;
  trigger_trust_score = get_or_value "trust_score" (int (pos 100)) context;
  policy_id = p.policy_id;
  policy_code = or_text p.code p.policy_id;
  mode = p.mode;
  triggered = triggered;
  eligible = eligible;
  condition_trace = trace;
}

-- The `try` around `explain`: a refused condition is caught, and does not trigger.
unfoldable pub decide_explained : Policy → Fields → Explained → Option PolicyDecision
unfolding decide
decide_explained p context (explained none) = none
decide_explained p context (explained (some t)) =
    let triggered = eligible_for p context && result t in
    some (
      decide p context triggered (if triggered then condition_matched else not_met)
        (eligible_for p context) (some t))
decide_explained p context (refused e) =
    some (decide p context false (condition_invalid e) (eligible_for p context) none)

-- What `evaluate` gives: a decision, `None`, or a case that the model does not follow.
pub data Outcome : Type 0 where
  decided : PolicyDecision → Outcome
  no_decision : Outcome
  not_followed : Outcome

module _ (host : Host) where
  -- `policy_sort_key`
  unfoldable pub policy_sort_key : Policy → ℤ × (String × String)
  policy_sort_key p = (p.priority, (host.casefold (str_of p.code), host.casefold p.policy_id))

  -- `none` stands for a condition that the model does not follow.
  unfoldable pub evaluate_single_policy : Policy → Fields → Option PolicyDecision
  unfolding decide_explained condition_of
  evaluate_single_policy p context =
      decide_explained p context (explain host (condition_of p) (obj context))

  -- The first decision of the loop that has triggered.
  unfoldable pub first_triggered : List Policy → Fields → Outcome
  first_triggered [] context = no_decision
  first_triggered (p ∷ ps) context =
      let rest = first_triggered ps context in
      elim (evaluate_single_policy p context) [
        | none ↦ not_followed
        | some d ↦ if d.triggered then decided d else rest
      ]

  unfoldable pub eval_context : String → ℤ → ℤ → Fields → Fields
  unfolding set_field
  eval_context agent_id risk trust context =
      set_field "trust_score" (int trust)
        (set_field "risk_score" (int risk) (set_field "agent_id" (str agent_id) context))

  unfoldable pub evaluate : List Policy → String → ℤ → ℤ → Fields → Outcome
  unfolding first_triggered eval_context
  evaluate policies agent_id risk trust context =
      first_triggered (sort key_order policy_sort_key policies)
        (eval_context agent_id risk trust context)

abbrev pub default_policy : String → String → ℕ → ℕ → String → String → String → Bool → Policy
default_policy policy_id name low high action code mode offline = record {
  policy_id = policy_id;
  name = name;
  min_risk = pos low;
  max_risk = pos high;
  action = action;
  enabled = true;
  code = some code;
  category = "general";
  severity = "HIGH";
  rule_id = none;
  risk_threshold = pos 85;
  mode = mode;
  condition = none;
  allow_offline = offline;
  priority = pos 1000;
}

-- The policies of an engine that is given none.
unfoldable pub default_policies : List Policy
default_policies =
    default_policy "pol-001" "Baseline Monitoring" 0 29 "MONITOR" "POL-001" "ALERT_ONLY" false
    ∷ default_policy "pol-002" "Medium Risk Alert" 30 59 "ALERT" "POL-002" "ALERT_ONLY" false
    ∷ default_policy "pol-003" "High Risk SOC Escalation" 60 84 "NOTIFY_SOC" "POL-003" "ALERT_ONLY"
        false
    ∷ default_policy "pol-004" "Critical Risk Containment" 85 100 "ISOLATE_ENDPOINT" "POL-004"
        "ENFORCE" false
    ∷ default_policy "pol-005" "Critical Login & Session Protection" 85 100 "LOGOUT_USER"
        "POL-LOGOUT-001" "ENFORCE" true
    ∷ []
