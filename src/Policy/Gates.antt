-- ===== src/Policy/Gates.antt =====
-- What a policy that triggers has passed.
use zero_trust_continuous_au.Base.{
  ◌≡◌, refl, true, false, none, some, arith, ◌⊎◌, inl, inr, Bool-cases, eq_iff,
}
use zero_trust_continuous_au.Json.{obj, Fields}
use zero_trust_continuous_au.Condition.{Host}
use zero_trust_continuous_au.Condition.Trace.{Trace, result, explain, Explained, refused, explained}
use zero_trust_continuous_au.Condition.Errors.{has_error, explain_error_is_false}
use zero_trust_continuous_au.Policy.{
  Policy, PolicyDecision, evaluate_single_policy, condition_of, decide_explained, eligible_for,
  linked_to, is_offline, is_mode,
}

-- The checks that a policy passes before it triggers.
pub record Passed (host : Host) (p : Policy) (context : Fields) (d : PolicyDecision) : Type 0 where
  pub enabled : p.enabled ≡ true
  pub linked : linked_to p.rule_id context ≡ true
  pub known_mode : (p.mode ≡ "ALERT_ONLY") ⊎ (p.mode ≡ "ENFORCE")
  pub offline : is_offline context ≡ true → p.allow_offline ≡ true
  pub action : d.action ≡ p.action
  pub mode : d.mode ≡ p.mode
  pub trace : Trace
  pub evaluated : explain host (condition_of p) (obj context) ≡ explained (some trace)
  pub met : result trace ≡ true
  pub clean : has_error trace ≡ false

eligible_parts :
    (p : Policy) (context : Fields)
    → eligible_for p context ≡ true
    → (p.enabled ≡ true)
      × (linked_to p.rule_id context ≡ true)
      × (is_mode p.mode ≡ true)
      × (is_offline context ≡ true → p.allow_offline ≡ true)
unfolding eligible_for
eligible_parts p context h = elim (Bool-cases (is_offline context)) [
  | inl offline ↦ ground arith
  | inr online ↦ ground arith
]

module _ (host : Host) (p : Policy) (context : Fields) (d : PolicyDecision) where
  -- A decision that triggered has passed every gate: the policy is enabled, its rule is unset or the
  -- context's, its mode is known, offline use is allowed where the context is offline, and its condition
  -- was evaluated to true with no comparison that ran into a limit or timeout. It has the policy's
  -- action and mode.
  pub triggered-Passed :
      evaluate_single_policy host p context ≡ some d → d.triggered ≡ true → Passed host p context d
  unfolding evaluate_single_policy
  triggered-Passed h t = go (explain host (condition_of p) (obj context)) refl h
    where
      go :
          (x : Explained)
          → explain host (condition_of p) (obj context) ≡ x
          → decide_explained p context x ≡ some d
          → Passed host p context d
      go (explained none) e h = cc
      go (refused y) e h = ground arith
      go (explained (some trace)) e h =
          let eligible : eligible_for p context ≡ true = ground arith in
          let met : result trace ≡ true = ground arith in
          let (enabled, linked, known_mode, offline) = eligible_parts p context eligible in
          record {
            enabled = enabled;
            linked = linked;
            known_mode = ground (arith, eq_iff p.mode "ALERT_ONLY", eq_iff p.mode "ENFORCE");
            offline = offline;
            action = ground arith;
            mode = ground arith;
            trace = trace;
            evaluated = e;
            met = met;
            clean = elim (Bool-cases (has_error trace)) [
              | inl bad ↦
                  cc (
                    (explain_error_is_false host (condition_of p) (obj context) trace e bad).0,
                    met,
                  )
              | inr good ↦ good
            ];
          }
