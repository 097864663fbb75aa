-- ===== src/Trust.antt =====
-- engine/trust/engine.py: the trust state of an endpoint from its risk, incidents and alerts.
pub mod Score
mod Tests
use zero_trust_continuous_au.Base.{
  ℕ, ◌-◌, ◌*◌, String, Bool, true, false, Option, none, some, List, [], ◌∷◌, ◌++◌, length, drop,
  if◌then◌else◌,
}
use zero_trust_continuous_au.Base.Int.{ℤ, pos, ◌-ℤ◌, ltb_ℤ, leb_ℤ, max_ℤ, min_ℤ}
use zero_trust_continuous_au.Risk.{RiskEvent, Tables, get_score, get_history}
use zero_trust_continuous_au.Risk as Risk

pub data Status : Type 0 where
  trusted guarded degraded untrusted : Status

-- The texts that `reasons` collects, by what they say.
pub data Reason : Type 0 where
  risk_increase : ℤ → Risk.Reason → Reason
  containment_incidents : ℕ → Reason
  under_containment : Reason
  critical_alerts : ℤ → Reason
  normal_activity : Reason

pub record TrustState : Type 0 where
  pub agent_id : String
  pub trust_score : ℤ
  pub status : Status
  pub reasons : List Reason
  pub timestamp : ℕ

-- The loop over the last three events of the history.
unfoldable pub increases : List RiskEvent → List Reason
increases [] = []
increases (e ∷ es) =
    let rest = increases es in
    if ltb_ℤ (pos 0) e.delta then risk_increase e.delta e.reason ∷ rest else rest

unfoldable pub recent : List RiskEvent → List RiskEvent
recent history = drop (length history - 3) history

-- `self.risk_engine` is an optional engine.
unfoldable pub given_risk : Option Tables → String → Option ℤ → ℤ
given_risk engine a (some risk) = risk
given_risk none a none = pos 0
given_risk (some t) a none = get_score t a

unfoldable pub history_reasons : Option Tables → String → List Reason
unfolding increases recent
history_reasons none a = []
history_reasons (some t) a = increases (recent (get_history t a))

unfoldable pub base_score : ℤ → ℤ
base_score risk = max_ℤ (pos 0) (min_ℤ (pos 100) (pos 100 -ℤ risk))

-- The score, the containment flag and the reasons after `if active_incidents`.
unfoldable pub after_incidents : List String → Bool → ℤ → List Reason → ℤ × Bool × List Reason
after_incidents [] contained score reasons = (score, contained, reasons)
after_incidents (i ∷ is) contained score reasons = (
  max_ℤ (pos 0) (score -ℤ pos (15 * length (i ∷ is))),
  true,
  reasons ++ containment_incidents (length (i ∷ is)) ∷ [],
)

-- The final chain of `if` and `elif`.
unfoldable pub band : ℤ → ℤ × Bool × List Reason → ℤ × Status × List Reason
band criticals (score, contained, reasons) =
    if contained
    then (min_ℤ score (pos 10), untrusted, reasons ++ under_containment ∷ [])
    else if ltb_ℤ (pos 0) criticals
    then (min_ℤ score (pos 30), degraded, reasons ++ critical_alerts criticals ∷ [])
    else if leb_ℤ (pos 80) score
    then (score, trusted, reasons)
    else if leb_ℤ (pos 50) score
    then (score, guarded, reasons)
    else if leb_ℤ (pos 20) score
    then (score, degraded, reasons)
    else (score, untrusted, reasons)

unfoldable pub or_normal : List Reason → List Reason
or_normal [] = normal_activity ∷ []
or_normal (r ∷ rs) = r ∷ rs

-- `active_incidents` is `none` or a list; both `None` and the empty list are false.
unfoldable pub incidents_of : Option (List String) → List String
incidents_of none = []
incidents_of (some is) = is

unfoldable pub evaluate_trust :
    Option Tables → String → Option (List String) → Option ℤ → ℤ → Bool → ℕ → TrustState
evaluate_trust engine a incidents risk criticals contained now =
    let (score, status, reasons) = band criticals (
      after_incidents (incidents_of incidents) contained (base_score (given_risk engine a risk))
        (history_reasons engine a)) in
    record {
      agent_id = a;
      trust_score = score;
      status = status;
      reasons = or_normal reasons;
      timestamp = now;
    }
