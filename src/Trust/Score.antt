-- ===== src/Trust/Score.antt =====
-- The range of the trust score, what each status says of it, and its order in the risk.
use zero_trust_continuous_au.Base.{
  ℕ, ◌*◌, String, ◌≡◌, ◌≢◌, refl, Bool, true, false, Option, some, List, [], ◌∷◌, length, arith,
  inl, inr, ◌∙◌, sym, if_intro, Bool-cases, if◌then◌else◌,
}
use zero_trust_continuous_au.Base.Int.{ℤ, pos, ◌≤ℤ◌, -ℤ_parts, leb_ℤ, ltb_ℤ, min_ℤ}
use mathlib.Core.Path.{subst}
use zero_trust_continuous_au.Risk.{Tables}
use zero_trust_continuous_au.Trust.{
  Status, trusted, guarded, degraded, untrusted, Reason, base_score, after_incidents, band,
  or_normal, incidents_of, given_risk, history_reasons, evaluate_trust,
}

abbrev pub InScale : ℤ → Type 0
InScale s = (pos 0 ≤ℤ s) × (s ≤ℤ pos 100)

base_score-InScale : (risk : ℤ) → InScale (base_score risk)
unfolding base_score
base_score-InScale risk = ground arith

after_incidents-InScale :
    (is : List String) (c : Bool) (s : ℤ) (rs : List Reason)
    → InScale s
    → InScale (after_incidents is c s rs).0
unfolding after_incidents
after_incidents-InScale [] c s rs h = h
after_incidents-InScale (i ∷ is) c s rs h = ground (arith, -ℤ_parts s (pos (15 * length (i ∷ is))))

-- Where the score lies for a status, with no containment and no critical alert.
abbrev pub InBand : ℤ → Status → Type 0
InBand s trusted = pos 80 ≤ℤ s
InBand s guarded = (pos 50 ≤ℤ s) × (s ≤ℤ pos 79)
InBand s degraded = (pos 20 ≤ℤ s) × (s ≤ℤ pos 49)
InBand s untrusted = s ≤ℤ pos 19

-- What the flags for containment and for critical alerts say of score and status.
abbrev pub Explains : Bool → Bool → ℤ → Status → Type 0
Explains true _ s st = (s ≤ℤ pos 10) × (st ≡ untrusted)
Explains false true s st = (s ≤ℤ pos 30) × (st ≡ degraded)
Explains false false s st = InBand s st

-- The last four branches of `band`, for any reasons.
banded-InBand :
    (s : ℤ) (rs : List Reason) → let (t, st, _) = band (pos 0) (s, false, rs) in InBand t st
unfolding band
banded-InBand s rs =
    let P = λ (r : ℤ × Status × List Reason). InBand r.0 r.1 in
    if_intro P (leb_ℤ (pos 80) s) (λ h. ground arith)
      λ not_80.
        if_intro P (leb_ℤ (pos 50) s) (λ h. ground arith)
          λ not_50. if_intro P (leb_ℤ (pos 20) s) (λ h. ground arith) (λ h. ground arith)

band-Explains :
    (k s : ℤ) (c : Bool) (rs : List Reason)
    → let (t, st, _) = band k (s, c, rs) in Explains c (ltb_ℤ (pos 0) k) t st
unfolding band
band-Explains k s true rs = ground arith
band-Explains k s false rs = elim (Bool-cases (ltb_ℤ (pos 0) k)) [
  | inl alerts ↦ rw (alerts, band) (ground arith)
  | inr quiet ↦ rw (quiet, band) (banded-InBand s rs)
]

band-score :
    (k s : ℤ) (c : Bool) (rs : List Reason)
    → (band k (s, c, rs)).0
      ≡ (if c then min_ℤ s (pos 10) else if ltb_ℤ (pos 0) k then min_ℤ s (pos 30) else s)
unfolding band
band-score k s true rs = refl
band-score k s false rs =
    let P = λ (r : ℤ × Status × List Reason). r.0 ≡ s in
    elim (Bool-cases (ltb_ℤ (pos 0) k)) [
      | inl alerts ↦ rw (alerts, band)
      | inr quiet ↦
          rw (quiet, band)
            (if_intro P (leb_ℤ (pos 80) s) (λ _. refl)
              λ _.
                if_intro P (leb_ℤ (pos 50) s) (λ _. refl)
                  λ _. if_intro P (leb_ℤ (pos 20) s) (λ _. refl) (λ _. refl))
    ]

-- An incident contains the endpoint.
abbrev pub contained_by : List String → Bool → Bool
contained_by [] c = c
contained_by (_ ∷ _) _ = true

after_incidents-contained :
    (is : List String) (c : Bool) (s : ℤ) (rs : List Reason)
    → (after_incidents is c s rs).1 ≡ contained_by is c
unfolding after_incidents
after_incidents-contained [] c s rs = refl
after_incidents-contained (i ∷ is) c s rs = refl

after_incidents-mono :
    (is : List String) (c : Bool) (s t : ℤ) (rs rs' : List Reason)
    → s ≤ℤ t
    → (after_incidents is c s rs).0 ≤ℤ (after_incidents is c t rs').0
unfolding after_incidents
after_incidents-mono [] c s t rs rs' h = h
after_incidents-mono (i ∷ is) c s t rs rs' h =
    let n = pos (15 * length (i ∷ is)) in ground (arith, -ℤ_parts s n, -ℤ_parts t n)

base_score-antitone : (r r' : ℤ) → r ≤ℤ r' → base_score r' ≤ℤ base_score r
unfolding base_score
base_score-antitone r r' h = ground (arith, -ℤ_parts (pos 100) r, -ℤ_parts (pos 100) r')

band-mono :
    (k : ℤ) (r r' : ℤ × Bool × List Reason)
    → r.1 ≡ r'.1
    → r.0 ≤ℤ r'.0
    → (band k r).0 ≤ℤ (band k r').0
band-mono k r r' same h = ground (arith, band-score k r.0 r.1 r.2, band-score k r'.0 r'.1 r'.2)

band-InScale : (k : ℤ) (r : ℤ × Bool × List Reason) → InScale r.0 → InScale (band k r).0
band-InScale k r h = rw (band-score k r.0 r.1 r.2) (ground arith)

module _ (engine : Option Tables) (a : String) (incidents : Option (List String)) where
  -- Whatever the risk, the incidents and the alerts are, the trust score lies from 0 through 100.
  pub evaluate_trust-InScale :
      (risk : Option ℤ) (criticals : ℤ) (contained : Bool) (now : ℕ)
      → InScale (evaluate_trust engine a incidents risk criticals contained now).trust_score
  unfolding evaluate_trust
  evaluate_trust-InScale risk criticals contained now =
      let base = base_score (given_risk engine a risk) in
      let rs = history_reasons engine a in
      band-InScale criticals (after_incidents (incidents_of incidents) contained base rs) (
        after_incidents-InScale (incidents_of incidents) contained base rs
          (base_score-InScale (given_risk engine a risk)))

  -- With containment or an incident the status is UNTRUSTED and the score at most 10; otherwise with
  -- critical alerts it is DEGRADED and the score at most 30; otherwise the status is TRUSTED, GUARDED,
  -- DEGRADED or UNTRUSTED as the score is from 80, from 50 to 79, from 20 to 49, or below 20.
  pub evaluate_trust-Explains :
      (risk : Option ℤ) (criticals : ℤ) (contained : Bool) (now : ℕ)
      → let s = evaluate_trust engine a incidents risk criticals contained now in
        Explains
          (contained_by (incidents_of incidents) contained)
          (ltb_ℤ (pos 0) criticals)
          s.trust_score
          s.status
  unfolding evaluate_trust
  evaluate_trust-Explains risk criticals contained now =
      let is = incidents_of incidents in
      let base = base_score (given_risk engine a risk) in
      let rs = history_reasons engine a in
      let r = after_incidents is contained base rs in
      subst (λ c. Explains c (ltb_ℤ (pos 0) criticals) (band criticals r).0 (band criticals r).1)
        (after_incidents-contained is contained base rs) (band-Explains criticals r.0 r.1 r.2)

  -- With all else equal, a higher risk score never gives a higher trust score.
  pub evaluate_trust-antitone :
      (r r' criticals : ℤ) (contained : Bool) (now : ℕ)
      → r ≤ℤ r'
      → (evaluate_trust engine a incidents (some r') criticals contained now).trust_score
        ≤ℤ (evaluate_trust engine a incidents (some r) criticals contained now).trust_score
  unfolding evaluate_trust given_risk
  evaluate_trust-antitone r r' criticals contained now h =
      let is = incidents_of incidents in
      let rs = history_reasons engine a in
      band-mono criticals (after_incidents is contained (base_score r') rs)
        (after_incidents is contained (base_score r) rs)
        (after_incidents-contained is contained (base_score r') rs
          ∙ sym (after_incidents-contained is contained (base_score r) rs))
        (after_incidents-mono is contained (base_score r') (base_score r) rs rs
          (base_score-antitone r r' h))

  -- There is always a reason.
  pub reasons-ne-nil :
      (risk : Option ℤ) (criticals : ℤ) (contained : Bool) (now : ℕ)
      → (evaluate_trust engine a incidents risk criticals contained now).reasons ≢ []
  unfolding evaluate_trust or_normal
  reasons-ne-nil risk criticals contained now = ground arith
