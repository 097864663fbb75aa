-- ===== src/Risk/Effects.antt =====
-- What one call on `ZTARiskEngine` changes, and what it leaves alone.
use zero_trust_continuous_au.Base.{
  ℕ, String, ◌≡◌, ◌≢◌, refl, Option, none, some, List, [], ◌∷◌, ◌++◌, arith, eq_iff, ◌≤◌, inl, inr,
  Option-cases, if_intro,
}
use zero_trust_continuous_au.Base.Int.{ℤ, pos, ◌+ℤ◌, ◌≤ℤ◌, -ℤ_parts, leb_ℤ, sub_ℕ}
use zero_trust_continuous_au.Base.Dict.{lookup, lookup-insert, get_or-insert_self}
use zero_trust_continuous_au.Risk.{
  Floats, RiskEvent, Tables, Limits, get_score, get_history, clamp, record_event, delta_event,
  apply_delta, Decay, append_decay, decay_event, decay_since, apply_decay, Op, delta, decay, step,
  get_risk_level, Level, low, medium, high, critical,
}

-- The tables say the same of agent `b`.
pub record SameFor (b : String) (t u : Tables) : Type 0 where
  pub score : lookup b u.scores ≡ lookup b t.scores
  pub updated : lookup b u.last_update ≡ lookup b t.last_update
  pub events : lookup b u.history ≡ lookup b t.history

SameFor-refl : (b : String) (t : Tables) → SameFor b t t
SameFor-refl b t = record { score = refl; updated = refl; events = refl }

record_event-SameFor :
    (b : String) (e : RiskEvent) (t : Tables) → e.agent_id ≢ b → SameFor b t (record_event e t)
unfolding record_event
record_event-SameFor b e t ne = record {
  score = simp lookup-insert (ground (arith, eq_iff e.agent_id b));
  updated = simp lookup-insert (ground (arith, eq_iff e.agent_id b));
  events = simp lookup-insert (ground (arith, eq_iff e.agent_id b));
}

append_decay-SameFor :
    (fl : Floats) (b : String) (e : RiskEvent) (t : Tables) (h : Option (List RiskEvent))
    → e.agent_id ≢ b
    → SameFor b t (append_decay fl e t h).0
unfolding append_decay
append_decay-SameFor fl b e t (some h) ne = record_event-SameFor b e t ne
append_decay-SameFor fl b e t none ne = record {
  score = simp lookup-insert (ground (arith, eq_iff e.agent_id b));
  updated = simp lookup-insert (ground (arith, eq_iff e.agent_id b));
  events = refl;
}

module _ (fl : Floats) where
  open fl use {Float, minutes, below_one, int_mul}

  abbrev pub target : Op fl → String
  target (delta a _ _ _ _ _) = a
  target (decay a _) = a

  decay_since-SameFor :
      (l : Limits) (rate : Float) (a b : String) (now : ℕ) (t : Tables) (last : ℕ)
      → a ≢ b
      → SameFor b t (decay_since fl l rate a now t last).0
  unfolding decay_since decay_event
  decay_since-SameFor l rate a b now t last ne =
      let elapsed = minutes (sub_ℕ now last) in
      let P = λ (r : Tables × Decay). SameFor b t r.0 in
      if_intro P (below_one elapsed) (λ _. SameFor-refl b t)
        λ _.
          if_intro P (leb_ℤ (int_mul elapsed rate) (pos 0)) (λ _. SameFor-refl b t)
            λ _.
              if_intro P (leb_ℤ (get_score t a) l.min_score) (λ _. SameFor-refl b t)
                λ _. append_decay-SameFor fl b _ t (lookup a t.history) ne

  -- A call for one agent leaves the score, the time and the history of every other agent.
  pub step-SameFor :
      (l : Limits) (rate : Float) (op : Op fl) (b : String) (t : Tables)
      → target op ≢ b
      → SameFor b t (step fl l rate op t)
  unfolding step apply_delta apply_decay delta_event
  step-SameFor l rate (delta a d reason f ts now) b t ne = record_event-SameFor b _ t ne
  step-SameFor l rate (decay a now) b t ne = elim (Option-cases (lookup a t.last_update)) [
    | inl unseen ↦ rw (unseen, step, apply_decay) (SameFor-refl b t)
    | inr (last, e) ↦ rw (e, step, apply_decay) (decay_since-SameFor l rate a b now t last ne)
  ]

  append_decay-score :
      (e : RiskEvent) (t : Tables) (h : Option (List RiskEvent))
      → get_score (append_decay fl e t h).0 e.agent_id ≡ e.new_score
  unfolding append_decay get_score record_event
  append_decay-score e t none = rw get_or-insert_self
  append_decay-score e t (some h) = rw get_or-insert_self

  decay_since-le :
      (l : Limits) (rate : Float) (a : String) (now : ℕ) (t : Tables) (last : ℕ)
      → (get_score (decay_since fl l rate a now t last).0 a ≤ℤ get_score t a)
  unfolding decay_since decay_event
  decay_since-le l rate a now t last =
      let elapsed = minutes (sub_ℕ now last) in
      let amount = int_mul elapsed rate in
      let P = λ (r : Tables × Decay). get_score r.0 a ≤ℤ get_score t a in
      if_intro P (below_one elapsed) (λ _. ground arith)
        λ _.
          if_intro P (leb_ℤ amount (pos 0)) (λ _. ground arith)
            λ positive.
              if_intro P (leb_ℤ (get_score t a) l.min_score) (λ _. ground arith)
                λ above. rw append_decay-score (ground (arith, -ℤ_parts (get_score t a) amount))

  -- `apply_decay` never raises the score of its agent.
  pub apply_decay-le :
      (l : Limits) (rate : Float) (a : String) (now : ℕ) (t : Tables)
      → get_score (apply_decay fl l rate a now t).0 a ≤ℤ get_score t a
  unfolding apply_decay
  apply_decay-le l rate a now t = elim (Option-cases (lookup a t.last_update)) [
    | inl unseen ↦ rw (unseen, apply_decay) (ground arith)
    | inr (last, e) ↦ rw (e, apply_decay) (decay_since-le l rate a now t last)
  ]

-- `apply_delta` sets the score of its agent to the clamped sum, and its history ends in the event
-- that it returns.
pub apply_delta_effect :
    (l : Limits) (a : String) (d : ℤ) (reason : String) (f : Option String) (ts : Option ℕ)
    (now : ℕ) (t : Tables)
    → let (u, e) = apply_delta l a d reason f ts now t in
      (get_score u a ≡ clamp l (get_score t a +ℤ d)) × (get_history u a ≡ get_history t a ++ e ∷ [])
unfolding apply_delta delta_event record_event get_score get_history
apply_delta_effect l a d reason f ts now t = (rw get_or-insert_self, rw get_or-insert_self)

abbrev pub rank : Level → ℕ
rank low = 0
rank medium = 1
rank high = 2
rank critical = 3

-- A higher score never has a lower risk level.
pub get_risk_level_mono :
    (t u : Tables) (a b : String)
    → get_score t a ≤ℤ get_score u b
    → rank (get_risk_level t a) ≤ rank (get_risk_level u b)
unfolding get_risk_level
get_risk_level_mono t u a b h = ground arith
