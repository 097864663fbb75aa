-- ===== src/Risk/Bounds.antt =====
-- What the operations of `ZTARiskEngine` keep: the range of every score, and the linked history.
use zero_trust_continuous_au.Base.{
  ℕ, String, ◌≡◌, ◌≢◌, refl, Option, none, some, List, [], ◌∷◌, arith, inl, inr, Option-cases,
  false, if_intro,
}
use zero_trust_continuous_au.Base.Int.{ℤ, pos, ◌+ℤ◌, ◌-ℤ◌, ◌≤ℤ◌, -ℤ_parts, leb_ℤ, max_ℤ, sub_ℕ}
use zero_trust_continuous_au.Base.Dict.{lookup, get_or}
use zero_trust_continuous_au.Risk.{
  Floats, RiskEvent, Tables, Limits, fresh, get_score, clamp, record_event, delta_event,
  apply_delta, Decay, key_error, append_decay, decay_event, decay_since, apply_decay, Op, delta,
  decay, step, run,
}
use zero_trust_continuous_au.Risk.History.{IsValid, Within, Agrees, record_event-IsValid}

pub clamp-Within : (l : Limits) (x : ℤ) → l.min_score ≤ℤ l.max_score → Within l (clamp l x)
unfolding clamp
clamp-Within l x h = ground arith

pub apply_delta-IsValid :
    (l : Limits) (a : String) (d : ℤ) (reason : String) (f : Option String) (ts : Option ℕ)
    (now : ℕ) (t : Tables)
    → l.min_score ≤ℤ l.max_score
    → IsValid l t
    → IsValid l (apply_delta l a d reason f ts now t).0
unfolding apply_delta delta_event
apply_delta-IsValid l a d reason f ts now t ok v =
    record_event-IsValid l t _ refl (clamp-Within l (get_score t a +ℤ d) ok) v

-- A known agent's score is in range.
known_score-Within :
    (l : Limits) (t : Tables) (a : String) (last : ℕ)
    → IsValid l t
    → lookup a t.last_update ≡ some last
    → Within l (get_score t a) × (lookup a t.history ≢ none)
unfolding get_score get_or
known_score-Within l t a last v =
    go (lookup a t.scores) (lookup a t.last_update) (lookup a t.history) (v.at a)
  where
    go :
        (s : Option ℤ) (u : Option ℕ) (h : Option (List RiskEvent))
        → Agrees l s u h
        → u ≡ some last
        → Within l (elim s [ none ↦ pos 0 | some x ↦ x ]) × (h ≢ none)
    go none none none g e = cc
    go (some s) (some u) (some h) g e = (g.0, λ p. cc)
    go none none (some h) g e = absurd g
    go none (some u) h g e = absurd g
    go (some s) none h g e = absurd g
    go (some s) (some u) none g e = absurd g

pub decayed-Within :
    (l : Limits) (s : ℤ) (amount : ℤ)
    → Within l s
    → leb_ℤ amount (pos 0) ≡ false
    → Within l (max_ℤ l.min_score (s -ℤ amount))
decayed-Within l s amount w p = ground (arith, -ℤ_parts s amount)

module _ (fl : Floats) where
  open fl use {Float, minutes, below_one, int_mul}

  -- The call leaves valid tables and does not raise.
  abbrev Sound : Limits → Tables × Decay → Type 0
  Sound l r = IsValid l r.0 × (r.1 ≢ key_error)

  append_decay-Sound :
      (l : Limits) (t : Tables) (e : RiskEvent) (h : Option (List RiskEvent))
      → h ≢ none
      → IsValid l (record_event e t)
      → Sound l (append_decay fl e t h)
  unfolding append_decay
  append_decay-Sound l t e none known v = absurd (known refl)
  append_decay-Sound l t e (some h) known v = (v, λ p. cc)

  decay_since-Sound :
      (l : Limits) (rate : Float) (a : String) (now : ℕ) (t : Tables) (last : ℕ)
      → IsValid l t
      → lookup a t.last_update ≡ some last
      → Sound l (decay_since fl l rate a now t last)
  unfolding decay_since decay_event
  decay_since-Sound l rate a now t last v known =
      let (within, has_history) = known_score-Within l t a last v known in
      let elapsed = minutes (sub_ℕ now last) in
      if_intro (Sound l) (below_one elapsed) (λ _. (v, λ p. cc))
        λ _.
          if_intro (Sound l) (leb_ℤ (int_mul elapsed rate) (pos 0)) (λ _. (v, λ p. cc))
            λ positive.
              if_intro (Sound l) (leb_ℤ (get_score t a) l.min_score) (λ _. (v, λ p. cc))
                λ _. append_decay-Sound l t _ (lookup a t.history) has_history (
                  record_event-IsValid l t _ refl
                    (decayed-Within l (get_score t a) _ within positive) v)

  pub apply_decay-Sound :
      (l : Limits) (rate : Float) (a : String) (now : ℕ) (t : Tables)
      → IsValid l t
      → Sound l (apply_decay fl l rate a now t)
  unfolding apply_decay
  apply_decay-Sound l rate a now t v = elim (Option-cases (lookup a t.last_update)) [
    | inl unseen ↦ rw (unseen, apply_decay) (v, λ p. cc)
    | inr (last, e) ↦ rw (e, apply_decay) (decay_since-Sound l rate a now t last v e)
  ]

  -- In tables that satisfy the invariant `apply_decay` never raises the `KeyError` of its last append.
  pub apply_decay_no_key_error :
      (l : Limits) (rate : Float) (a : String) (now : ℕ) (t : Tables)
      → IsValid l t
      → (apply_decay fl l rate a now t).1 ≢ key_error
  apply_decay_no_key_error l rate a now t v = (apply_decay-Sound l rate a now t v).1

  step-IsValid :
      (l : Limits) (rate : Float) (op : Op fl) (t : Tables)
      → l.min_score ≤ℤ l.max_score
      → IsValid l t
      → IsValid l (step fl l rate op t)
  unfolding step
  step-IsValid l rate (delta a d reason f ts now) t ok v =
      apply_delta-IsValid l a d reason f ts now t ok v
  step-IsValid l rate (decay a now) t ok v = (apply_decay-Sound l rate a now t v).0

  -- If `min_score` is at most `max_score`, then any sequence of `apply_delta` and `apply_decay` calls
  -- keeps the invariant: for each agent the three dicts agree, the score is between the limits, the
  -- history leads event by event from 0 to the score.
  pub run-IsValid :
      (l : Limits) (rate : Float) (ops : List (Op fl)) (t : Tables)
      → l.min_score ≤ℤ l.max_score
      → IsValid l t
      → IsValid l (run fl l rate ops t)
  unfolding run
  run-IsValid l rate [] t ok v = v
  run-IsValid l rate (op ∷ ops) t ok v =
      run-IsValid l rate ops (step fl l rate op t) ok (step-IsValid l rate op t ok v)

pub fresh-IsValid : (l : Limits) → IsValid l fresh
unfolding lookup
fresh-IsValid l = record { at = λ a. tt }
