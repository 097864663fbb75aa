-- ===== src/Risk/History.antt =====
-- The invariant of the tables of `ZTARiskEngine`: what the three dicts say of one agent fits together.
use zero_trust_continuous_au.Base.{
  ℕ, String, ◌≡◌, refl, Option, none, some, List, [], ◌∷◌, ◌++◌, arith, str_eq, inl, inr,
  Bool-cases,
}
use zero_trust_continuous_au.Base.Int.{ℤ, pos, ◌≤ℤ◌}
use zero_trust_continuous_au.Base.Dict.{lookup, get_or, lookup-insert}
use zero_trust_continuous_au.Risk.{RiskEvent, Tables, Limits, get_score, get_history, record_event}

-- Each event starts at the score that the one before it left.
abbrev pub Linked : ℤ → List RiskEvent → ℤ → Type 0
Linked from [] to = from ≡ to
Linked from (e ∷ es) to = (e.previous_score ≡ from) × Linked e.new_score es to

abbrev pub Within : Limits → ℤ → Type 0
Within l s = (l.min_score ≤ℤ s) × (s ≤ℤ l.max_score)

-- An agent is unknown to all three dicts, or its score is in range and is where its history ends.
abbrev pub Agrees : Limits → Option ℤ → Option ℕ → Option (List RiskEvent) → Type 0
Agrees l none none none = Unit
Agrees l (some s) (some _) (some h) = Within l s × Linked (pos 0) h s
Agrees l _ _ _ = ⊥

pub record IsValid (l : Limits) (t : Tables) : Type 0 where
  pub at : (a : String) → Agrees l (lookup a t.scores) (lookup a t.last_update) (lookup a t.history)

pub Linked-append :
    (from : ℤ) (h : List RiskEvent) {to : ℤ} (e : RiskEvent)
    → Linked from h to
    → e.previous_score ≡ to
    → Linked from (h ++ e ∷ []) e.new_score
Linked-append from [] e p q = (ground arith, refl)
Linked-append from (x ∷ h) e p q = (p.0, Linked-append x.new_score h e p.1 q)

-- Whatever the dicts hold, the history of an agent leads from 0 to its score.
pub history-Linked :
    (l : Limits) (t : Tables) (a : String)
    → IsValid l t
    → Linked (pos 0) (get_history t a) (get_score t a)
unfolding get_history get_score get_or
history-Linked l t a v =
    go (lookup a t.scores) (lookup a t.last_update) (lookup a t.history) (v.at a)
  where
    go :
        (s : Option ℤ) (u : Option ℕ) (h : Option (List RiskEvent))
        → Agrees l s u h
        → Linked (pos 0) (elim h [ none ↦ [] | some x ↦ x ]) (elim s [ none ↦ pos 0 | some x ↦ x ])
    go none none none g = refl
    go (some s) (some u) (some h) g = g.1
    go none none (some h) g = absurd g
    go none (some u) h g = absurd g
    go (some s) none h g = absurd g
    go (some s) (some u) none g = absurd g

-- Recording an event that continues the agent's history keeps the invariant.
pub record_event-IsValid :
    (l : Limits) (t : Tables) (e : RiskEvent)
    → e.previous_score ≡ get_score t e.agent_id
    → Within l e.new_score
    → IsValid l t
    → IsValid l (record_event e t)
unfolding record_event
record_event-IsValid l t e p w v = record {
  at = λ a. simp lookup-insert (elim (Bool-cases (str_eq e.agent_id a)) [
    | inl same ↦
        rw same (
          w,
          Linked-append (pos 0) (get_history t e.agent_id) e (history-Linked l t e.agent_id v) p,
        )
    | inr other ↦ rw other (v.at a)
  ]);
}
