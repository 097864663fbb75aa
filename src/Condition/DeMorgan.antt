-- ===== src/Condition/DeMorgan.antt =====
-- De Morgan's law for condition trees: a NOT over an AND against the OR of the negated children.
use zero_trust_continuous_au.Base.{◌≡◌, refl, sym, ◌∙◌, false, some, not, arith}
use zero_trust_continuous_au.Json.{Value, arr, obj, Items, nil, cons, end, field}
use zero_trust_continuous_au.Condition.{Host}
use zero_trust_continuous_au.Condition.Trace.{Trace, result, explain, explained}
use zero_trust_continuous_au.Condition.Errors.{has_error}
use zero_trust_continuous_au.Condition.Meaning.{holds, every_holds, some_holds, explain-holds}

abbrev pub negation : Value → Value
negation v = obj (field "not" v end)

abbrev pub conjunction : Items → Value
conjunction vs = obj (field "all" (arr vs) end)

abbrev pub disjunction : Items → Value
disjunction vs = obj (field "any" (arr vs) end)

abbrev pub negations : Items → Items
negations nil = nil
negations (cons v vs) = cons (negation v) (negations vs)

module _ (host : Host) (context : Value) where
  some_holds-negations :
      (vs : Items) → some_holds host context (negations vs) ≡ not (every_holds host context vs)
  unfolding holds
  some_holds-negations nil = refl
  some_holds-negations (cons v vs) = ground (arith, some_holds-negations vs)

  holds_de_morgan :
      (vs : Items)
      → holds host context (negation (conjunction vs))
        ≡ holds host context (disjunction (negations vs))
  unfolding holds
  holds_de_morgan vs = sym (some_holds-negations vs)

  -- If both conditions are evaluated without errors, then NOT of AND gives the result of OR of the NOTs.
  pub explain_de_morgan :
      (vs : Items) (t u : Trace)
      → explain host (negation (conjunction vs)) context ≡ explained (some t)
      → explain host (disjunction (negations vs)) context ≡ explained (some u)
      → has_error t ≡ false
      → has_error u ≡ false
      → result t ≡ result u
  explain_de_morgan vs t u et eu qt qu =
      explain-holds host context (negation (conjunction vs)) t et qt
      ∙ holds_de_morgan vs
      ∙ sym (explain-holds host context (disjunction (negations vs)) u eu qu)
