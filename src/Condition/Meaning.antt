-- ===== src/Condition/Meaning.antt =====
-- The truth of a condition apart from its trace, and the Boolean laws that follow for `explain`.
use zero_trust_continuous_au.Base.{
  ◌≡◌, refl, sym, ap, Bool, true, false, Option, none, some, str_eq, arith, if◌then◌else◌, not,
  ◌&&◌, ◌||◌, Bool-cases, inl, inr, if_intro,
}
use mathlib.Core.Path.{subst}
use zero_trust_continuous_au.Json.{Value, arr, obj, Items, nil, cons, Fields, end, field, get}
use zero_trust_continuous_au.Condition.{Host, has_group}
use zero_trust_continuous_au.Condition.Trace.{
  Trace, Traces, none_left, one_more, result, error, combine, evaluate_leaf, evaluate_node,
  evaluate_object, evaluate_group, evaluate_items, close_gate, close_with, only, join, explain,
  explained, Logic, and, or, not_, all_results, any_results, first_error,
}
use zero_trust_continuous_au.Condition.Errors.{
  has_error, have_error, explain-evaluate, IsHonest, Whenever, node-Honest,
}

-- The result of a comparison; a condition that cannot be compared is not met.
abbrev compared : Option Trace → Bool
compared none = false
compared (some t) = result t

module _ (host : Host) (context : Value) where
  -- AND and OR stop at the first child that decides them.
  unfoldable mutual
    pub holds : Value → Bool
    holds (obj fs) = object_holds fs
    holds v = false

    pub object_holds : Fields → Bool
    object_holds (field k v end) =
        if str_eq k "not"
        then not (holds v)
        else if str_eq k "all"
        then all_hold v
        else if str_eq k "any"
        then any_holds v
        else compared (
            evaluate_leaf host (get "field" (field k v end)) (get "op" (field k v end))
              (field k v end) context)
    object_holds fs = compared (evaluate_leaf host (get "field" fs) (get "op" fs) fs context)

    pub all_hold : Value → Bool
    all_hold (arr vs) = every_holds vs
    all_hold v = false

    pub any_holds : Value → Bool
    any_holds (arr vs) = some_holds vs
    any_holds v = false

    pub every_holds : Items → Bool
    every_holds nil = true
    every_holds (cons v vs) = holds v && every_holds vs

    pub some_holds : Items → Bool
    some_holds nil = false
    some_holds (cons v vs) = holds v || some_holds vs

  error-none : (t : Trace) → IsHonest t → has_error t ≡ false → error t ≡ none
  error-none t honest quiet = ground arith

  -- A trace without errors has this result.
  abbrev Means : Option Trace → Bool → Type 0
  Means o b = (t : Trace) → o ≡ some t → has_error t ≡ false → result t ≡ b

  abbrev AllMean : Option Traces → Bool → Bool → Type 0
  AllMean o every any_one =
      (ts : Traces)
      → o ≡ some ts
      → have_error ts ≡ false
      → (all_results ts ≡ every) × (any_results ts ≡ any_one) × (first_error ts ≡ none)

  result-close :
      (g : Logic) (ts : Traces) → first_error ts ≡ none → result (close_gate g ts) ≡ combine g ts
  unfolding close_gate
  result-close g ts e = ground arith

  -- The errors of a closed gate are those of its children.
  has_error-close : (g : Logic) (ts : Traces) → has_error (close_gate g ts) ≡ have_error ts
  unfolding close_gate has_error
  has_error-close g ts = ground arith

  close_and-Means :
      (o : Option Traces) (a b : Bool) → AllMean o a b → Means (close_with host and o) a
  close_and-Means none a b h t e quiet = cc
  close_and-Means (some ts) a b h t e quiet =
      let (every, _, clean) = h ts refl (ground (arith, has_error-close and ts)) in
      ground (arith, result-close and ts clean)

  close_or-Means : (o : Option Traces) (a b : Bool) → AllMean o a b → Means (close_with host or o) b
  close_or-Means none a b h t e quiet = cc
  close_or-Means (some ts) a b h t e quiet =
      let (_, any_one, clean) = h ts refl (ground (arith, has_error-close or ts)) in
      ground (arith, result-close or ts clean)

  close_not-Means :
      (o : Option Trace) (a : Bool)
      → Whenever IsHonest o
      → Means o a
      → Means (close_with host not_ (only host o)) (not a)
  unfolding has_error
  close_not-Means none a hon h t e quiet = cc
  close_not-Means (some u) a hon h t e quiet =
      let clean : has_error u ≡ false =
        ground (arith, has_error-close not_ (one_more u none_left)) in
      ground
        (arith, h u refl clean, error-none u hon clean, result-close not_ (one_more u none_left))

  abbrev first_trace : Option Traces → Traces
  first_trace none = none_left
  first_trace (some ts) = ts

  join-AllMean :
      (o : Option Trace) (os : Option Traces) (x a b : Bool)
      → Whenever IsHonest o
      → Means o x
      → AllMean os a b
      → AllMean (join host o os) (x && a) (x || b)
  unfolding has_error
  join-AllMean none os x a b hon h hs ts e quiet = cc
  join-AllMean (some t) none x a b hon h hs ts e quiet = cc
  join-AllMean (some t) (some us) x a b hon h hs ts e quiet =
      subst
        (λ ts.
          have_error ts ≡ false
          → (all_results ts ≡ (x && a)) × (any_results ts ≡ (x || b)) × (first_error ts ≡ none))
        (ap first_trace e) joined quiet
    where
      joined :
          have_error (one_more t us) ≡ false
          → (all_results (one_more t us) ≡ (x && a))
            × (any_results (one_more t us) ≡ (x || b))
            × (first_error (one_more t us) ≡ none)
      joined clean =
          let left : has_error t ≡ false = ground arith in
          let right : have_error us ≡ false = ground arith in
          ground (arith, h t refl left, hs us refl right, error-none t hon left)

  abbrev own_leaf : Fields → Option Trace
  own_leaf fs = evaluate_leaf host (get "field" fs) (get "op" fs) fs context

  leaf-Means : (o : Option Trace) → Means o (compared o)
  leaf-Means o t e quiet = sym (ap compared e)

  mutual
    unfolding evaluate_node holds

    node-Means : (v : Value) → Means (evaluate_node host v context) (holds v)
    node-Means (obj fs) = object-Means fs
    node-Means _ = λ t e q. cc

    object-Means : (fs : Fields) → Means (evaluate_object host fs context) (object_holds fs)
    object-Means end =
        if_intro (λ o. Means o (compared (own_leaf end))) (has_group end) (λ _ t e q. cc)
          (λ _. leaf-Means (own_leaf end))
    object-Means (field k v end) = elim (Bool-cases (str_eq k "not")) [
      | inl is_not ↦ rw is_not (
          close_not-Means (evaluate_node host v context) (holds v) (node-Honest host v context)
            (node-Means v))
      | inr other ↦ elim (Bool-cases (str_eq k "all")) [
        | inl is_all ↦
            rw (other, is_all)
              (close_and-Means (evaluate_group host v context) (all_hold v) (any_holds v)
                (group-Means v))
        | inr not_all ↦ elim (Bool-cases (str_eq k "any")) [
          | inl is_any ↦
              rw (other, not_all, is_any)
                (close_or-Means (evaluate_group host v context) (all_hold v) (any_holds v)
                  (group-Means v))
          | inr single ↦ rw (other, not_all, single) (leaf-Means (own_leaf (field k v end)))
        ]
      ]
    ]
    object-Means (field k v (field j w fs)) =
        let leaf = own_leaf (field k v (field j w fs)) in
        if_intro (λ o. Means o (compared leaf)) (has_group (field k v (field j w fs)))
          (λ _ t e q. cc) (λ _. leaf-Means leaf)

    group-Means : (v : Value) → AllMean (evaluate_group host v context) (all_hold v) (any_holds v)
    group-Means (arr vs) = items-Means vs
    group-Means _ = λ ts e q. cc

    items-Means :
        (vs : Items) → AllMean (evaluate_items host vs context) (every_holds vs) (some_holds vs)
    items-Means nil = λ ts e q. ground arith
    items-Means (cons v vs) =
        join-AllMean (evaluate_node host v context) (evaluate_items host vs context) (holds v)
          (every_holds vs) (some_holds vs) (node-Honest host v context) (node-Means v)
          (items-Means vs)

  -- If `explain` gives a trace without errors, then its result is the truth of the condition: NOT negates,
  -- AND and OR are conjunction and disjunction of the children, from comparisons at the leaves.
  pub explain-holds :
      (condition : Value) (t : Trace)
      → explain host condition context ≡ explained (some t)
      → has_error t ≡ false
      → result t ≡ holds condition
  explain-holds condition t e quiet =
      node-Means condition t (explain-evaluate host condition context t e) quiet
