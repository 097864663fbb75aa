-- ===== src/Condition/Errors.antt =====
-- A comparison that did not come to an answer never makes a condition true.
use zero_trust_continuous_au.Base.{
  ℕ, ◌≡◌, ◌≢◌, refl, Bool, true, false, Option, none, some, String, str_eq, arith, ltb, not, ◌||◌,
  if_intro, is_some,
}
use mathlib.Core.Path.{subst}
use zero_trust_continuous_au.Json.{
  Value, null, str, arr, obj, Items, nil, cons, Fields, end, field, get, fraction,
}
use zero_trust_continuous_au.Json.Text.{text_length}
use zero_trust_continuous_au.Base.Int.{ℤ}
use zero_trust_continuous_au.Condition.{
  eq, ne, gt, gte, lt, lte, in_, not_in, contains, contains_icase, regex, exists, not_exists, Host,
  Search, answered, timed_out, bad_pattern, Op, find_op, is_all_any, has_group,
}
use zero_trust_continuous_au.Condition.Trace.{
  Trace, leaf, gate, Traces, none_left, one_more, result, error, first_error, Compared,
  compare_numbers, compare_member, compare_contains, compare_icase, compare_regex,
  max_regex_input_length, compare_values, searched, evaluate_at, evaluate_op, evaluate_leaf,
  evaluate_node, evaluate_object, evaluate_group, evaluate_items, close_gate, close_with, only,
  join, explain, explained, Logic, is_null, make_leaf, absent, not_, gate_of,
}

-- Some comparison below has an error.
unfoldable mutual
  pub has_error : Trace → Bool
  has_error (leaf l) = is_some l.error
  has_error (gate g ts b e) = have_error ts

  pub have_error : Traces → Bool
  have_error none_left = false
  have_error (one_more t ts) = has_error t || have_error ts

-- The error at the root tells of every error below it, and makes the result false.
abbrev pub IsHonest : Trace → Type 0
IsHonest t = (is_some (error t) ≡ has_error t) × (is_some (error t) ≡ true → result t ≡ false)

abbrev AllHonest : Traces → Type 0
AllHonest none_left = Unit
AllHonest (one_more t ts) = IsHonest t × AllHonest ts

first_error-have : (ts : Traces) → AllHonest ts → is_some (first_error ts) ≡ have_error ts
unfolding has_error
first_error-have none_left h = refl
first_error-have (one_more t ts) h = ground (arith, first_error-have ts h.1)

close_gate-IsHonest : (g : Logic) (ts : Traces) → AllHonest ts → IsHonest (close_gate g ts)
unfolding close_gate has_error
close_gate-IsHonest g ts h = ground (arith, first_error-have ts h)

abbrev Quiet : Compared → Type 0
Quiet (b, e) = is_some e ≡ true → b ≡ false

-- What is true of the value where there is one.
abbrev pub Whenever {ℓ} : {A : Type ℓ} → (A → Type 0) → Option A → Type 0
Whenever P none = Unit
Whenever P (some a) = P a

compare_numbers-Quiet :
    (test : ℤ × ℕ → ℤ × ℕ → Bool) (a x : Value) → Whenever Quiet (compare_numbers test a x)
unfolding compare_numbers
compare_numbers-Quiet test a x = go (fraction x) (fraction a)
  where
    go :
        (y b : Option (ℤ × ℕ))
        → Whenever Quiet (elim y [
          | none ↦ none
          | some q ↦ elim b [ none ↦ some (false, none) | some p ↦ some (test p q, none) ]
        ])
    go none b = tt
    go (some q) none = λ e. refl
    go (some q) (some p) = λ e. cc

compare_member-Quiet : (f : Bool → Bool) (a x : Value) → Whenever Quiet (compare_member f a x)
unfolding compare_member
compare_member-Quiet f a (arr vs) = λ e. cc
compare_member-Quiet f a _ = tt

compare_contains-Quiet : (a x : Value) → Whenever Quiet (compare_contains a x)
unfolding compare_contains
compare_contains-Quiet (str s) (str p) = λ e. cc
compare_contains-Quiet (arr vs) (str p) = λ e. cc
compare_contains-Quiet (obj fs) (str p) = λ e. cc
compare_contains-Quiet a (str p) = λ e. refl
compare_contains-Quiet a _ = tt

module _ (host : Host) where
  searched-Quiet : (r : Search) → Whenever Quiet (searched host r)
  searched-Quiet (answered b) = λ e. cc
  searched-Quiet timed_out = λ e. refl
  searched-Quiet bad_pattern = tt

  compare_icase-Quiet : (a x : Value) → Whenever Quiet (compare_icase host a x)
  unfolding compare_icase
  compare_icase-Quiet (str s) (str p) = λ e. cc
  compare_icase-Quiet a (str p) = λ e. refl
  compare_icase-Quiet a _ = tt

  compare_regex-Quiet : (a x : Value) → Whenever Quiet (compare_regex host a x)
  unfolding compare_regex
  compare_regex-Quiet (str s) (str p) =
      if_intro (Whenever Quiet) (ltb max_regex_input_length (text_length s)) (λ _ e. refl)
        (λ _. searched-Quiet (host.search p s))
  compare_regex-Quiet a (str p) = λ e. refl
  compare_regex-Quiet a _ = tt

  compare_values-Quiet : (op : Op) (a x : Value) → Whenever Quiet (compare_values host op a x)
  unfolding compare_values
  compare_values-Quiet eq a x = λ e. cc
  compare_values-Quiet ne a x = λ e. cc
  compare_values-Quiet gt a x = compare_numbers-Quiet _ a x
  compare_values-Quiet gte a x = compare_numbers-Quiet _ a x
  compare_values-Quiet lt a x = compare_numbers-Quiet _ a x
  compare_values-Quiet lte a x = compare_numbers-Quiet _ a x
  compare_values-Quiet in_ a x = compare_member-Quiet (λ b. b) a x
  compare_values-Quiet not_in a x = compare_member-Quiet not a x
  compare_values-Quiet contains a x = compare_contains-Quiet a x
  compare_values-Quiet contains_icase a x = compare_icase-Quiet a x
  compare_values-Quiet regex a x = compare_regex-Quiet a x
  compare_values-Quiet exists a x = λ e. cc
  compare_values-Quiet not_exists a x = λ e. cc

  make_leaf-IsHonest :
      (path : String) (op : Op) (x a : Value) (p : Bool) (c : Compared)
      → Quiet c
      → IsHonest (make_leaf host path op x a p c)
  unfolding has_error
  make_leaf-IsHonest path op x a p c h = (refl, h)

  absent-Quiet : (op : Op) → Quiet (absent host op)
  absent-Quiet not_exists = λ e. cc
  absent-Quiet eq = λ e. refl
  absent-Quiet _ = λ e. refl

  evaluate_at-Honest :
      (path : String) (op : Op) (x : Value) (found : Option Value)
      → Whenever IsHonest (evaluate_at host path op x found)
  unfolding evaluate_at
  evaluate_at-Honest path op x none =
      make_leaf-IsHonest path op x null false (absent host op) (absent-Quiet op)
  evaluate_at-Honest path op x (some a) =
      if_intro (Whenever IsHonest) (is_null a)
        (λ _. make_leaf-IsHonest path op x a true (absent host op) (absent-Quiet op))
        (λ _. made (compare_values host op a x) (compare_values-Quiet op a x))
    where
      made :
          (o : Option Compared)
          → Whenever Quiet o
          → Whenever IsHonest
              (elim o [ none ↦ none | some c ↦ some (make_leaf host path op x a true c) ])
      made none h = tt
      made (some c) h = make_leaf-IsHonest path op x a true c h

  evaluate_leaf-Honest :
      (v w : Option Value) (fs : Fields) (context : Value)
      → Whenever IsHonest (evaluate_leaf host v w fs context)
  unfolding evaluate_leaf evaluate_op
  evaluate_leaf-Honest (some (str path)) (some (str s)) fs context = at_op (find_op s)
    where
      at_op : (o : Option Op) → Whenever IsHonest (evaluate_op host o path fs context)
      at_op none = tt
      at_op (some op) = evaluate_at-Honest path op _ _
  evaluate_leaf-Honest (some (str path)) none fs context = tt
  evaluate_leaf-Honest (some (str path)) (some _) fs context = tt
  evaluate_leaf-Honest _ _ fs context = tt

  own_leaf-Honest :
      (fs : Fields) (context : Value)
      → Whenever IsHonest (evaluate_leaf host (get "field" fs) (get "op" fs) fs context)
  own_leaf-Honest fs context = evaluate_leaf-Honest (get "field" fs) (get "op" fs) fs context

  close_with-Honest :
      (g : Logic) (o : Option Traces)
      → Whenever AllHonest o
      → Whenever IsHonest (close_with host g o)
  close_with-Honest g none h = tt
  close_with-Honest g (some ts) h = close_gate-IsHonest g ts h

  only-Honest : (o : Option Trace) → Whenever IsHonest o → Whenever AllHonest (only host o)
  only-Honest none h = tt
  only-Honest (some t) h = (h, tt)

  join-Honest :
      (o : Option Trace) (os : Option Traces)
      → Whenever IsHonest o
      → Whenever AllHonest os
      → Whenever AllHonest (join host o os)
  join-Honest none os h hs = tt
  join-Honest (some t) none h hs = tt
  join-Honest (some t) (some ts) h hs = (h, hs)

  mutual
    unfolding evaluate_node

    pub node-Honest : (v context : Value) → Whenever IsHonest (evaluate_node host v context)
    node-Honest (obj fs) context = object-Honest fs context
    node-Honest _ context = tt

    object-Honest :
        (fs : Fields) (context : Value) → Whenever IsHonest (evaluate_object host fs context)
    object-Honest end context =
        if_intro (Whenever IsHonest) (has_group end) (λ _. tt) (λ _. own_leaf-Honest end context)
    object-Honest (field k v end) context =
        if_intro (Whenever IsHonest) (str_eq k "not")
          (λ _. close_with-Honest not_ _ (only-Honest _ (node-Honest v context)))
          (λ _.
            if_intro (Whenever IsHonest) (is_all_any k)
              (λ _. close_with-Honest (gate_of host k) _ (group-Honest v context))
              (λ _. own_leaf-Honest (field k v end) context))
    object-Honest (field k v (field j w fs)) context =
        if_intro (Whenever IsHonest) (has_group (field k v (field j w fs))) (λ _. tt)
          (λ _. own_leaf-Honest (field k v (field j w fs)) context)

    group-Honest : (v context : Value) → Whenever AllHonest (evaluate_group host v context)
    group-Honest (arr vs) context = items-Honest vs context
    group-Honest _ context = tt

    items-Honest :
        (vs : Items) (context : Value) → Whenever AllHonest (evaluate_items host vs context)
    items-Honest nil context = tt
    items-Honest (cons v vs) context =
        join-Honest _ _ (node-Honest v context) (items-Honest vs context)

  -- What `explain` hands on is what `_evaluate` gave.
  pub explain-evaluate :
      (condition context : Value) (t : Trace)
      → explain host condition context ≡ explained (some t)
      → evaluate_node host condition context ≡ some t
  unfolding explain
  explain-evaluate condition context t h = ground arith

  -- If some comparison of the tree ran into a limit or a timeout, then the result of the whole
  -- condition is false and its root carries an error, also where the comparison stands under a NOT.
  pub explain_error_is_false :
      (condition context : Value) (t : Trace)
      → explain host condition context ≡ explained (some t)
      → has_error t ≡ true
      → (result t ≡ false) × (error t ≢ none)
  explain_error_is_false condition context t h e =
      let honest : IsHonest t =
        subst (Whenever IsHonest) (explain-evaluate condition context t h)
          (node-Honest condition context) in
      ground arith
