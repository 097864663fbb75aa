-- ===== src/Condition/Total.antt =====
-- A validated condition is evaluated to the end: no exception, and no branch is skipped.
use zero_trust_continuous_au.Base.{
  ℕ, suc, ◌+◌, ◌≡◌, ◌≢◌, refl, ap, ◌∙◌, Bool, true, Option, none, some, String, str_eq, arith, ltb,
  not, ◌&&◌, Bool-cases, Option-cases, inl, inr, if_intro,
}
use zero_trust_continuous_au.Base.Int.{ℤ}
use zero_trust_continuous_au.Json.{
  Value, str, arr, obj, Items, nil, cons, Fields, end, field, get, has_key, count_items, fraction,
}
use zero_trust_continuous_au.Json.Text.{text_length}
use zero_trust_continuous_au.Condition.{
  Host, Search, answered, timed_out, bad_pattern, Op, Checked, accepted, invalid, refuse_if,
  is_all_any, has_group, has_unknown, max_group_children, check_path, check_value, check_op,
  check_leaf, find_op, needs_value, or_null, is_number, eq, ne, gt, gte, lt, lte, in_, not_in,
  contains, contains_icase, regex, exists, not_exists, enter, validate_from, validate_object,
  validate_group, validate_items, validate,
}
use zero_trust_continuous_au.Condition.Trace.{
  Leaf, Trace, leaf, Traces, none_left, one_more, compare_numbers, compare_values, searched,
  evaluate_at, evaluate_op, evaluate_leaf, evaluate_node, evaluate_object, evaluate_group,
  evaluate_items, close_gate, close_with, only, join, explain, explained, Logic,
  max_regex_input_length, is_null, not_, gate_of,
}
use zero_trust_continuous_au.Condition.Size.{
  nodes, nodes_object, nodes_group, nodes_items, trace_nodes, traces_nodes,
}
use zero_trust_continuous_au.Condition.Limits.{bind-accepted}

some_of {ℓ} : {A : Type ℓ} (o : Option A) → o ≢ none → (a : A) × (o ≡ some a)
some_of none h = absurd (h refl)
some_of (some a) h = (a, refl)

number-fraction : (x : Value) → is_number x ≡ true → fraction x ≢ none
unfolding is_number
number-fraction x h = ground arith

compare_numbers-ne-none :
    (test : ℤ × ℕ → ℤ × ℕ → Bool) (a x : Value)
    → is_number x ≡ true
    → compare_numbers test a x ≢ none
unfolding compare_numbers
compare_numbers-ne-none test a x h = ground (arith, number-fraction x h)

module _ (host : Host) where
  searched-ne-none : (r : Search) → r ≢ bad_pattern → searched host r ≢ none
  searched-ne-none (answered b) h e = cc
  searched-ne-none timed_out h e = cc
  searched-ne-none bad_pattern h e = h refl

  compare_values-ne-none :
      (op : Op) (a x : Value) (n m : ℕ)
      → check_value host op x n ≡ accepted m
      → compare_values host op a x ≢ none
  unfolding check_value compare_values is_number
  compare_values-ne-none regex (str a) (str p) n m h =
      let compiled : host.compiles p ≡ true = ground arith in
      if_intro (λ o. o ≢ none) (ltb max_regex_input_length (text_length a)) (λ _ e. cc)
        λ _. searched-ne-none _ (host.search_compiled p a compiled)
  compare_values-ne-none in_ a x n m h = ground arith
  compare_values-ne-none not_in a x n m h = ground arith
  compare_values-ne-none contains a x n m h = ground arith
  compare_values-ne-none contains_icase a x n m h = ground arith
  compare_values-ne-none gt a x n m h = compare_numbers-ne-none _ a x (ground arith)
  compare_values-ne-none gte a x n m h = compare_numbers-ne-none _ a x (ground arith)
  compare_values-ne-none lt a x n m h = compare_numbers-ne-none _ a x (ground arith)
  compare_values-ne-none lte a x n m h = compare_numbers-ne-none _ a x (ground arith)
  compare_values-ne-none eq a x n m h = λ e. cc
  compare_values-ne-none ne a x n m h = λ e. cc
  compare_values-ne-none exists a x n m h = λ e. cc
  compare_values-ne-none not_exists a x n m h = λ e. cc
  compare_values-ne-none regex a _ n m h = ground arith

  -- The comparison gives a leaf.
  evaluate_at-leaf :
      (path : String) (op : Op) (x : Value) (found : Option Value) (n m : ℕ)
      → check_value host op x n ≡ accepted m
      → (l : Leaf) × (evaluate_at host path op x found ≡ some (leaf l))
  unfolding evaluate_at
  evaluate_at-leaf path op x none n m h = (_, refl)
  evaluate_at-leaf path op x (some a) n m h =
      let (c, e) = some_of (compare_values host op a x) (compare_values-ne-none op a x n m h) in
      if_intro (λ o. (l : Leaf) × (o ≡ some (leaf l))) (is_null a) (λ _. (_, refl))
        λ _. rw e (_, refl)

  check_op-leaf :
      (path : String) (v : Option Value) (fs : Fields) (context : Value) (n m : ℕ)
      → check_op host v fs n ≡ accepted m
      → (l : Leaf) × (evaluate_leaf host (some (str path)) v fs context ≡ some (leaf l))
  unfolding check_op evaluate_leaf evaluate_op
  check_op-leaf path (some (str s)) fs context n m h = elim (Option-cases (find_op s)) [
    | inl unknown ↦ cc (rw (unknown, check_op) at h)
    | inr (op, e) ↦
        let (_, _, checked) =
          bind-accepted (refuse_if (needs_value op && not (has_key "value" fs)) _ n) _
            (rw (e, check_op) at h) in
        rw (e, evaluate_leaf) (evaluate_at-leaf path op (or_null (get "value" fs)) _ n m checked)
  ]
  check_op-leaf path none fs context n m h = cc
  check_op-leaf path (some v) fs context n m h = cc

  check_path-text :
      (v : Option Value) (n m : ℕ)
      → check_path v n ≡ accepted m
      → (path : String) × (v ≡ some (str path))
  unfolding check_path
  check_path-text (some (str path)) n m h = (path, refl)
  check_path-text none n m h = cc
  check_path-text (some v) n m h = cc

  check_leaf-leaf :
      (fs : Fields) (context : Value) (n m : ℕ)
      → check_leaf host fs n ≡ accepted m
      → (l : Leaf) × (evaluate_leaf host (get "field" fs) (get "op" fs) fs context ≡ some (leaf l))
  unfolding check_leaf
  check_leaf-leaf fs context n m h =
      let (n₁, _, h₁) = bind-accepted (refuse_if (has_unknown fs) _ n) _ h in
      let (n₂, e₂, h₂) = bind-accepted (check_path (get "field" fs) n) _ h₁ in
      let (path, e) = check_path-text (get "field" fs) n n₂ e₂ in
      rw e (check_op-leaf path (get "op" fs) fs context n m h₂)

close_gate-nodes : (g : Logic) (ts : Traces) → trace_nodes (close_gate g ts) ≡ suc (traces_nodes ts)
unfolding close_gate trace_nodes
close_gate-nodes g ts = ground arith

module _ (host : Host) (context : Value) where
  -- There is a trace, and it has as many nodes as the condition.
  abbrev Traced : Option Trace → ℕ → Type 0
  Traced o n = (t : Trace) × (o ≡ some t) × (trace_nodes t ≡ n)

  abbrev AllTraced : Option Traces → ℕ → Type 0
  AllTraced o n = (ts : Traces) × (o ≡ some ts) × (traces_nodes ts ≡ n)

  close_with-Traced :
      (g : Logic) (o : Option Traces) (n : ℕ) → AllTraced o n → Traced (close_with host g o) (suc n)
  close_with-Traced g o n (ts, e, size) =
      rw e (close_gate g ts, refl, close_gate-nodes g ts ∙ ap suc size)

  only-AllTraced : (o : Option Trace) (n : ℕ) → Traced o n → AllTraced (only host o) n
  unfolding trace_nodes
  only-AllTraced o n (t, e, size) = rw e (one_more t none_left, refl, omega arith)

  join-AllTraced :
      (o : Option Trace) (os : Option Traces) (n k : ℕ)
      → Traced o n
      → AllTraced os k
      → AllTraced (join host o os) (n + k)
  unfolding trace_nodes
  join-AllTraced o os n k (t, e, size) (ts, es, sizes) =
      rw (e, es) (one_more t ts, refl, omega arith)

  leaf-Traced :
      (fs : Fields) (c n : ℕ)
      → check_leaf host fs c ≡ accepted n
      → Traced (evaluate_leaf host (get "field" fs) (get "op" fs) fs context) 1
  unfolding trace_nodes
  leaf-Traced fs c n h = let (l, e) = check_leaf-leaf host fs context c n h in (leaf l, e, refl)

  mutual
    unfolding validate_from evaluate_node nodes trace_nodes

    node-Traced :
        (v : Value) (d c n : ℕ)
        → validate_from host v d c ≡ accepted n
        → Traced (evaluate_node host v context) (nodes v)
    node-Traced (obj fs) d c n h =
        let (m, _, rest) = bind-accepted (enter d c) (λ m. validate_object host fs d m) h in
        object-Traced fs d m n rest
    node-Traced v d c n h = let (m, _, rest) = bind-accepted (enter d c) _ h in cc rest

    object-Traced :
        (fs : Fields) (d c n : ℕ)
        → validate_object host fs d c ≡ accepted n
        → Traced (evaluate_object host fs context) (suc (nodes_object fs))
    object-Traced end d c n h = cc
    object-Traced (field k v end) d c n h = elim (Bool-cases (str_eq k "not")) [
      | inl is_not ↦ rw is_not (
          close_with-Traced not_ _ (nodes v)
            (only-AllTraced _ (nodes v) (node-Traced v (suc d) c n (rw is_not at h))))
      | inr other ↦ elim (Bool-cases (is_all_any k)) [
        | inl group ↦
            rw (other, group)
              (close_with-Traced (gate_of host k) _ (nodes_group v)
                (group-Traced v d c n (rw (other, group) at h)))
        | inr single ↦
            rw (other, single) (leaf-Traced (field k v end) c n (rw (other, single) at h))
      ]
    ]
    object-Traced (field k v (field j w fs)) d c n h =
        elim (Bool-cases (has_group (field k v (field j w fs)))) [
          | inl mixed ↦ cc (rw mixed at h)
          | inr plain ↦ rw plain (leaf-Traced (field k v (field j w fs)) c n (rw plain at h))
        ]

    group-Traced :
        (v : Value) (d c n : ℕ)
        → validate_group host v d c ≡ accepted n
        → AllTraced (evaluate_group host v context) (nodes_group v)
    group-Traced (arr nil) d c n h = cc
    group-Traced (arr (cons v vs)) d c n h =
        let (m, _, rest) =
          bind-accepted (refuse_if (ltb max_group_children (count_items (cons v vs))) _ c) _ h in
        items-Traced (cons v vs) (suc d) c n rest
    group-Traced _ d c n h = cc

    items-Traced :
        (vs : Items) (d c n : ℕ)
        → validate_items host vs d c ≡ accepted n
        → AllTraced (evaluate_items host vs context) (nodes_items vs)
    items-Traced nil d c n h = (none_left, refl, refl)
    items-Traced (cons v vs) d c n h =
        let (m, e, rest) =
          bind-accepted (validate_from host v d c) (λ m. validate_items host vs d m) h in
        join-AllTraced (evaluate_node host v context) (evaluate_items host vs context) (nodes v)
          (nodes_items vs) (node-Traced v d c m e) (items-Traced vs d m n rest)

  -- A condition that `validate` accepts is evaluated without an exception, whatever the event is, and
  -- its trace has one node for each node of the condition: no branch is skipped.
  pub explain_total :
      (v : Value) (n : ℕ)
      → validate host v ≡ accepted n
      → (t : Trace) × (explain host v context ≡ explained (some t)) × (trace_nodes t ≡ nodes v)
  unfolding validate explain
  explain_total v n h = let (t, e, size) = node-Traced v 1 0 n h in (t, rw (h, e), size)

-- Whatever the condition is, `explain` refuses it or gives its trace.
pub explain-followed : (host : Host) (v context : Value) → explain host v context ≢ explained none
unfolding explain
explain-followed host v context = go (validate host v) refl
  where
    go : (r : Checked) → validate host v ≡ r → explain host v context ≢ explained none
    go (accepted n) h e = let (t, given, _) = explain_total host context v n h in cc (given, e)
    go (invalid x) h e = cc (rw (h, explain) at e)
