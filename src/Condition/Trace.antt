-- ===== src/Condition/Trace.antt =====
-- `_evaluate` and `explain` of engine/events/conditions.py: the evidence tree of a condition.
-- `none` stands for a condition whose shape `_validate` refuses; the model does not follow the code there.
use zero_trust_continuous_au.Base.{
  ℕ, String, Bool, true, false, not, ◌&&◌, ◌||◌, Option, none, some, List, [], ◌∷◌, ltb, str_eq,
  if◌then◌else◌,
}
use zero_trust_continuous_au.Json.{
  Value, null, str, arr, obj, Items, nil, cons, Fields, end, field, get, has_key, fraction, frac_lt,
  frac_le, value_eq, member,
}
use zero_trust_continuous_au.Base.Int.{ℤ}
use zero_trust_continuous_au.Json.Text.{text_length, split_dots, occurs_in}
use zero_trust_continuous_au.Condition.{
  Search, answered, timed_out, bad_pattern, Host, Op, eq, ne, gt, gte, lt, lte, in_, not_in,
  contains, contains_icase, regex, exists, not_exists, find_op, is_all_any, has_group, or_null,
  accepted, invalid, Invalid, validate,
}

-- `evaluation_error`
pub data EvalError : Type 0 where
  regex_input_limit regex_timeout : EvalError

pub data Logic : Type 0 where
  and or not_ : Logic

pub record Leaf : Type 0 where
  pub field : String
  pub op : Op
  pub expected : Value
  pub actual : Value
  pub present : Bool
  pub result : Bool
  pub error : Option EvalError

mutual
  pub data Trace : Type 0 where
    leaf : Leaf → Trace
    gate : Logic → Traces → Bool → Option EvalError → Trace

  pub data Traces : Type 0 where
    none_left : Traces
    one_more : Trace → Traces → Traces

abbrev pub result : Trace → Bool
result (leaf l) = l.result
result (gate g ts b e) = b

abbrev pub error : Trace → Option EvalError
error (leaf l) = l.error
error (gate g ts b e) = e

-- `all(values)`, `any(values)` and `values[0]` of the children's results.
abbrev pub all_results : Traces → Bool
all_results none_left = true
all_results (one_more t ts) = result t && all_results ts

abbrev pub any_results : Traces → Bool
any_results none_left = false
any_results (one_more t ts) = result t || any_results ts

-- `errors[0]`, where there is one.
abbrev pub first_error : Traces → Option EvalError
first_error none_left = none
first_error (one_more t ts) = elim (error t) [ none ↦ first_error ts | some e ↦ some e ]

abbrev pub combine : Logic → Traces → Bool
combine and ts = all_results ts
combine or ts = any_results ts
combine not_ none_left = true
combine not_ (one_more t ts) = not (result t)

-- An error among the children makes the result false.
unfoldable pub close_gate : Logic → Traces → Trace
close_gate g ts = elim (first_error ts) [
  | none ↦ gate g ts (combine g ts) none
  | some e ↦ gate g ts false (some e)
]

-- The walk along the field path: the value, or that it is not there.
unfoldable pub walk : List String → Value → Option Value
walk [] v = some v
walk (p ∷ ps) (obj fs) = elim (get p fs) [ none ↦ none | some v ↦ walk ps v ]
walk (p ∷ ps) v = none

abbrev pub is_null : Value → Bool
is_null null = true
is_null v = false

-- The outcome of a comparison: a result, and the error that made it false.
abbrev pub Compared : Type 0
Compared = Bool × Option EvalError

-- An ordered comparison; a `TypeError` is false. The expected value is a number.
unfoldable pub compare_numbers : (ℤ × ℕ → ℤ × ℕ → Bool) → Value → Value → Option Compared
compare_numbers test actual expected = elim (fraction expected) [
  | none ↦ none
  | some y ↦ elim (fraction actual) [ none ↦ some (false, none) | some x ↦ some (test x y, none) ]
]

-- `actual in expected`, of a list of expected values.
unfoldable pub compare_member : (Bool → Bool) → Value → Value → Option Compared
compare_member f actual (arr vs) = some (f (member actual vs), none)
compare_member f actual v = none

-- `expected in actual`, of an expected text: in a text, in a list, among a dict's keys.
unfoldable pub compare_contains : Value → Value → Option Compared
compare_contains (str s) (str p) = some (occurs_in p s, none)
compare_contains (arr vs) (str p) = some (member (str p) vs, none)
compare_contains (obj fs) (str p) = some (has_key p fs, none)
compare_contains v (str p) = some (false, none)
compare_contains v w = none

abbrev pub max_regex_input_length : ℕ
max_regex_input_length = 4096

-- What `explain` gives: the refusal, or the trace.
pub data Explained : Type 0 where
  refused : Invalid → Explained
  explained : Option Trace → Explained

module _ (host : Host) where
  unfoldable pub compare_icase : Value → Value → Option Compared
  compare_icase (str s) (str p) = some (occurs_in (host.casefold p) (host.casefold s), none)
  compare_icase v (str p) = some (false, none)
  compare_icase v w = none

  abbrev pub searched : Search → Option Compared
  searched (answered b) = some (b, none)
  searched timed_out = some (false, some regex_timeout)
  searched bad_pattern = none

  unfoldable pub compare_regex : Value → Value → Option Compared
  compare_regex (str s) (str p) =
      if ltb max_regex_input_length (text_length s)
      then some (false, some regex_input_limit)
      else searched (host.search p s)
  compare_regex v (str p) = some (false, none)
  compare_regex v w = none

  -- The chain of operators, for an actual value that is there and not null.
  unfoldable pub compare_values : Op → Value → Value → Option Compared
  unfolding compare_numbers compare_member compare_contains compare_icase compare_regex value_eq
  compare_values eq a x = some (value_eq a x, none)
  compare_values ne a x = some (not (value_eq a x), none)
  compare_values gt a x = compare_numbers (λ p q. frac_lt q p) a x
  compare_values gte a x = compare_numbers (λ p q. frac_le q p) a x
  compare_values lt a x = compare_numbers frac_lt a x
  compare_values lte a x = compare_numbers frac_le a x
  compare_values in_ a x = compare_member (λ b. b) a x
  compare_values not_in a x = compare_member not a x
  compare_values contains a x = compare_contains a x
  compare_values contains_icase a x = compare_icase a x
  compare_values regex a x = compare_regex a x
  compare_values exists a x = some (true, none)
  compare_values not_exists a x = some (false, none)

  -- An absent or null value answers every operator but `not_exists` with false.
  abbrev pub absent : Op → Compared
  absent not_exists = (true, none)
  absent op = (false, none)

  abbrev pub make_leaf : String → Op → Value → Value → Bool → Compared → Trace
  make_leaf path op expected actual present (b, e) = leaf (record {
    field = path;
    op = op;
    expected = expected;
    actual = actual;
    present = present;
    result = b;
    error = e;
  })

  unfoldable pub evaluate_at : String → Op → Value → Option Value → Option Trace
  unfolding compare_values
  evaluate_at path op expected none = some (make_leaf path op expected null false (absent op))
  evaluate_at path op expected (some actual) =
      if is_null actual
      then some (make_leaf path op expected actual true (absent op))
      else elim (compare_values op actual expected) [
        | none ↦ none
        | some c ↦ some (make_leaf path op expected actual true c)
      ]

  unfoldable pub evaluate_op : Option Op → String → Fields → Value → Option Trace
  unfolding evaluate_at walk
  evaluate_op none path fs context = none
  evaluate_op (some op) path fs context =
      evaluate_at path op (or_null (get "value" fs)) (walk (split_dots path) context)

  -- A condition with no combinator: `condition["field"]` and `condition["op"]` are texts.
  unfoldable pub evaluate_leaf : Option Value → Option Value → Fields → Value → Option Trace
  unfolding evaluate_op find_op
  evaluate_leaf (some (str path)) (some (str s)) fs context =
      evaluate_op (find_op s) path fs context
  evaluate_leaf _ _ fs context = none

  abbrev pub gate_of : String → Logic
  gate_of k = if str_eq k "all" then and else or

  abbrev pub close_with : Logic → Option Traces → Option Trace
  close_with g none = none
  close_with g (some ts) = some (close_gate g ts)

  abbrev pub only : Option Trace → Option Traces
  only none = none
  only (some t) = some (one_more t none_left)

  abbrev pub join : Option Trace → Option Traces → Option Traces
  join none ts = none
  join (some t) none = none
  join (some t) (some ts) = some (one_more t ts)

  unfoldable mutual
    unfolding evaluate_leaf has_group

    -- `_evaluate`
    pub evaluate_node : Value → Value → Option Trace
    evaluate_node (obj fs) context = evaluate_object fs context
    evaluate_node v context = none

    pub evaluate_object : Fields → Value → Option Trace
    evaluate_object (field k v end) context =
        if str_eq k "not"
        then close_with not_ (only (evaluate_node v context))
        else if is_all_any k
        then close_with (gate_of k) (evaluate_group v context)
        else evaluate_leaf (get "field" (field k v end)) (get "op" (field k v end)) (field k v end)
            context
    evaluate_object fs context =
        if has_group fs then none else evaluate_leaf (get "field" fs) (get "op" fs) fs context

    pub evaluate_group : Value → Value → Option Traces
    evaluate_group (arr vs) context = evaluate_items vs context
    evaluate_group v context = none

    pub evaluate_items : Items → Value → Option Traces
    evaluate_items nil context = some none_left
    evaluate_items (cons v vs) context = join (evaluate_node v context) (evaluate_items vs context)

  unfoldable pub explain : Value → Value → Explained
  unfolding evaluate_node
  explain condition context = elim (validate host condition) [
    | accepted n ↦ explained (evaluate_node condition context)
    | invalid e ↦ refused e
  ]
