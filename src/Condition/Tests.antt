-- ===== src/Condition/Tests.antt =====
-- The properties of conditions at concrete trees and hosts.
use zero_trust_continuous_au.Base.{
  ◌≤◌, ◌≡◌, ◌≢◌, refl, String, Bool, true, false, Option, none, some,
}
use zero_trust_continuous_au.Json.{
  Value, str, obj, Items, nil, cons, end, field, count_items, get, has_key,
}
use zero_trust_continuous_au.Json.Text.{split_dots, text_length, occurs_in, starts_with}
use zero_trust_continuous_au.Condition.{
  Op, regex, contains, Host, answered, timed_out, bad_pattern, validate, accepted, max_nodes,
  max_depth, check_leaf, find_op, has_group, has_unknown, check_path, check_op, check_value,
  check_regex,
}
use zero_trust_continuous_au.Condition.Trace.{
  Trace, EvalError, regex_timeout, compare_contains, not_, or, leaf, gate, one_more, none_left, and,
  result, error, explain, explained, evaluate_node, evaluate_leaf, evaluate_op, evaluate_at, walk,
  compare_values, compare_regex, close_gate,
}
use zero_trust_continuous_au.Condition.Size.{nodes, depth, trace_nodes}
use zero_trust_continuous_au.Condition.Limits.{validate_limits}
use zero_trust_continuous_au.Condition.Total.{explain_total}
use zero_trust_continuous_au.Condition.Errors.{has_error, explain_error_is_false}
use zero_trust_continuous_au.Condition.Meaning.{holds, explain-holds}
use zero_trust_continuous_au.Condition.DeMorgan.{negation, negations, conjunction, disjunction}

found_nothing : (p s : String) → true ≡ true → answered false ≢ bad_pattern
found_nothing p s h e = cc e

gave_up : (p s : String) → true ≡ true → timed_out ≢ bad_pattern
gave_up p s h e = cc e

-- A host whose searches find nothing, and one whose searches time out.
abbrev plain_host : Host
plain_host = record {
  casefold = λ s. s;
  compiles = λ _. true;
  search = λ _ _. answered false;
  search_compiled = found_nothing;
}

abbrev slow_host : Host
slow_host = record {
  casefold = λ s. s;
  compiles = λ _. true;
  search = λ _ _. timed_out;
  search_compiled = gave_up;
}

abbrev compare : String → String → Value
compare op v = obj (field "field" (str "a") (field "op" (str op) (field "value" (str v) end)))

abbrev not_regex : Value
not_regex = obj (field "not" (compare "regex" "x") end)

abbrev event : Value
event = obj (field "a" (str "u") end)

abbrev two : Items
two = cons (compare "eq" "u") (cons (compare "eq" "v") nil)

validate-not_regex : validate plain_host not_regex ≡ accepted 2
unfolding validate has_group check_leaf check_path check_op check_value check_regex find_op
    has_unknown get has_key count_items split_dots text_length
validate-not_regex = refl

validate_limits_example :
    (2 ≡ nodes not_regex) × (nodes not_regex ≤ max_nodes) × (depth not_regex ≤ max_depth)
validate_limits_example = validate_limits plain_host not_regex 2 validate-not_regex

explain_total_example :
    (t : Trace) × (explain plain_host not_regex event ≡ explained (some t))
    × (trace_nodes t ≡ nodes not_regex)
explain_total_example = explain_total plain_host event not_regex 2 validate-not_regex

abbrev evidence : Op → String → Bool → Option EvalError → Trace
evidence op v b e = leaf (record {
  field = "a";
  op = op;
  expected = str v;
  actual = str "u";
  present = true;
  result = b;
  error = e;
})

-- The search under the NOT times out.
abbrev timed_out_trace : Trace
timed_out_trace =
    gate not_ (one_more (evidence regex "x" false (some regex_timeout)) none_left) false
      (some regex_timeout)

explain_timed_out : explain slow_host not_regex event ≡ explained (some timed_out_trace)
unfolding explain validate has_group check_leaf check_path check_op check_value check_regex find_op
    has_unknown get has_key count_items split_dots text_length evaluate_node evaluate_leaf
    evaluate_op evaluate_at compare_values compare_regex close_gate walk
explain_timed_out = refl

timed_out-has_error : has_error timed_out_trace ≡ true
unfolding has_error
timed_out-has_error = refl

explain_error_is_false_example : (result timed_out_trace ≡ false) × (error timed_out_trace ≢ none)
explain_error_is_false_example =
    explain_error_is_false slow_host not_regex event timed_out_trace explain_timed_out
      timed_out-has_error

abbrev quiet_trace : Trace
quiet_trace = gate not_ (one_more (evidence regex "x" false none) none_left) true none

explain_quiet : explain plain_host not_regex event ≡ explained (some quiet_trace)
unfolding explain validate has_group check_leaf check_path check_op check_value check_regex find_op
    has_unknown get has_key count_items split_dots text_length evaluate_node evaluate_leaf
    evaluate_op evaluate_at compare_values compare_regex close_gate walk
explain_quiet = refl

quiet-has_error : has_error quiet_trace ≡ false
unfolding has_error
quiet-has_error = refl

explain-holds_example : result quiet_trace ≡ holds plain_host event not_regex
explain-holds_example =
    explain-holds plain_host event not_regex quiet_trace explain_quiet quiet-has_error

abbrev one_test : Items
one_test = cons (compare "contains" "u") nil

abbrev test_trace : Trace
test_trace = evidence contains "u" true none

abbrev not_all_trace : Trace
not_all_trace =
    gate not_ (one_more (gate and (one_more test_trace none_left) true none) none_left) false none

abbrev any_not_trace : Trace
any_not_trace =
    gate or (one_more (gate not_ (one_more test_trace none_left) false none) none_left) false none

explain_not_all :
    explain plain_host (negation (conjunction one_test)) event ≡ explained (some not_all_trace)
unfolding explain validate has_group check_leaf check_path check_op check_value find_op has_unknown
    get has_key count_items split_dots text_length evaluate_node evaluate_leaf evaluate_op
    evaluate_at compare_values compare_contains occurs_in starts_with close_gate walk
explain_not_all = refl

explain_any_not :
    explain plain_host (disjunction (negations one_test)) event ≡ explained (some any_not_trace)
unfolding explain validate has_group check_leaf check_path check_op check_value find_op has_unknown
    get has_key count_items split_dots text_length evaluate_node evaluate_leaf evaluate_op
    evaluate_at compare_values compare_contains occurs_in starts_with close_gate walk
explain_any_not = refl

not_all-has_error : has_error not_all_trace ≡ false
unfolding has_error
not_all-has_error = refl

any_not-has_error : has_error any_not_trace ≡ false
unfolding has_error
any_not-has_error = refl
