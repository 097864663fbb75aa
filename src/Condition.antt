-- ===== src/Condition.antt =====
-- engine/events/conditions.py: the validation of condition trees, over the raw JSON value.
-- The operators and limits stand here; `Condition/Trace.antt` has the evaluation.
pub mod Trace
pub mod Size
pub mod Limits
pub mod Total
pub mod Errors
pub mod Meaning
pub mod DeMorgan
mod Tests
use zero_trust_continuous_au.Base.{
  ℕ, suc, ◌+◌, String, Bool, true, false, not, ◌&&◌, ◌||◌, Option, none, some, List, [], ◌∷◌, any,
  is_some, ltb, str_eq, if◌then◌else◌, ◌≡◌, ◌≢◌,
}
use zero_trust_continuous_au.Json.{
  Value, null, bool, int, float, str, datetime, arr, obj, Items, nil, cons, Fields, end, field,
  count_items, get, has_key,
}
use zero_trust_continuous_au.Json.Text.{text_length, is_empty, split_dots}

-- What `regex.search` with a timeout does: it answers, gives up, or raises `regex.error`.
pub data Search : Type 0 where
  answered : Bool → Search
  timed_out : Search
  bad_pattern : Search

-- Python's case folding, and the `regex` package: a pattern that compiles is never refused by `search`.
pub record Host : Type 0 where
  pub casefold : String → String
  pub compiles : String → Bool
  pub search : String → String → Search
  pub search_compiled : (p s : String) → compiles p ≡ true → search p s ≢ bad_pattern

pub data Op : Type 0 where
  eq ne gt gte lt lte in_ not_in contains contains_icase regex exists not_exists : Op

-- `OPERATORS`
unfoldable pub find_op : String → Option Op
find_op s =
    if str_eq s "eq"
    then some eq
    else if str_eq s "ne"
    then some ne
    else if str_eq s "gt"
    then some gt
    else if str_eq s "gte"
    then some gte
    else if str_eq s "lt"
    then some lt
    else if str_eq s "lte"
    then some lte
    else if str_eq s "in"
    then some in_
    else if str_eq s "not_in"
    then some not_in
    else if str_eq s "contains"
    then some contains
    else if str_eq s "contains_icase"
    then some contains_icase
    else if str_eq s "regex"
    then some regex
    else if str_eq s "exists"
    then some exists
    else if str_eq s "not_exists"
    then some not_exists
    else none

abbrev pub max_depth : ℕ
max_depth = 8

abbrev pub max_nodes : ℕ
max_nodes = 128

abbrev pub max_group_children : ℕ
max_group_children = 32

abbrev pub max_membership_values : ℕ
max_membership_values = 100

abbrev pub max_field_length : ℕ
max_field_length = 128

abbrev pub max_regex_length : ℕ
max_regex_length = 512

-- The reasons of `InvalidConditionError`.
pub data Invalid : Type 0 where
  too_deep too_many_nodes not_an_object combinator_not_alone bad_group too_many_children : Invalid
  unknown_keys no_field bad_field bad_operator no_value bad_membership big_membership : Invalid
  not_a_number not_a_string not_a_scalar long_regex bad_regex : Invalid

-- The counter after an accepted node, or the error.
pub data Checked : Type 0 where
  accepted : ℕ → Checked
  invalid : Invalid → Checked

infixl 5 ◌>>=◌ ◌>>◌
abbrev pub ◌>>=◌ : Checked → (ℕ → Checked) → Checked
accepted n >>= f = f n
invalid e >>= f = invalid e

abbrev pub ◌>>◌ : Checked → Checked → Checked
m >> k = m >>= λ _. k

abbrev pub refuse_if : Bool → Invalid → ℕ → Checked
refuse_if b e n = if b then invalid e else accepted n

abbrev pub is_all_any : String → Bool
is_all_any k = str_eq k "all" || str_eq k "any"

-- `set(condition) & {"all", "any", "not"}` is not empty.
unfoldable pub has_group : Fields → Bool
has_group fs = has_key "all" fs || has_key "any" fs || has_key "not" fs

-- `set(condition) - {"field", "op", "value"}` is not empty.
unfoldable pub has_unknown : Fields → Bool
has_unknown end = false
has_unknown (field k v fs) =
    not (str_eq k "field" || str_eq k "op" || str_eq k "value") || has_unknown fs

unfoldable pub has_structured : Items → Bool
has_structured nil = false
has_structured (cons (arr vs) ws) = true
has_structured (cons (obj fs) ws) = true
has_structured (cons v ws) = has_structured ws

unfoldable pub is_number : Value → Bool
is_number (int i) = true
is_number (float m k) = true
is_number v = false

unfoldable pub is_structured : Value → Bool
is_structured (arr vs) = true
is_structured (obj fs) = true
is_structured v = false

-- `condition.get("value")`: a missing value reads as `None`.
abbrev pub or_null : Option Value → Value
or_null none = null
or_null (some v) = v

-- The test of the field path.
unfoldable pub check_path : Option Value → ℕ → Checked
check_path (some (str path)) n = do
  refuse_if (is_empty path) no_field n
  refuse_if (ltb max_field_length (text_length path) || any is_empty (split_dots path)) bad_field n
check_path v n = invalid no_field

unfoldable pub check_members : Value → ℕ → Checked
check_members (arr nil) n = invalid bad_membership
check_members (arr vs) n =
    refuse_if (ltb max_membership_values (count_items vs) || has_structured vs) big_membership n
check_members v n = invalid bad_membership

unfoldable pub check_number : Value → ℕ → Checked
check_number v n = refuse_if (not (is_number v)) not_a_number n

unfoldable pub check_text : Value → ℕ → Checked
check_text (str s) n = accepted n
check_text v n = invalid not_a_string

unfoldable pub check_scalar : Value → ℕ → Checked
check_scalar v n = refuse_if (is_structured v) not_a_scalar n

-- The tests at the head of `_validate`; the counter goes up by one.
abbrev pub enter : ℕ → ℕ → Checked
enter depth counter =
    if ltb max_depth depth
    then invalid too_deep
    else refuse_if (ltb max_nodes (counter + 1)) too_many_nodes (counter + 1)

abbrev pub needs_value : Op → Bool
needs_value exists = false
needs_value not_exists = false
needs_value op = true

module _ (host : Host) where
  unfoldable pub check_regex : Value → ℕ → Checked
  check_regex (str s) n = do
    refuse_if (ltb max_regex_length (text_length s)) long_regex n
    refuse_if (not (host.compiles s)) bad_regex n
  check_regex v n = invalid not_a_string

  -- The chain of tests on the comparison value.
  unfoldable pub check_value : Op → Value → ℕ → Checked
  unfolding check_members check_number check_text check_scalar check_regex
  check_value in_ v n = check_members v n
  check_value not_in v n = check_members v n
  check_value gt v n = check_number v n
  check_value gte v n = check_number v n
  check_value lt v n = check_number v n
  check_value lte v n = check_number v n
  check_value contains v n = check_text v n
  check_value contains_icase v n = check_text v n
  check_value regex v n = check_regex v n
  check_value exists v n = accepted n
  check_value not_exists v n = accepted n
  check_value eq v n = check_scalar v n
  check_value ne v n = check_scalar v n

  unfoldable pub check_op : Option Value → Fields → ℕ → Checked
  unfolding find_op check_value
  check_op (some (str s)) fs n = elim (find_op s) [
    | none ↦ invalid bad_operator
    | some op ↦
        refuse_if (needs_value op && not (has_key "value" fs)) no_value n
        >> check_value op (or_null (get "value" fs)) n
  ]
  check_op v fs n = invalid bad_operator

  -- A condition with no combinator.
  unfoldable pub check_leaf : Fields → ℕ → Checked
  unfolding has_unknown check_path check_op
  check_leaf fs n = do
    refuse_if (has_unknown fs) unknown_keys n
    check_path (get "field" fs) n
    check_op (get "op" fs) fs n

  unfoldable mutual
    unfolding has_group check_leaf

    -- `_validate`
    pub validate_from : Value → ℕ → ℕ → Checked
    validate_from (obj fs) depth counter = enter depth counter >>= λ n. validate_object fs depth n
    validate_from v depth counter = enter depth counter >> invalid not_an_object

    -- Its part after the first three tests, on the keys of the condition.
    pub validate_object : Fields → ℕ → ℕ → Checked
    validate_object end depth n = invalid not_an_object
    validate_object (field k v end) depth n =
        if str_eq k "not"
        then validate_from v (suc depth) n
        else if is_all_any k
        then validate_group v depth n
        else check_leaf (field k v end) n
    validate_object fs depth n =
        if has_group fs then invalid combinator_not_alone else check_leaf fs n

    -- The children of AND and OR.
    pub validate_group : Value → ℕ → ℕ → Checked
    validate_group (arr nil) depth n = invalid bad_group
    validate_group (arr vs) depth n =
        refuse_if (ltb max_group_children (count_items vs)) too_many_children n
        >> validate_items vs (suc depth) n
    validate_group v depth n = invalid bad_group

    pub validate_items : Items → ℕ → ℕ → Checked
    validate_items nil depth n = accepted n
    validate_items (cons v vs) depth n = validate_from v depth n >>= λ m. validate_items vs depth m

  unfoldable pub validate : Value → Checked
  unfolding validate_from
  validate condition = validate_from condition 1 0
