-- ===== src/Json.antt =====
-- The Python values that conditions and event contexts are made of: what `json.loads` gives, and the
-- datetimes that `asdict` leaves in an event. A finite float is a dyadic fraction.
pub mod Text
use zero_trust_continuous_au.Base.{
  ℕ, zero, suc, ◌+◌, ◌^◌, String, Bool, true, false, not, ◌&&◌, ◌||◌, Option, none, some, List, [],
  ◌∷◌, ◌==◌, str_eq, if◌then◌else◌,
}
use zero_trust_continuous_au.Base.Int.{ℤ, pos, scale, eqb_ℤ, ltb_ℤ, leb_ℤ}

mutual
  pub data Value : Type 0 where
    null : Value
    bool : Bool → Value
    int : ℤ → Value
    str : String → Value
    -- `float m k` is m / 2 ^ k
    float : ℤ → ℕ → Value
    obj : Fields → Value
    arr : Items → Value
    datetime : ℕ → Value

  -- The entries of a dict; its keys are distinct.
  pub data Fields : Type 0 where
    end : Fields
    field : String → Value → Fields → Fields

  pub data Items : Type 0 where
    nil : Items
    cons : Value → Items → Items

-- `len` of a list and of a dict.
unfoldable pub count_items : Items → ℕ
count_items nil = 0
count_items (cons v vs) = suc (count_items vs)

unfoldable pub count_fields : Fields → ℕ
count_fields end = 0
count_fields (field k v fs) = suc (count_fields fs)

-- `d.get(k)`, with `none` where the key is missing.
unfoldable pub get : String → Fields → Option Value
get k end = none
get k (field j v fs) = if str_eq j k then some v else get k fs

-- `k in d`
unfoldable pub has_key : String → Fields → Bool
has_key k end = false
has_key k (field j v fs) = str_eq j k || has_key k fs

-- A number as m / 2 ^ k. `True` and `False` are the integers 1 and 0.
abbrev pub fraction : Value → Option (ℤ × ℕ)
fraction (bool true) = some (pos 1, 0)
fraction (bool false) = some (pos 0, 0)
fraction (int i) = some (i, 0)
fraction (float m k) = some (m, k)
fraction _ = none

abbrev pub left_side : ℤ × ℕ → ℤ × ℕ → ℤ
left_side (m, _) (_, l) = scale (2 ^ l) m

abbrev pub frac_eq : ℤ × ℕ → ℤ × ℕ → Bool
frac_eq x y = eqb_ℤ (left_side x y) (left_side y x)

abbrev pub frac_lt : ℤ × ℕ → ℤ × ℕ → Bool
frac_lt x y = ltb_ℤ (left_side x y) (left_side y x)

abbrev pub frac_le : ℤ × ℕ → ℤ × ℕ → Bool
frac_le x y = leb_ℤ (left_side x y) (left_side y x)

-- `==` of a value that is no list and no dict with any value.
unfoldable pub scalar_eq : Value → Value → Bool
scalar_eq null null = true
scalar_eq (str s) (str t) = str_eq s t
scalar_eq (datetime s) (datetime t) = s == t
scalar_eq v w = elim (fraction v) [
  | none ↦ false
  | some x ↦ elim (fraction w) [ none ↦ false | some y ↦ frac_eq x y ]
]

-- `==`: lists by their items, dicts by their keys and values.
unfoldable mutual
  pub value_eq : Value → Value → Bool
  value_eq (arr vs) (arr ws) = items_eq vs ws
  value_eq (obj fs) (obj gs) = count_fields fs == count_fields gs && fields_eq fs gs
  value_eq v w = scalar_eq v w

  pub items_eq : Items → Items → Bool
  items_eq nil nil = true
  items_eq (cons v vs) (cons w ws) = value_eq v w && items_eq vs ws
  items_eq _ _ = false

  pub fields_eq : Fields → Fields → Bool
  fields_eq end gs = true
  fields_eq (field k v fs) gs =
      elim (get k gs) [ none ↦ false | some w ↦ value_eq v w ] && fields_eq fs gs

-- `v in [...]`
unfoldable pub member : Value → Items → Bool
unfolding value_eq
member v nil = false
member v (cons w ws) = value_eq v w || member v ws

-- `bool(v)`
unfoldable pub truthy : Value → Bool
truthy null = false
truthy (bool b) = b
truthy (int i) = not (eqb_ℤ i (pos 0))
truthy (float m k) = not (eqb_ℤ m (pos 0))
truthy (str String.[]) = false
truthy (str (String.◌∷◌ c s)) = true
truthy (datetime t) = true
truthy (arr nil) = false
truthy (arr (cons v vs)) = true
truthy (obj end) = false
truthy (obj (field k v fs)) = true
