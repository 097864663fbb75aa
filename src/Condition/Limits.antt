-- ===== src/Condition/Limits.antt =====
-- The limits that a validated condition keeps.
use zero_trust_continuous_au.Base.{
  ℕ, suc, ◌+◌, ◌≤◌, ◌≡◌, refl, Bool, true, false, Option, none, some, arith, not, ◌&&◌,
  Option-cases, inl, inr,
}
use zero_trust_continuous_au.Json.{
  Value, str, arr, obj, Items, nil, cons, Fields, end, field, get, has_key,
}
use zero_trust_continuous_au.Condition.{
  Host, Op, Checked, accepted, invalid, Invalid, ◌>>=◌, refuse_if, has_unknown, max_nodes,
  max_depth, check_path, check_value, check_op, check_leaf, find_op, needs_value, or_null, enter,
  validate_from, validate_object, validate_group, validate_items, validate,
}
use zero_trust_continuous_au.Condition.Size.{
  nodes, nodes_object, nodes_group, nodes_items, depth, depth_object, depth_group, depth_items,
}

-- A step that succeeds gives back the counter that it was given.
abbrev Keeps : Checked → ℕ → Type 0
Keeps r n = (m : ℕ) → r ≡ accepted m → m ≡ n

refuse_if-Keeps : (b : Bool) (e : Invalid) (n : ℕ) → Keeps (refuse_if b e n) n
refuse_if-Keeps true e n m h = cc
refuse_if-Keeps false e n m h = cc

bind-Keeps : (r : Checked) (f : ℕ → Checked) (n : ℕ) → Keeps r n → Keeps (f n) n → Keeps (r >>= f) n
bind-Keeps (accepted x) f n k kf m h = kf m (rw (k x refl) at h)
bind-Keeps (invalid e) f n k kf m h = cc

check_path-Keeps : (v : Option Value) (n : ℕ) → Keeps (check_path v n) n
unfolding check_path
check_path-Keeps (some (str p)) n m h = ground arith
check_path-Keeps none n m h = cc
check_path-Keeps (some v) n m h = cc

check_value-Keeps : (host : Host) (op : Op) (v : Value) (n : ℕ) → Keeps (check_value host op v n) n
unfolding check_value
check_value-Keeps host op v n m h = ground arith

check_op-Keeps :
    (host : Host) (v : Option Value) (fs : Fields) (n : ℕ) → Keeps (check_op host v fs n) n
unfolding check_op
check_op-Keeps host (some (str s)) fs n = elim (Option-cases (find_op s)) [
  | inl unknown ↦ λ m h. cc (rw (unknown, check_op) at h)
  | inr (op, e) ↦ λ m h.
      bind-Keeps (refuse_if (needs_value op && not (has_key "value" fs)) _ n) _ n
        (refuse_if-Keeps (needs_value op && not (has_key "value" fs)) _ n)
        (check_value-Keeps host op (or_null (get "value" fs)) n) m (rw (e, check_op) at h)
]
check_op-Keeps host none fs n = λ m h. cc
check_op-Keeps host (some v) fs n = λ m h. cc

-- What a successful bind has gone through.
pub bind-accepted :
    (r : Checked) (f : ℕ → Checked) {n : ℕ}
    → (r >>= f) ≡ accepted n
    → (m : ℕ) × (r ≡ accepted m) × (f m ≡ accepted n)
bind-accepted (accepted m) f h = (m, refl, h)
bind-accepted (invalid e) f h = cc

check_leaf-Keeps : (host : Host) (fs : Fields) (n : ℕ) → Keeps (check_leaf host fs n) n
unfolding check_leaf
check_leaf-Keeps host fs n =
    bind-Keeps (refuse_if (has_unknown fs) _ n) _ n (refuse_if-Keeps (has_unknown fs) _ n) (
      bind-Keeps (check_path (get "field" fs) n) _ n (check_path-Keeps (get "field" fs) n)
        (check_op-Keeps host (get "op" fs) fs n))

enter_accepted :
    (d c m : ℕ) → enter d c ≡ accepted m → (m ≡ c + 1) × (m ≤ max_nodes) × (d ≤ max_depth)
enter_accepted d c m h = ground arith

module _ (host : Host) where
  -- An accepted part has added its nodes to the counter, within both limits.
  abbrev Counted : ℕ → ℕ → ℕ → ℕ → ℕ → Type 0
  Counted size height d c n = (n ≡ c + size) × (n ≤ max_nodes) × (d + height ≤ suc max_depth)

  mutual
    unfolding validate_from nodes depth

    validate_from-Counted :
        (v : Value) (d c n : ℕ)
        → validate_from host v d c ≡ accepted n
        → Counted (nodes v) (depth v) d c n
    validate_from-Counted (obj fs) d c n h =
        let (m, e, rest) = bind-accepted (enter d c) (λ m. validate_object host fs d m) h in
        let (one, room, high) = enter_accepted d c m e in
        let (size, room', high') = validate_object-Counted fs d m n room high rest in
        (omega arith, room', omega arith)
    validate_from-Counted v d c n h = ground arith

    validate_object-Counted :
        (fs : Fields) (d c n : ℕ)
        → c ≤ max_nodes
        → d ≤ max_depth
        → validate_object host fs d c ≡ accepted n
        → Counted (nodes_object fs) (depth_object fs) (suc d) c n
    validate_object-Counted end d c n hc hd h = cc
    validate_object-Counted (field k v end) d c n hc hd h = ground (
      arith,
      validate_from-Counted v (suc d) c n,
      validate_group-Counted v d c n,
      check_leaf-Keeps host (field k v end) c n,
    )
    validate_object-Counted (field k v (field j w fs)) d c n hc hd h =
        ground (arith, check_leaf-Keeps host (field k v (field j w fs)) c n)

    validate_group-Counted :
        (v : Value) (d c n : ℕ)
        → c ≤ max_nodes
        → d ≤ max_depth
        → validate_group host v d c ≡ accepted n
        → Counted (nodes_group v) (depth_group v) (suc d) c n
    validate_group-Counted (arr nil) d c n hc hd h = cc
    validate_group-Counted (arr (cons v vs)) d c n hc hd h =
        ground (arith, validate_items-Counted (cons v vs) (suc d) c n)
    validate_group-Counted _ d c n hc hd h = cc

    validate_items-Counted :
        (vs : Items) (d c n : ℕ)
        → c ≤ max_nodes
        → d ≤ suc max_depth
        → validate_items host vs d c ≡ accepted n
        → Counted (nodes_items vs) (depth_items vs) d c n
    validate_items-Counted nil d c n hc hd h = ground arith
    validate_items-Counted (cons v vs) d c n hc hd h =
        let (m, e, rest) =
          bind-accepted (validate_from host v d c) (λ m. validate_items host vs d m) h in
        let (size, room, high) = validate_from-Counted v d c m e in
        let (size', room', high') = validate_items-Counted vs d m n room hd rest in
        (omega arith, room', omega arith)

  -- A validated condition has at most 8 nodes on a branch and at most 128 nodes in all, and the counter
  -- of `_validate` ends at their number.
  pub validate_limits :
      (v : Value) (n : ℕ)
      → validate host v ≡ accepted n
      → (n ≡ nodes v) × (nodes v ≤ max_nodes) × (depth v ≤ max_depth)
  unfolding validate
  validate_limits v n h = omega (arith, validate_from-Counted v 1 0 n h)
