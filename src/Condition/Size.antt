-- ===== src/Condition/Size.antt =====
-- The size and the depth of a condition tree, and of its trace.
use zero_trust_continuous_au.Base.{ℕ, suc, ◌+◌, max, str_eq, if◌then◌else◌}
use zero_trust_continuous_au.Json.{Value, arr, obj, Items, nil, cons, Fields, end, field}
use zero_trust_continuous_au.Condition.{is_all_any}
use zero_trust_continuous_au.Condition.Trace.{Trace, leaf, gate, Traces, none_left, one_more}

-- The nodes that the tree has: combinators and comparisons.
unfoldable mutual
  pub nodes : Value → ℕ
  nodes (obj fs) = suc (nodes_object fs)
  nodes v = 1

  pub nodes_object : Fields → ℕ
  nodes_object (field k v end) =
      if str_eq k "not" then nodes v else if is_all_any k then nodes_group v else 0
  nodes_object fs = 0

  pub nodes_group : Value → ℕ
  nodes_group (arr vs) = nodes_items vs
  nodes_group v = 0

  pub nodes_items : Items → ℕ
  nodes_items nil = 0
  nodes_items (cons v vs) = nodes v + nodes_items vs

-- The nodes on its longest branch.
unfoldable mutual
  pub depth : Value → ℕ
  depth (obj fs) = suc (depth_object fs)
  depth v = 1

  pub depth_object : Fields → ℕ
  depth_object (field k v end) =
      if str_eq k "not" then depth v else if is_all_any k then depth_group v else 0
  depth_object fs = 0

  pub depth_group : Value → ℕ
  depth_group (arr vs) = depth_items vs
  depth_group v = 0

  pub depth_items : Items → ℕ
  depth_items nil = 0
  depth_items (cons v vs) = max (depth v) (depth_items vs)

unfoldable mutual
  pub trace_nodes : Trace → ℕ
  trace_nodes (leaf l) = 1
  trace_nodes (gate g ts b e) = suc (traces_nodes ts)

  pub traces_nodes : Traces → ℕ
  traces_nodes none_left = 0
  traces_nodes (one_more t ts) = trace_nodes t + traces_nodes ts
