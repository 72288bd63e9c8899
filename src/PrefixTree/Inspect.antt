-- ===== src/PrefixTree/Inspect.antt =====
-- The sizes that PrefixTree.cc reports: size, node_size, and what the subtree of a prefix takes.
use sharedstructures.Base.{
  ℕ, zero, suc, ◌+◌, ◌-◌, false, ◌||◌, not, ◌==◌, if◌then◌else◌, List, [], ◌∷◌, none, some, add64,
  sub64,
}
use sharedstructures.Outcome.{Outcome, ok, fail, and_then, out_of_range, out_of_fuel}
use sharedstructures.Allocator.{Allocator}
use sharedstructures.PrefixTree.Contents.{
  sub_node, string, long_int, double, unknown, type_for_contents, value_for_contents, is_sub_node,
}
use sharedstructures.PrefixTree.Node.{Tree, node_header_size, read_slot}
use sharedstructures.PrefixTree.Traverse.{Traversal, traverse}
use sharedstructures.PrefixTree.Clear.{depth_of}

module _ (A : Allocator) where
  pub size : Tree A.State → ℕ
  size t = t.item_count

  pub node_size : Tree A.State → ℕ
  node_size t = t.node_count

  abbrev Measure : Type 0
  Measure = ℕ → Tree A.State → Outcome (Tree A.State) ℕ

  -- The sum over the slots of the node from index `x` on, `count` of them.
  sum_children : Measure → (count x node sum : ℕ) → Tree A.State → Outcome (Tree A.State) ℕ
  sum_children measure zero x node sum t = ok sum t
  sum_children measure (suc count) x node sum t =
      and_then (measure ((t.nodes node).children x) t)
        λ n t'. sum_children measure count (x + 1) node (add64 sum n) t'

  pub sum_node : Measure → ℕ → ℕ → Tree A.State → Outcome (Tree A.State) ℕ
  unfolding sum_children
  sum_node measure node sum t =
      sum_children measure ((t.nodes node).end + 1 - (t.nodes node).start) 0 node sum t

  bytes_of_value : Measure
  unfolding type_for_contents value_for_contents
  bytes_of_value contents t = elim (type_for_contents contents) [
    | sub_node ↦ ok 8 t
    | string ↦ ok (add64 8 (A.block_size (value_for_contents contents) t.alloc)) t
    | long_int ↦ ok 16 t
    | double ↦ ok 16 t
    | unknown ↦ fail out_of_range t
    | _ ↦ ok 8 t
  ]

  pub bytes_for_contents : ℕ → Measure
  unfolding sum_node bytes_of_value
  bytes_for_contents zero contents t = fail out_of_fuel t
  bytes_for_contents (suc fuel) contents t =
      if not (is_sub_node contents) || contents == 0
      then bytes_of_value contents t
      else sum_node (bytes_for_contents fuel) contents (8 + node_header_size) t

  pub nodes_for_contents : ℕ → Measure
  unfolding sum_node
  nodes_for_contents zero contents t = fail out_of_fuel t
  nodes_for_contents (suc fuel) contents t =
      if contents == 0 || not (is_sub_node contents)
      then ok 0 t
      else sum_node (nodes_for_contents fuel) contents 1 t

  abbrev measure_slot : Measure → Traversal → Tree A.State → Outcome (Tree A.State) ℕ
  measure_slot measure r t = elim r.value_slot_offset [
    | none ↦ ok 0 t
    | some slot ↦ measure (read_slot slot t) t
  ]

  pub bytes_for_prefix : List ℕ → Tree A.State → Outcome (Tree A.State) ℕ
  unfolding read_slot bytes_for_contents
  bytes_for_prefix [] t =
      and_then (bytes_for_contents (depth_of t) t.root t) λ n t'. ok (sub64 n 8) t'
  bytes_for_prefix (c ∷ k) t =
      and_then (traverse A (c ∷ k) false false t) (measure_slot (bytes_for_contents (depth_of t)))

  pub nodes_for_prefix : List ℕ → Tree A.State → Outcome (Tree A.State) ℕ
  unfolding read_slot nodes_for_contents
  nodes_for_prefix [] t = nodes_for_contents (depth_of t) t.root t
  nodes_for_prefix (c ∷ k) t =
      and_then (traverse A (c ∷ k) false false t) (measure_slot (nodes_for_contents (depth_of t)))
