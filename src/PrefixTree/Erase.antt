-- ===== src/PrefixTree/Erase.antt =====
-- PrefixTree::erase, and the insert of a lookup result, which is an insert or an erase.
use sharedstructures.Base.{
  ℕ, ◌-◌, Bool, true, false, not, ◌==◌, if◌then◌else◌, List, [], ◌∷◌, Option, none, some,
}
use sharedstructures.Outcome.{Outcome, ok, and_then}
use sharedstructures.Allocator.{Allocator}
use sharedstructures.PrefixTree.Node.{
  Tree, set_child, write_node, has_children, uncount_node, free_block,
}
use sharedstructures.PrefixTree.Traverse.{Traversal, traverse}
use sharedstructures.PrefixTree.Query.{
  Doubles, CheckRequest, LookupResult, missing_result, null_result, string_result, int_result,
  double_result, bool_result,
}
use sharedstructures.PrefixTree.Clear.{clear_value_slot, depth_of}
use sharedstructures.PrefixTree.Update.{
  checked, insert_string, insert_int, insert_bool, insert_null, insert_double,
}

module _ (A : Allocator) where
  -- Puts the value of an empty node into its slot in the parent.
  unfoldable pub unlink_node : (node parent : ℕ) → Tree A.State → Tree A.State
  unlink_node node parent t =
      let n = t.nodes node in
      let p = t.nodes parent in
      let t₁ = write_node parent (set_child p (n.parent_slot - p.start) n.value) t in
      uncount_node (free_block A node t₁)

  -- The node offsets, innermost first; the root stays.
  unfoldable pub prune : List ℕ → Tree A.State → Tree A.State
  unfolding has_children unlink_node
  prune [] t = t
  prune (root ∷ []) t = t
  prune (node ∷ parent ∷ path) t =
      let pruned = prune (parent ∷ path) (unlink_node node parent t) in
      if has_children (t.nodes node)
      then t
      else if not ((t.nodes node).value == 0)
      then unlink_node node parent t
      else pruned

  erase_slot : Traversal → Tree A.State → Outcome (Tree A.State) Bool
  unfolding prune
  erase_slot r t = elim r.value_slot_offset [
    | none ↦ ok false t
    | some slot ↦
        and_then (clear_value_slot A (depth_of t) slot t) λ _ t'. ok true (prune r.node_offsets t')
  ]

  pub erase : Doubles → List ℕ → Option CheckRequest → Tree A.State → Outcome (Tree A.State) Bool
  unfolding erase_slot
  erase D k check t = checked A D check (λ t₁. and_then (traverse A k true false t₁) erase_slot) t

  pub insert_result :
      Doubles
      → List ℕ
      → LookupResult
      → Option CheckRequest
      → Tree A.State
      → Outcome (Tree A.State) Bool
  unfolding erase
  insert_result D k missing_result = erase D k
  insert_result D k null_result = insert_null A D k
  insert_result D k (string_result v) = insert_string A D k v
  insert_result D k (int_result v) = insert_int A D k v
  insert_result D k (double_result v) = insert_double A D k v
  insert_result D k (bool_result b) = insert_bool A D k b
