-- ===== src/PrefixTree/Clear.antt =====
-- Emptying a slot, with all that hangs below it: clear_value_slot, clear_node and clear. The fuel is
-- the depth of the tree, which has no more levels than nodes.
use sharedstructures.Base.{ℕ, zero, suc, ◌+◌, ◌-◌, ◌==◌, if◌then◌else◌}
use sharedstructures.Outcome.{Outcome, ok, fail, and_then, out_of_fuel}
use sharedstructures.Allocator.{Allocator}
use sharedstructures.PrefixTree.Contents.{
  sub_node, string, long_int, double, unknown, type_for_contents, value_for_contents,
}
use sharedstructures.PrefixTree.Node.{
  Slot, value_slot, child_slot, Tree, read_slot, write_slot, uncount_item, uncount_node, free_block,
}

abbrev pub depth_of : {S : Type 0} → Tree S → ℕ
depth_of t = suc (suc t.node_count)

module _ (A : Allocator) where
  abbrev Clearing : Type 0
  Clearing = Slot → Tree A.State → Outcome (Tree A.State) (Unit {0})

  -- The slots of the node from index `x` on, `count` of them.
  clear_children : Clearing → (count x node : ℕ) → Tree A.State → Outcome (Tree A.State) (Unit {0})
  clear_children clear zero x node t = ok tt t
  clear_children clear (suc count) x node t =
      and_then (clear (child_slot node x) t) λ _ t'. clear_children clear count (x + 1) node t'

  pub clear_node : Clearing → ℕ → Tree A.State → Outcome (Tree A.State) (Unit {0})
  unfolding clear_children
  clear_node clear node t =
      and_then (clear (value_slot node) t)
        λ _ t'. clear_children clear ((t'.nodes node).end + 1 - (t'.nodes node).start) 0 node t'

  -- The pointer goes first, then the buffer, which may be absent.
  pub drop_buffer : Slot → ℕ → Tree A.State → Tree A.State
  unfolding write_slot
  drop_buffer slot offset t =
      let t₁ = write_slot slot 0 t in
      uncount_item (if offset == 0 then t₁ else free_block A offset t₁)

  pub drop_value : Slot → ℕ → Tree A.State → Tree A.State
  unfolding type_for_contents value_for_contents drop_buffer
  drop_value slot contents t = elim (type_for_contents contents) [
    | string ↦ drop_buffer slot (value_for_contents contents) t
    | long_int ↦ drop_buffer slot (value_for_contents contents) t
    | double ↦ drop_buffer slot (value_for_contents contents) t
    | unknown ↦ t
    | _ ↦ uncount_item (write_slot slot 0 t)
  ]

  pub clear_sub_node : Clearing → Slot → ℕ → Tree A.State → Outcome (Tree A.State) (Unit {0})
  unfolding write_slot clear_node
  clear_sub_node clear slot node t =
      and_then (clear_node clear node t)
        λ _ t'. ok tt (uncount_node (free_block A node (write_slot slot 0 t')))

  pub clear_value_slot : ℕ → Clearing
  unfolding read_slot type_for_contents value_for_contents clear_sub_node drop_value
  clear_value_slot zero slot t = fail out_of_fuel t
  clear_value_slot (suc fuel) slot t =
      let contents = read_slot slot t in
      if contents == 0 then ok tt t else elim (type_for_contents contents) [
        | sub_node ↦ clear_sub_node (clear_value_slot fuel) slot (value_for_contents contents) t
        | _ ↦ ok tt (drop_value slot contents t)
      ]

  pub clear : Tree A.State → Outcome (Tree A.State) (Unit {0})
  unfolding clear_value_slot
  clear t = clear_node (clear_value_slot (depth_of t)) t.root t
