-- ===== src/PrefixTree/Growth.antt =====
-- PrefixTree::traverse where it creates, as a whole, and the lookups.
use sharedstructures.Base.{ℕ, ◌-◌, ◌≡◌, ◌≢◌, false, not, if◌then◌else◌, some, ltb}
use sharedstructures.Allocator.{Allocator}
use sharedstructures.PrefixTree.Node.{
  Node, Tree, update, set_child, in_range, write_node, free_block,
}
use sharedstructures.PrefixTree.Traverse.{widened}
use sharedstructures.PrefixTree.Move.{Link}
use sharedstructures.PrefixTree.Shape.{WellFormed}

-- The widened node, and the tree in which it has taken the old one's place.
abbrev new_start : ℕ → Node → ℕ
new_start c n = if ltb c n.start then c else n.start

abbrev new_end : ℕ → Node → ℕ
new_end c n = if not (ltb c n.start) then c else n.end

abbrev wide : ℕ → Node → Node
wide c n = widened (ltb c n.start) (new_start c n) (new_end c n) n

module _ (A : Allocator) where
  -- What `widen` does after the allocation; `n` is the node as it was before.
  abbrev replaced : Node → (parent node c r : ℕ) → Tree A.State → Tree A.State
  replaced n parent node c r t₁ =
      let new_node = widened (ltb c n.start) (new_start c n) (new_end c n) (t₁.nodes node) in
      let t₂ = write_node r new_node t₁ in
      let p = t₂.nodes parent in
      let t₃ = write_node parent (set_child p (new_node.parent_slot - p.start) r) t₂ in
      free_block A node t₃

  module _ (t : Tree A.State) (P : ℕ → Type 0) (w : WellFormed A t P) (parent via node c r size : ℕ)
      (a : A.State) (e : A.allocate size t.alloc ≡ some (r, a)) (pp : P parent) (pn : P node)
      (link : Link t parent via node) (out : in_range c (t.nodes node) ≡ false)
      (fresh : (x : ℕ) → P x → x ≢ r) where
    abbrev after : Tree A.State
    after = replaced (t.nodes node) parent node c r (record t { alloc = a })

    abbrev with_new : ℕ → Node
    with_new = update t.nodes r (wide c (t.nodes node))

    abbrev new_parent : Node
    new_parent =
        set_child (with_new parent) ((wide c (t.nodes node)).parent_slot - (with_new parent).start)
          r
