-- ===== src/PrefixTree/Prune.antt =====
-- The loop of PrefixTree::erase that deletes empty nodes, and the lookups.
use sharedstructures.Base.{ℕ, ◌+◌, ◌≡◌, List, [], ◌∷◌}
use sharedstructures.Allocator.{Allocator}
use sharedstructures.PrefixTree.Node.{Tree}
use sharedstructures.PrefixTree.Move.{Link}

-- The nodes of a path, innermost first, each linked from the next one by its own parent_slot.
pub data Chain {S : Type 0} (t : Tree S) (P : ℕ → Type 0) (rank : ℕ → ℕ) : List ℕ → Type 0 where
  no_node : Chain t P rank []
  only_root : {x : ℕ} → Chain t P rank (x ∷ [])
  below :
      {x y : ℕ} {path : List ℕ}
      → P y
      → Link t y (t.nodes x).parent_slot x
      → rank x ≡ rank y + 1
      → Chain t P rank (y ∷ path)
      → Chain t P rank (x ∷ y ∷ path)
