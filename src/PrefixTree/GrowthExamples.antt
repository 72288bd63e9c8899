-- ===== src/PrefixTree/GrowthExamples.antt =====
-- A tree in order with a traversal that creates in it, and one with a node to delete.
use sharedstructures.Base.{ℕ, List, ◌≡◌, ◌⊎◌, ◌==◌, if◌then◌else◌, [], ◌∷◌}
use sharedstructures.PrefixTree.Node.{Node, Tree, update}
use sharedstructures.PrefixTree.Bump.{Bump}
use sharedstructures.PrefixTree.Examples.{tree, root_node}

abbrev InTree : ℕ → Type 0
InTree x = (x ≡ 16) ⊎ (x ≡ 128)

record OnlyLink (x c y : ℕ) : Type 0 where
  from : x ≡ 16
  via : c ≡ 1
  to : y ≡ 128

abbrev rank : ℕ → ℕ
rank x = if x == 16 then 0 else 1

abbrev home : ℕ → ℕ
home x = if x == 16 then 0 else x

-- The root leads by the character 1 to a node that holds an integer of its own and nothing else.
abbrev spare_node : Node
spare_node = record { start = 5; end = 5; parent_slot = 1; value = 0x12; children = λ _. 0 }

abbrev spare : Tree Bump
spare = record tree { nodes = update (λ _. root_node) 128 spare_node }

abbrev other_key : List ℕ
other_key = 7 ∷ []
