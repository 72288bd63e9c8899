-- ===== src/PrefixTree/Examples.antt =====
-- Tests, and the theorems about the tree at concrete trees.
use sharedstructures.Base.{ℕ, ◌≡◌, refl, true, ◌==◌, if◌then◌else◌, List, [], ◌∷◌, none, some}
use sharedstructures.Outcome.{ok, fail, out_of_range}
use sharedstructures.PrefixTree.Bump.{Bump, bump}
use sharedstructures.PrefixTree.Contents.{is_sub_node}
use sharedstructures.PrefixTree.Node.{Node, Tree, update}
use sharedstructures.PrefixTree.Query.{Doubles, at, exists, lookup_result_for_contents}
use sharedstructures.PrefixTree.Update.{insert_parts, insert_string}
use sharedstructures.PrefixTree.StoreString.{insert_parts-concat}
use sharedstructures.PrefixTree.Reading.{look, reach, at_lem}
use sharedstructures.PrefixTree.Exists.{exists_without_value}

abbrev pub empty_bump : Bump
empty_bump = record { count = 20; sizes = λ _. 0 }

-- The root leads by the character 1 to a node without a value, which holds an integer at 5.
abbrev pub root_node : Node
root_node = record {
  start = 0;
  end = 255;
  parent_slot = 0;
  value = 0;
  children = update (λ _. 0) 1 128;
}

abbrev pub inner_node : Node
inner_node = record { start = 5; end = 5; parent_slot = 1; value = 0; children = λ _. 0x12 }

abbrev pub tree : Tree Bump
tree = record {
  alloc = empty_bump;
  root = 16;
  item_count = 1;
  node_count = 2;
  nodes = update (λ _. root_node) 128 inner_node;
  words = λ _. 0;
  bytes = λ _. [];
}

abbrev doubles : Doubles
doubles = record { add = λ a b. if a == 0 then b else a; equal = λ a b. a == b }

abbrev long_string : List ℕ
long_string = 1 ∷ 2 ∷ 3 ∷ 4 ∷ 5 ∷ 6 ∷ 7 ∷ 8 ∷ []

insert_parts-concat_example :
    insert_parts bump doubles (9 ∷ []) ((1 ∷ 2 ∷ []) ∷ (3 ∷ []) ∷ []) none tree
    ≡ insert_string bump doubles (9 ∷ []) (1 ∷ 2 ∷ 3 ∷ []) none tree
insert_parts-concat_example =
    insert_parts-concat bump doubles (9 ∷ []) ((1 ∷ 2 ∷ []) ∷ (3 ∷ []) ∷ []) none tree

at_lem_example : at bump (1 ∷ 5 ∷ []) tree ≡ (
    if look tree 16 (1 ∷ 5 ∷ []) == 0
    then fail out_of_range tree
    else lookup_result_for_contents bump (look tree 16 (1 ∷ 5 ∷ [])) tree)
at_lem_example = at_lem bump tree (1 ∷ 5 ∷ [])

look_test : look tree 16 (1 ∷ 5 ∷ []) ≡ 0x12
unfolding look update is_sub_node
look_test = refl

reached : reach tree 16 (1 ∷ []) ≡ some 128
unfolding reach update is_sub_node
reached = refl

no_value : (tree.nodes 128).value ≡ 0
unfolding update
no_value = refl

exists_without_value_example :
    (exists bump (1 ∷ []) tree ≡ ok true tree) × (at bump (1 ∷ []) tree ≡ fail out_of_range tree)
exists_without_value_example = exists_without_value bump tree (1 ∷ []) 128 reached no_value
