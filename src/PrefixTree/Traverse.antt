-- ===== src/PrefixTree/Traverse.antt =====
-- PrefixTree::traverse
use sharedstructures.Base.{
  ℕ, ◌+◌, ◌-◌, Bool, not, ◌==◌, if◌then◌else◌, List, [], ◌∷◌, Option, none, some, ltb, leb,
}
use sharedstructures.Outcome.{Outcome, ok, fail, and_then, invalid_argument}
use sharedstructures.Allocator.{Allocator}
use sharedstructures.PrefixTree.Contents.{is_sub_node}
use sharedstructures.PrefixTree.Node.{
  Node, Slot, value_slot, child_slot, Tree, size_for_range, set_child, write_node, count_node,
  in_range, allocate_block, free_block,
}

-- Where following the links ends: at a slot that holds the value of the last character; or at a
-- node, with its parent, the character that led there, and the characters that are left.
pub data Stop : Type 0 where
  at_value : ℕ → ℕ → Stop
  at_node : (parent via node : ℕ) → List ℕ → Stop

-- The nodes on the way, innermost first.
pub record Followed : Type 0 where
  pub stop : Stop
  pub node_offsets : List ℕ

pub record Traversal : Type 0 where
  pub value_slot_offset : Option Slot
  pub node_offsets : List ℕ

abbrev pub at_last : ℕ → ℕ → ℕ → List ℕ → ℕ → List ℕ → Stop
at_last parent via node [] i rest = at_value node i
at_last parent via node (_ ∷ _) i rest = at_node parent via node rest

module _ {S : Type 0} (t : Tree S) where
  unfoldable pub follow : (parent via node : ℕ) → List ℕ → List ℕ → Followed
  follow parent via node path [] = record { stop = at_node parent via node []; node_offsets = path }
  follow parent via node path (c ∷ k) =
      let next = (t.nodes node).children (c - (t.nodes node).start) in
      let here : Followed = record {
        stop = at_node parent via node (c ∷ k);
        node_offsets = path;
      } in
      let value : Followed = record {
        stop = at_last parent via node k (c - (t.nodes node).start) (c ∷ k);
        node_offsets = path;
      } in
      let down = follow node c next (next ∷ path) k in
      if not (in_range c (t.nodes node))
      then here
      else if next == 0
      then here
      else if not (is_sub_node next)
      then value
      else down

-- The new node's slots: the old node's, or empty.
unfoldable pub widened : Bool → ℕ → ℕ → Node → Node
widened extend_start new_start new_end n = record n {
  start = new_start;
  end = new_end;
  children = λ i.
      let x = i + new_start in
      if extend_start
      then (if ltb x n.start then 0 else n.children (x - n.start))
      else (if leb x n.end then n.children (x - n.start) else 0);
}

-- A new node with the one slot `slot`.
abbrev pub single : ℕ → ℕ → ℕ → Node
single slot parent_slot value = record {
  start = slot;
  end = slot;
  parent_slot = parent_slot;
  value = value;
  children = λ _. 0;
}

module _ (A : Allocator) where
  -- Replaces a node by one whose range has room for `c`; gives the offset of the new one.
  unfoldable pub widen : (parent node c : ℕ) → Tree A.State → Outcome (Tree A.State) ℕ
  unfolding widened
  widen parent node c t =
      let n = t.nodes node in
      let extend_start = ltb c n.start in
      let new_start = if extend_start then c else n.start in
      let new_end = if not extend_start then c else n.end in
      and_then (allocate_block A (size_for_range new_start new_end) t) λ r t₁.
        let new_node = widened extend_start new_start new_end (t₁.nodes node) in
        let t₂ = write_node r new_node t₁ in
        let p = t₂.nodes parent in
        let t₃ = write_node parent (set_child p (new_node.parent_slot - p.start) r) t₂ in
        ok r (free_block A node t₃)

  unfoldable pub extend_range : (parent node c : ℕ) → Tree A.State → Outcome (Tree A.State) ℕ
  unfolding widen
  extend_range parent node c t =
      if in_range c (t.nodes node) then ok node t else widen parent node c t

  -- Creates the nodes for all characters but the last, whose slot is the result.
  unfoldable pub create_nodes :
      (node : ℕ) → List ℕ → ℕ → List ℕ → Tree A.State → Outcome (Tree A.State) Traversal
  create_nodes node path c [] t =
      ok
        (record {
          value_slot_offset = some (child_slot node (c - (t.nodes node).start));
          node_offsets = path;
        })
        t
  create_nodes node path c (d ∷ k) t =
      let i = c - (t.nodes node).start in
      and_then (allocate_block A (size_for_range c c) t) λ r t₁.
        let t₂ = write_node r (single d c ((t.nodes node).children i)) t₁ in
        let t₃ = write_node node (set_child (t₂.nodes node) i r) t₂ in
        create_nodes r (r ∷ path) d k (count_node t₃)

  abbrev pub replace_last : List ℕ → ℕ → List ℕ
  replace_last [] r = r ∷ []
  replace_last (_ ∷ path) r = r ∷ path

  unfoldable pub create_path :
      (parent node : ℕ) → List ℕ → ℕ → List ℕ → Tree A.State → Outcome (Tree A.State) Traversal
  unfolding extend_range create_nodes
  create_path parent node path c k t =
      and_then (extend_range parent node c t) λ r t₁. create_nodes r (replace_last path r) c k t₁

  abbrev pub missing : List ℕ → Traversal
  missing path = record { value_slot_offset = none; node_offsets = path }

  -- The end of the key was reached at a node.
  unfoldable pub slot_of_node : Bool → (parent via node : ℕ) → Tree A.State → Slot
  slot_of_node return_values_only parent via node t =
      if return_values_only
      then value_slot node
      else child_slot parent (via - (t.nodes parent).start)

  unfoldable pub finish : Bool → Bool → Followed → Tree A.State → Outcome (Tree A.State) Traversal
  unfolding create_path slot_of_node
  finish return_values_only create f t = elim f.stop [
    | at_value node i ↦
        ok (record { value_slot_offset = some (child_slot node i); node_offsets = f.node_offsets })
          t
    | at_node parent via node [] ↦
        ok
          (record {
            value_slot_offset = some (slot_of_node return_values_only parent via node t);
            node_offsets = f.node_offsets;
          })
          t
    | at_node parent via node (c ∷ k) ↦
        if not create
        then ok (missing f.node_offsets) t
        else create_path parent node f.node_offsets c k t
  ]

  -- The node offsets are collected in any case; a caller without `with_nodes` does not look at them.
  unfoldable pub traverse : List ℕ → Bool → Bool → Tree A.State → Outcome (Tree A.State) Traversal
  unfolding follow finish
  traverse [] return_values_only create t =
      if not return_values_only
      then fail invalid_argument t
      else finish return_values_only create (follow t 0 0 t.root (t.root ∷ []) []) t
  traverse (c ∷ k) return_values_only create t =
      finish return_values_only create (follow t 0 0 t.root (t.root ∷ []) (c ∷ k)) t
