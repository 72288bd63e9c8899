-- ===== src/PrefixTree/Node.antt =====
-- The nodes of the tree and the memory that they stand in.
use sharedstructures.Base.{
  ℕ, zero, suc, ◌+◌, ◌-◌, ◌*◌, Bool, false, ◌||◌, not, ◌==◌, if◌then◌else◌, add64, sub64, List, ltb,
  Option, none, some,
}
use sharedstructures.Outcome.{Outcome, ok, fail, and_then, bad_alloc}
use sharedstructures.Allocator.{Allocator}

-- The child slots are indexed from 0, which stands for the character `start`.
pub record Node : Type 0 where
  pub start : ℕ
  pub end : ℕ
  pub parent_slot : ℕ
  pub value : ℕ
  pub children : ℕ → ℕ

-- The address of a slot: the field `value` of a node, or one of its `children`.
pub data Slot : Type 0 where
  value_slot : ℕ → Slot
  child_slot : ℕ → ℕ → Slot

-- A tree in the pool: the allocator, the TreeBase, and what the pool holds at each offset, read as
-- a node, as an eight-byte number, or as the bytes of a string. `root` is the offset of the root.
pub record Tree (S : Type 0) : Type 0 where
  pub alloc : S
  pub root : ℕ
  pub item_count : ℕ
  pub node_count : ℕ
  pub nodes : ℕ → Node
  pub words : ℕ → ℕ
  pub bytes : ℕ → List ℕ

abbrev pub node_header_size : ℕ
node_header_size = 16

-- Node::size_for_range
pub size_for_range : ℕ → ℕ → ℕ
size_for_range start end = node_header_size + (end + 1 - start) * 8

module _ {B : Type 0} where
  unfoldable pub update : (ℕ → B) → ℕ → B → ℕ → B
  update f a b x = if x == a then b else f x

abbrev pub set_child : Node → ℕ → ℕ → Node
set_child n i v = record n { children = update n.children i v }

module _ {S : Type 0} where
  abbrev pub write_node : ℕ → Node → Tree S → Tree S
  write_node off n t = record t { nodes = update t.nodes off n }

  unfoldable pub read_slot : Slot → Tree S → ℕ
  read_slot (value_slot off) t = (t.nodes off).value
  read_slot (child_slot off i) t = (t.nodes off).children i

  unfoldable pub write_slot : Slot → ℕ → Tree S → Tree S
  write_slot (value_slot off) v t = write_node off (record (t.nodes off) { value = v }) t
  write_slot (child_slot off i) v t = write_node off (set_child (t.nodes off) i v) t

  abbrev pub count_item : Tree S → Tree S
  count_item t = record t { item_count = add64 t.item_count 1 }

  abbrev pub uncount_item : Tree S → Tree S
  uncount_item t = record t { item_count = sub64 t.item_count 1 }

  abbrev pub count_node : Tree S → Tree S
  count_node t = record t { node_count = add64 t.node_count 1 }

  abbrev pub uncount_node : Tree S → Tree S
  uncount_node t = record t { node_count = sub64 t.node_count 1 }

-- Node::has_children: the slots from index `x` on, `count` of them.
unfoldable pub any_child : ℕ → ℕ → Node → Bool
any_child zero x n = false
any_child (suc count) x n = not (n.children x == 0) || any_child count (x + 1) n

unfoldable pub has_children : Node → Bool
unfolding any_child
has_children n = any_child (n.end + 1 - n.start) 0 n

abbrev pub in_range : ℕ → Node → Bool
in_range c n = not (ltb c n.start || ltb n.end c)

module _ (A : Allocator) where
  -- What the caller gets: the block, or bad_alloc.
  abbrev pub block_outcome : Tree A.State → Option (ℕ × A.State) → Outcome (Tree A.State) ℕ
  block_outcome t none = fail bad_alloc t
  block_outcome t (some (r, a)) = ok r (record t { alloc = a })

  unfoldable pub allocate_block : ℕ → Tree A.State → Outcome (Tree A.State) ℕ
  allocate_block size t = block_outcome t (A.allocate size t.alloc)

  abbrev pub free_block : ℕ → Tree A.State → Tree A.State
  free_block off t = record t { alloc = A.free off t.alloc }

  abbrev full_size : ℕ
  full_size = node_header_size + 0x100 * 8

  abbrev full_node : Node
  full_node = record { start = 0x00; end = 0xFF; parent_slot = 0; value = 0; children = λ _. 0 }

  -- The constructor, in a pool that may hold anything: the TreeBase with its two counters and the root.
  pub create_tree : Tree A.State → Outcome (Tree A.State) (Unit {0})
  unfolding allocate_block
  create_tree t = and_then (allocate_block (16 + full_size) t) λ r t₁.
      let made = record t₁ { root = r + 16; item_count = 0; node_count = 1 } in
      ok tt (write_node (r + 16) full_node made)
