-- ===== src/LogarithmicAllocator/Lists.antt =====
-- LogarithmicAllocator: a block is linked to the end of the list of its order, and unlinked.
use sharedstructures.Base.{ℕ, Option, none, some, ◌==◌, if◌then◌else◌, set_at}
use sharedstructures.LogarithmicAllocator.Blocks.{
  Block, State, block_order, block_prev, free_word, place,
}

abbrev pub set_block : ℕ → Block → State → State
set_block offset b s = record s { blocks = set_at s.blocks offset b }

-- block->next = next
abbrev pub set_next : (offset next : ℕ) → State → State
set_next offset next s = set_block offset (record (s.blocks offset) { next = next }) s

-- block->prev_order_allocated = word
abbrev set_word : (offset word : ℕ) → State → State
set_word offset word s =
    (set_block offset (record (s.blocks offset) { prev_order_allocated = word }) s)

abbrev pub set_head : (order offset : ℕ) → State → State
set_head order offset s = record s { free_head = set_at s.free_head (place order) offset }

abbrev pub set_tail : (order offset : ℕ) → State → State
set_tail order offset s = record s { free_tail = set_at s.free_tail (place order) offset }

-- The struct of a block that comes behind the one at `tail`.
unfoldable pub free_block : (order tail : ℕ) → Block
free_block order tail = record { prev_order_allocated = free_word order tail; next = 0 }

-- The links of a block whose struct is filled in; none where the assertion fails.
unfoldable pub link_block : (offset order tail : ℕ) → State → Option State
link_block offset order tail s =
    (if tail == 0
      then some (set_tail order offset (set_head order offset s))
      else if block_order ((s.blocks tail).prev_order_allocated) == order
      then some (set_tail order offset (set_next tail offset s))
      else none)

unfoldable pub create_free_block : (offset order : ℕ) → State → Option State
create_free_block offset order s =
    (let tail = s.free_tail (place order) in
      link_block offset order tail (set_block offset (free_block order tail) s))

-- The link back to a block that goes away, in the block behind it or the tail.
unfoldable pub unlink_next : (offset order : ℕ) → State → State
unlink_next offset order s =
    (let b = s.blocks offset in
      if b.next == 0
      then set_tail order (block_prev (b.prev_order_allocated)) s
      else set_word b.next (free_word order (block_prev (b.prev_order_allocated))) s)

-- The link on to a block that goes away, in the block in front of it or the head.
unfoldable pub unlink_prev : (offset order : ℕ) → State → State
unlink_prev offset order s =
    (let b = s.blocks offset in
      if block_prev (b.prev_order_allocated) == 0
      then set_head order b.next s
      else set_next (block_prev (b.prev_order_allocated)) b.next s)

unfoldable pub unlink_block : (offset : ℕ) → State → State
unlink_block offset s =
    (let order = block_order ((s.blocks offset).prev_order_allocated) in
      unlink_prev offset order (unlink_next offset order s))
