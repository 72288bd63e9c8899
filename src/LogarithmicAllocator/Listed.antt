-- ===== src/LogarithmicAllocator/Listed.antt =====
-- LogarithmicAllocator: the list of one order, and of all of them, by what they hold.
use sharedstructures.Base.{
  ℕ, ◌<◌, ◌≤◌, ◌≡◌, ◌≢◌, ◌∙◌, sym, arith, List, Each, Away, Distinct, set_at, set_at_other,
}
use sharedstructures.LogarithmicAllocator.Blocks.{Block, State, block_order, place}
use sharedstructures.LogarithmicAllocator.Span.{
  first_of, last_of, Span, Linkable, Span-other, Span-foreign,
}

-- The list of an order is linked in both directions and holds the blocks at the given places.
pub record Listed (order : ℕ) (xs : List ℕ) (s : State) : Type 0 where
  pub head : s.free_head (place order) ≡ first_of xs 0
  pub tail : s.free_tail (place order) ≡ last_of 0 xs
  pub linked : Span s.blocks order 0 xs 0
  pub linkable : Each Linkable xs
  pub distinct : Distinct xs

abbrev pub IsOrder : ℕ → Type 0
IsOrder order = (4 ≤ order) × (order < 58)

-- Every list holds the blocks that `view` says.
abbrev pub FreeLists : (ℕ → List ℕ) → State → Type 0
FreeLists view s = (o : ℕ) → IsOrder o → Listed o (view o) s

place-other : (o p : ℕ) → IsOrder o → IsOrder p → o ≢ p → place o ≢ place p
unfolding place
place-other o p h k n e = n (omega arith)

-- A list and what it was before a change of the list of another order.
module _ (o p : ℕ) (io : IsOrder o) (ip : IsOrder p) (n : o ≢ p) where
  abbrev OfOrder : State → ℕ → Type 0
  OfOrder s k = block_order ((s.blocks k).prev_order_allocated) ≡ o

  pub place-differs : place o ≢ place p
  place-differs = place-other o p io ip n

  pub Listed-Away : (xs : List ℕ) (s : State) (k : ℕ) → OfOrder s k → Listed p xs s → Away k xs
  Listed-Away xs s k e l =
      Span-foreign s.blocks p 0 xs 0 k (omega arith) (omega arith) l.linkable l.linked
        (λ d. n (sym e ∙ d))

module _ (o : ℕ) (xs : List ℕ) (s : State) (l : Listed o xs s) where
  pub Listed-set_block :
      (k : ℕ) (v : Block) → Away k xs → Listed o xs (record s { blocks = set_at s.blocks k v })
  Listed-set_block k v a = record {
    head = l.head;
    tail = l.tail;
    linked = Span-other s.blocks o 0 xs 0 k v a l.linked;
    linkable = l.linkable;
    distinct = l.distinct;
  }

  pub Listed-set_head :
      (i v : ℕ) → i ≢ place o → Listed o xs (record s { free_head = set_at s.free_head i v })
  Listed-set_head i v n = record {
    head = set_at_other s.free_head i v (place o) n ∙ l.head;
    tail = l.tail;
    linked = l.linked;
    linkable = l.linkable;
    distinct = l.distinct;
  }

  pub Listed-set_tail :
      (i v : ℕ) → i ≢ place o → Listed o xs (record s { free_tail = set_at s.free_tail i v })
  Listed-set_tail i v n = record {
    head = l.head;
    tail = set_at_other s.free_tail i v (place o) n ∙ l.tail;
    linked = l.linked;
    linkable = l.linkable;
    distinct = l.distinct;
  }
