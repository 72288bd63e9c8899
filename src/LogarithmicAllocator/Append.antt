-- ===== src/LogarithmicAllocator/Append.antt =====
-- LogarithmicAllocator: create_free_block puts a block at the end of the list of its order.
use sharedstructures.Base.{
  ℕ, ◌≡◌, ◌≢◌, ◌∙◌, ap, refl, subst, sym, arith, List, [], ◌∷◌, ◌++◌, some, false, ◌==◌, eq→==,
  ne→==, Away, Distinct, Each, set_at, set_at_same, set_at_other, set_at_all,
}
use sharedstructures.LogarithmicAllocator.Blocks.{Block, State, block_order, place}
use sharedstructures.LogarithmicAllocator.Lists.{
  set_block, free_block, link_block, create_free_block, set_tail, set_head, set_next,
}
use sharedstructures.LogarithmicAllocator.Span.{
  last_of, Span, Linkable, Span-other, Span-last, Span-next, Span-append, last_of-append,
  Away-last_of, Each-last_of,
}
use sharedstructures.LogarithmicAllocator.Listed.{
  Listed, IsOrder, FreeLists, place-differs, Listed-Away, Listed-set_block, Listed-set_head,
  Listed-set_tail,
}

-- The lists after a step that changes one of them.
pub FreeLists-changed :
    (view : ℕ → List ℕ) (order : ℕ) (xs : List ℕ) (s : State)
    → Listed order xs s
    → ((p : ℕ) → IsOrder p → order ≢ p → Listed p (view p) s)
    → FreeLists (set_at view order xs) s
FreeLists-changed view order xs s l others =
    set_at_all (λ p ys. IsOrder p → Listed p ys s) view order xs (λ i. l) (λ p n i. others p i n)

Each-snoc : (P : ℕ → Type 0) (xs : List ℕ) (y : ℕ) → Each P xs → P y → Each P (xs ++ (y ∷ []))
Each-snoc P [] y h k = (k, tt)
Each-snoc P (x ∷ xs) y h k = (h.0, Each-snoc P xs y (h.1) k)

Distinct-snoc : (xs : List ℕ) (y : ℕ) → Distinct xs → Away y xs → Distinct (xs ++ (y ∷ []))
Distinct-snoc [] y d a = (tt, tt)
Distinct-snoc (x ∷ xs) y d a =
    (Each-snoc (λ z. x ≢ z) xs y (d.0) (λ e. a.0 (sym e)), Distinct-snoc xs y (d.1) (a.1))

module _ (order offset : ℕ) (s : State) (io : IsOrder order) (here : Linkable offset) where
  abbrev tail : ℕ
  tail = s.free_tail (place order)

  abbrev filled : State
  filled = set_block offset (free_block order tail) s

  abbrev alone : State
  alone = set_tail order offset (set_head order offset filled)

  abbrev behind : State
  behind = set_tail order offset (set_next tail offset filled)

  alone-Listed : Listed order [] s → Listed order (offset ∷ []) alone
  unfolding free_block
  alone-Listed l = record {
    head = set_at_same s.free_head (place order) offset;
    tail = set_at_same s.free_tail (place order) offset;
    linked =
        (set_at_same s.blocks offset (free_block order tail) ∙ ap (free_block order) l.tail, tt);
    linkable = (here, tt);
    distinct = (tt, tt);
  }

  module _ (x : ℕ) (xs : List ℕ) (l : Listed order (x ∷ xs) s) (a : Away offset (x ∷ xs)) where
    abbrev last : ℕ
    last = last_of x xs

    -- The blocks with a link to the new one written at `t`.
    abbrev linked_from : ℕ → ℕ → Block
    linked_from t = set_at filled.blocks t (record (filled.blocks t) { next = offset })

    linked_on : Span (linked_from last) order 0 ((x ∷ xs) ++ (offset ∷ [])) 0
    unfolding free_block
    linked_on =
        Span-append (linked_from last) order 0 (x ∷ xs) 0 (offset ∷ [])
          (Span-next filled.blocks order 0 x xs 0 offset l.distinct
            (Span-other s.blocks order 0 (x ∷ xs) 0 offset (free_block order tail) a l.linked))
          (
            set_at_other filled.blocks last (record (filled.blocks last) { next = offset }) offset
                  (λ e. Away-last_of offset x xs (a.0) (a.1) (sym e))
                ∙ set_at_same s.blocks offset (free_block order tail)
                ∙ ap (free_block order) l.tail,
            tt,
          )

    behind-Listed : Listed order ((x ∷ xs) ++ (offset ∷ [])) behind
    behind-Listed = record {
      head = l.head;
      tail =
          set_at_same s.free_tail (place order) offset ∙ sym (last_of-append 0 offset (x ∷ xs) []);
      linked =
          subst (λ t. Span (linked_from t) order 0 ((x ∷ xs) ++ (offset ∷ [])) 0) (sym l.tail)
            linked_on;
      linkable = Each-snoc Linkable (x ∷ xs) offset l.linkable here;
      distinct = Distinct-snoc (x ∷ xs) offset l.distinct a;
    }

    last_order : block_order ((s.blocks tail).prev_order_allocated) ≡ order
    last_order =
        rw l.tail
          ((Span-last s.blocks order 0 x xs 0 (omega arith) (omega arith) l.linkable l.linked).0)

    filled_order : block_order ((filled.blocks tail).prev_order_allocated) ≡ order
    filled_order =
        let n : offset ≢ tail = λ e. Away-last_of offset x xs (a.0) (a.1) (e ∙ l.tail) in
        ap (λ b. block_order (b.prev_order_allocated))
          (set_at_other s.blocks offset (free_block order tail) tail n)
        ∙ last_order

    last_not_null : (tail == 0) ≡ false
    last_not_null =
        let k = Each-last_of Linkable x xs (l.linkable.0) (l.linkable.1) in
        ne→== tail 0 (λ e. k.0 (sym l.tail ∙ e))

  module _ (p : ℕ) (ys : List ℕ) (ip : IsOrder p) (n : order ≢ p) (l : Listed p ys s)
      (a : Away offset ys) where
    filled-other : Listed p ys filled
    filled-other = Listed-set_block p ys s l offset (free_block order tail) a

    alone-other : Listed p ys alone
    alone-other =
        let apart = place-differs order p io ip n in
        let headed = set_head order offset filled in
        Listed-set_tail p ys headed
          (Listed-set_head p ys filled filled-other (place order) offset apart) (place order) offset
          apart

    behind-other : Away tail ys → Listed p ys behind
    behind-other b =
        let apart = place-differs order p io ip n in
        let nexted = set_next tail offset filled in
        Listed-set_tail p ys nexted
          (Listed-set_block p ys filled filled-other tail
            (record (filled.blocks tail) { next = offset }) b)
          (place order) offset apart

-- A block in none of the lists is put at the end of the one of its order, without a failed
-- assertion, and the others stay.
module _ (view : ℕ → List ℕ) (order offset : ℕ) (s : State) (io : IsOrder order)
    (here : Linkable offset) (lists : FreeLists view s)
    (new : (o : ℕ) → IsOrder o → Away offset (view o)) where
  abbrev longer : ℕ → List ℕ
  longer = set_at view order (view order ++ (offset ∷ []))

  abbrev Appended : List ℕ → Type 0
  Appended xs =
      ((s' : State) × ((create_free_block offset order s ≡ some s')
          × FreeLists (set_at view order (xs ++ (offset ∷ []))) s'))

  appended : (xs : List ℕ) → Listed order xs s → Away offset xs → Appended xs
  unfolding create_free_block link_block
  appended [] l a = (
    alone order offset s io here,
    (
      rw (eq→== (s.free_tail (place order)) 0 l.tail) refl,
      FreeLists-changed view order (offset ∷ []) (alone order offset s io here)
          (alone-Listed order offset s io here l)
          (λ p ip n. alone-other order offset s io here p (view p) ip n (lists p ip) (new p ip)),
    ),
  )
  appended (x ∷ xs) l a = (
    behind order offset s io here,
    (
      rw
          (
            last_not_null order offset s io here x xs l a,
            filled_order order offset s io here x xs l a,
            eq→== order order refl,
          )
          refl,
      FreeLists-changed view order ((x ∷ xs) ++ (offset ∷ [])) (behind order offset s io here)
          (behind-Listed order offset s io here x xs l a)
          (λ p ip n. behind-other order offset s io here p (view p) ip n (lists p ip) (new p ip) (
            Listed-Away order p io ip n (view p) s (s.free_tail (place order))
              (last_order order offset s io here x xs l a) (lists p ip))),
    ),
  )

  pub create_free_block-FreeLists :
      (s' : State) × ((create_free_block offset order s ≡ some s') × FreeLists longer s')
  create_free_block-FreeLists = appended (view order) (lists order io) (new order io)
