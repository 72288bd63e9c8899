-- ===== src/LogarithmicAllocator/Unlink.antt =====
-- LogarithmicAllocator: unlink_block takes a block out of the list of its order.
use sharedstructures.Base.{
  ℕ, ◌^◌, ◌<◌, ◌≡◌, ◌≢◌, ◌∙◌, refl, sym, subst, arith, List, [], ◌∷◌, ◌++◌, ◌==◌, Bool-cases, inl,
  inr, ==→ne, ne→==, Away, Distinct, Each, set_at, set_at_same, set_at_other,
}
use sharedstructures.LogarithmicAllocator.Blocks.{
  Block, State, block_order, block_prev, free_word, place, block_prev-free_word,
}
use sharedstructures.LogarithmicAllocator.Lists.{unlink_next, unlink_prev, unlink_block}
use sharedstructures.LogarithmicAllocator.Span.{
  first_of, last_of, Span, Linkable, Span-other, Span-orders, Span-next, Span-prev, Span-append,
  Span-front, Span-back, last_of-append, last_of-joined, Each-last_of,
}
use sharedstructures.LogarithmicAllocator.Places.{
  Each-front, Each-back, Each-without, Distinct-front, Distinct-back, Distinct-without,
  Distinct-apart, Distinct-Away,
}
use sharedstructures.LogarithmicAllocator.Listed.{
  Listed, IsOrder, FreeLists, place-differs, Listed-Away, Listed-set_block, Listed-set_head,
  Listed-set_tail,
}
use sharedstructures.LogarithmicAllocator.Append.{FreeLists-changed}

-- What a block in the list says of its neighbours.
abbrev node_between : (order p q : ℕ) → Block
node_between order p q = record { prev_order_allocated = free_word order p; next = q }

-- The list with the block at `x` passed over from behind and not yet from the front.
record Half (order : ℕ) (xs : List ℕ) (x : ℕ) (ys : List ℕ) (s : State) : Type 0 where
  head : s.free_head (place order) ≡ first_of (xs ++ (x ∷ ys)) 0
  tail : s.free_tail (place order) ≡ last_of (last_of 0 xs) ys
  front : Span s.blocks order 0 xs x
  back : Span s.blocks order (last_of 0 xs) ys 0
  node : s.blocks x ≡ node_between order (last_of 0 xs) (first_of ys 0)

module _ (order : ℕ) (xs : List ℕ) (x : ℕ) (io : IsOrder order) where
  low_last : Each Linkable xs → last_of 0 xs < 2 ^ 57
  low_last l = low xs l
    where
      low : (zs : List ℕ) → Each Linkable zs → last_of 0 zs < 2 ^ 57
      low [] k = omega arith
      low (z ∷ zs) k = (Each-last_of Linkable z zs (k.0) (k.1)).1

  -- The struct of the block at `x`.
  node_of :
      (ys : List ℕ) (s : State)
      → Listed order (xs ++ (x ∷ ys)) s
      → s.blocks x ≡ node_between order (last_of 0 xs) (first_of ys 0)
  node_of ys s l = (Span-back s.blocks order 0 xs 0 (x ∷ ys) l.linked).0

  unlink_next-Half :
      (ys : List ℕ) (s : State)
      → Listed order (xs ++ (x ∷ ys)) s
      → Half order xs x ys (unlink_next x order s)
  unfolding unlink_next
  unlink_next-Half [] s l =
      let low = low_last (Each-front Linkable xs (x ∷ []) l.linkable) in
      rw (node_of [] s l, block_prev-free_word order (last_of 0 xs) (omega arith) low)
        record {
          head = l.head;
          tail = set_at_same s.free_tail (place order) (last_of 0 xs);
          front = Span-front s.blocks order 0 xs 0 (x ∷ []) l.linked;
          back = tt;
          node = node_of [] s l;
        }
  unlink_next-Half (y ∷ ys) s l =
      let low = low_last (Each-front Linkable xs (x ∷ y ∷ ys) l.linkable) in
      let back = Each-back Linkable xs (x ∷ y ∷ ys) l.linkable in
      let d = Distinct-back xs (x ∷ y ∷ ys) l.distinct in
      let v = record (s.blocks y) { prev_order_allocated = free_word order (last_of 0 xs) } in
      let yx : y ≢ x = λ e. d.0.0 (sym e) in
      rw
        (
          node_of (y ∷ ys) s l,
          ne→== y 0 (back.1.0.0),
          block_prev-free_word order (last_of 0 xs) (omega arith) low,
        )
        record {
          head = l.head;
          tail = l.tail ∙ last_of-append 0 x xs (y ∷ ys);
          front =
              Span-other s.blocks order 0 xs x y v
                (Distinct-Away (xs) y ys (Distinct-without xs x (y ∷ ys) l.distinct))
                (Span-front s.blocks order 0 xs 0 (x ∷ y ∷ ys) l.linked);
          back =
              Span-prev s.blocks order x y ys 0 (last_of 0 xs) (d.1.0)
                ((Span-back s.blocks order 0 xs 0 (x ∷ y ∷ ys) l.linked).1);
          node = set_at_other s.blocks y v x yx ∙ node_of (y ∷ ys) s l;
        }

module _ (order : ℕ) (x : ℕ) (ys : List ℕ) (io : IsOrder order) where
  unlink_prev-Half :
      (xs : List ℕ) (s : State)
      → Each Linkable (xs ++ (x ∷ ys))
      → Distinct (xs ++ (x ∷ ys))
      → Half order xs x ys s
      → Listed order (xs ++ ys) (unlink_prev x order s)
  unfolding unlink_prev
  unlink_prev-Half [] s k d h =
      rw (h.node, block_prev-free_word order 0 (omega arith) (omega arith))
        record {
          head = set_at_same s.free_head (place order) (first_of ys 0);
          tail = h.tail;
          linked = h.back;
          linkable = k.1;
          distinct = d.1;
        }
  unlink_prev-Half (z ∷ zs) s k d h =
      let p = last_of z zs in
      let q = first_of ys 0 in
      let v = record (s.blocks p) { next = q } in
      let front = Each-front Linkable (z ∷ zs) (x ∷ ys) k in
      let ok = Each-last_of Linkable z zs (front.0) (front.1) in
      let without = Distinct-without (z ∷ zs) x ys d in
      let apart = Distinct-apart (z ∷ zs) ys without in
      let away = Each-last_of (λ a. Away a ys) z zs (apart.0) (apart.1) in
      rw (h.node, block_prev-free_word order p (omega arith) (ok.1), ne→== p 0 (ok.0))
        record {
          head = h.head;
          tail = h.tail ∙ sym (last_of-joined z zs ys);
          linked =
              Span-append (set_at s.blocks p v) order 0 (z ∷ zs) 0 ys
                (Span-next s.blocks order 0 z zs x q (Distinct-front (z ∷ zs) ys without) h.front)
                (Span-other s.blocks order p ys 0 p v away h.back);
          linkable = Each-without Linkable (z ∷ zs) x ys k;
          distinct = without;
        }

  unlink_both :
      (xs : List ℕ) (s : State)
      → Listed order (xs ++ (x ∷ ys)) s
      → Listed order (xs ++ ys) (unlink_prev x order (unlink_next x order s))
  unlink_both xs s l =
      unlink_prev-Half xs (unlink_next x order s) l.linkable l.distinct
        (unlink_next-Half order xs x io ys s l)

-- A list of another order.
module _ (order : ℕ) (x p : ℕ) (zs : List ℕ) (io : IsOrder order) (ip : IsOrder p)
    (n : order ≢ p) where
  unlink_next-other :
      (s : State)
      → ((s.blocks x).next ≢ 0 → Away ((s.blocks x).next) zs)
      → Listed p zs s
      → Listed p zs (unlink_next x order s)
  unfolding unlink_next
  unlink_next-other s a l = elim (Bool-cases ((s.blocks x).next == 0)) [
    | inl e ↦ rw e (
        Listed-set_tail p zs s l (place order) (block_prev ((s.blocks x).prev_order_allocated))
          (place-differs order p io ip n))
    | inr e ↦ rw e (
        Listed-set_block p zs s l ((s.blocks x).next)
          (record (s.blocks ((s.blocks x).next)) {
            prev_order_allocated = free_word order (block_prev ((s.blocks x).prev_order_allocated));
          })
          (a (==→ne ((s.blocks x).next) 0 e)))
  ]

  unlink_prev-other :
      (s : State)
      → (block_prev ((s.blocks x).prev_order_allocated) ≢ 0
          → Away (block_prev ((s.blocks x).prev_order_allocated)) zs)
      → Listed p zs s
      → Listed p zs (unlink_prev x order s)
  unfolding unlink_prev
  unlink_prev-other s a l =
      let b = block_prev ((s.blocks x).prev_order_allocated) in
      elim (Bool-cases (b == 0)) [
        | inl e ↦ rw e (
            Listed-set_head p zs s l (place order) ((s.blocks x).next)
              (place-differs order p io ip n))
        | inr e ↦ rw e (
            Listed-set_block p zs s l b (record (s.blocks b) { next = (s.blocks x).next })
              (a (==→ne b 0 e)))
      ]

-- In a state whose lists hold what `view` says, to unlink a block of an order takes it out of the
-- list of this order, wherever it stands there, and leaves the others.
module _ (view : ℕ → List ℕ) (order x : ℕ) (s : State) (io : IsOrder order)
    (lists : FreeLists view s) (xs ys : List ℕ) (holds : view order ≡ xs ++ (x ∷ ys)) where
  listed : Listed order (xs ++ (x ∷ ys)) s
  listed = subst (λ zs. Listed order zs s) holds (lists order io)

  orders : Each (λ k. block_order ((s.blocks k).prev_order_allocated) ≡ order) (xs ++ (x ∷ ys))
  orders =
      Span-orders s.blocks order 0 (xs ++ (x ∷ ys)) 0 (omega arith) (omega arith) listed.linkable
        listed.linked

  half : Half order xs x ys (unlink_next x order s)
  half = unlink_next-Half order xs x io ys s listed

  -- The neighbours are in no other list.
  module _ (p : ℕ) (ip : IsOrder p) (n : order ≢ p) where
    next-Away : (zs : List ℕ) → ys ≡ zs → first_of zs 0 ≢ 0 → Away (first_of zs 0) (view p)
    next-Away [] e m = absurd (m refl)
    next-Away (z ∷ zs) e m =
        Listed-Away order p io ip n (view p) s z
          ((subst (Each (λ k. block_order ((s.blocks k).prev_order_allocated) ≡ order)) e (
            (Each-back (λ k. block_order ((s.blocks k).prev_order_allocated) ≡ order) xs (x ∷ ys)
              orders).1)).0)
          (lists p ip)

    prev-Away : (zs : List ℕ) → xs ≡ zs → last_of 0 zs ≢ 0 → Away (last_of 0 zs) (view p)
    prev-Away [] e m = absurd (m refl)
    prev-Away (z ∷ zs) e m =
        let front = subst (Each (λ k. block_order ((s.blocks k).prev_order_allocated) ≡ order)) e (
          Each-front (λ k. block_order ((s.blocks k).prev_order_allocated) ≡ order) xs (x ∷ ys)
            orders) in
        Listed-Away order p io ip n (view p) s (last_of z zs)
          (Each-last_of (λ k. block_order ((s.blocks k).prev_order_allocated) ≡ order) z zs
            (front.0) (front.1))
          (lists p ip)

    low : last_of 0 xs < 2 ^ 57
    low = low_last order xs x io (Each-front Linkable xs (x ∷ ys) listed.linkable)

    others : Listed p (view p) (unlink_prev x order (unlink_next x order s))
    others =
        unlink_prev-other order x p (view p) io ip n (unlink_next x order s)
          (rw (half.node, block_prev-free_word order (last_of 0 xs) (omega arith) low)
            (prev-Away xs refl))
          (unlink_next-other order x p (view p) io ip n s
            (rw (node_of order xs x io ys s listed) (next-Away ys refl)) (lists p ip))

  its_order : block_order ((s.blocks x).prev_order_allocated) ≡ order
  its_order =
      (Each-back (λ k. block_order ((s.blocks k).prev_order_allocated) ≡ order) xs (x ∷ ys)
        orders).0

  pub unlink_block-FreeLists : FreeLists (set_at view order (xs ++ ys)) (unlink_block x s)
  unfolding unlink_block
  unlink_block-FreeLists = rw its_order (
      FreeLists-changed view order (xs ++ ys) (unlink_prev x order (unlink_next x order s))
        (unlink_both order x ys io xs s listed) (λ p ip n. others p ip n))
