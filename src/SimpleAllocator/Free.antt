-- ===== src/SimpleAllocator/Free.antt =====
-- free and block_size.
use sharedstructures.Base.{ℕ, ◌+◌, ◌≤◌, ◌≡◌, List, ◌∷◌, ◌++◌, arith, sym, subst, true, sub64}
use sharedstructures.Pool.{Pool}
use sharedstructures.Pool.Expand.{InSync}
use sharedstructures.SimpleAllocator.{
  State, sizeof_data, sizeof_block, in_arena, remove_block, free, block_size,
}
use sharedstructures.SimpleAllocator.Layout.{
  Entry, Fits, Holds, past, end_of, Fits-le, Fits-split, Fits-join, end_of-le, start_of-ge,
  Fits-raise, sums-insert, sum_sizes-le,
}
use sharedstructures.SimpleAllocator.Place.{SameRoot}
use sharedstructures.SimpleAllocator.Links.{Links-split}
use sharedstructures.SimpleAllocator.Unlink.{remove_block-Links, remove_block_counts}

module _ (s : State) (ys zs : List Entry) (o n : ℕ) (v : Holds s (ys ++ (o, n) ∷ zs)) where
  -- Where the block lies.
  entry_bounds : (sizeof_data ≤ o) × (past o n ≤ s.size)
  entry_bounds =
      let (f, g) = Fits-split sizeof_data ys ((o, n) ∷ zs) s.size v.fits in
      omega (
        arith,
        g.0,
        end_of-le sizeof_data ys (end_of sizeof_data ys) f,
        Fits-le (past o n) zs s.size g.2,
      )

  entry_size : (s.blocks o).size ≡ n
  entry_size = (Links-split s.blocks 0 s.head ys ((o, n) ∷ zs) s.tail 0 v.chain).2.2

  -- block_size gives the size that was asked for.
  pub block_size_lem : block_size (o + sizeof_block) s ≡ n
  unfolding block_size
  block_size_lem =
      let w : sub64 (o + sizeof_block) sizeof_block ≡ o =
        omega (arith, entry_bounds, v.sync.bounded) in
      rw (w, block_size) entry_size

  Fits-remove : Fits sizeof_data (ys ++ zs) s.size
  Fits-remove =
      let (f, g) = Fits-split sizeof_data ys ((o, n) ∷ zs) s.size v.fits in
      Fits-join sizeof_data ys zs s.size f (
        Fits-raise (past o n) (end_of sizeof_data ys) zs s.size g.2
          (omega (arith, start_of-ge (past o n) zs s.size g.2, g.0)))

  remove_block-Holds :
      Holds (remove_block o s) (ys ++ zs)
      × ((remove_block o s).pool ≡ s.pool)
      × SameRoot s (remove_block o s)
  remove_block-Holds =
      let (same, a, c, r) = remove_block_counts s o n s.size in
      let (i, j) = sums-insert ys zs o n in
      let within = Fits-le sizeof_data (ys ++ (o, n) ∷ zs) s.size v.fits in
      (
        record {
          sync = subst InSync (sym same) v.sync;
          chain = remove_block-Links s o n s.size ys zs v.fits v.chain;
          fits = subst (λ (q : Pool). Fits sizeof_data (ys ++ zs) q.size) (sym same) Fits-remove;
          allocated = omega (
            arith,
            a,
            entry_size,
            v.allocated,
            i,
            within,
            v.sync.bounded,
            sum_sizes-le (ys ++ (o, n) ∷ zs),
          );
          committed = omega (arith, c, entry_size, v.committed, j, within, v.sync.bounded);
        },
        same,
        r,
      )

  -- free takes the block out of the layout, if its 24 bytes behind the struct lie in the pool.
  pub free-Holds :
      o + sizeof_block + sizeof_block ≤ s.size
      → Holds (free (o + sizeof_block) s) (ys ++ zs)
        × ((free (o + sizeof_block) s).pool ≡ s.pool)
        × SameRoot s (free (o + sizeof_block) s)
  unfolding free
  free-Holds h =
      let t : in_arena (o + sizeof_block) s ≡ true = ground (arith, entry_bounds, v.sync.bounded) in
      let w : sub64 (o + sizeof_block) sizeof_block ≡ o =
        omega (arith, entry_bounds, v.sync.bounded) in
      rw (t, w) remove_block-Holds
