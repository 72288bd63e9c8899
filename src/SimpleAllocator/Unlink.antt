-- ===== src/SimpleAllocator/Unlink.antt =====
-- The end of free: unlinking a block keeps the list doubly linked.
use sharedstructures.Base.{
  ℕ, ◌≤◌, ◌≡◌, ◌≢◌, refl, List, [], ◌∷◌, ◌++◌, arith, sym, subst, ◌∙◌, inl, inr, eq→==, ne→==,
  sub64,
}
use sharedstructures.SimpleAllocator.{
  State, Blocks, sizeof_data, set_next, set_prev, remove_block, uncount_block, committed_size,
}
use sharedstructures.SimpleAllocator.Layout.{
  Entry, Fits, Links, last_of, past, end_of, Fits-split, Fits-mono, end_of-le, last_of_bounds,
}
use sharedstructures.SimpleAllocator.Place.{SameRoot}
use sharedstructures.SimpleAllocator.Links.{
  write_ne, Links-split, Links-join, frame-write, relink_prev, relink_next,
}

-- The state without the block at `o`, with new ends of the list and a new memory.
abbrev pub without : State → ℕ → ℕ → ℕ → Blocks → State
without s o head tail b = record s {
  header = record (uncount_block (s.blocks o).size s.header) { head = head; tail = tail };
  blocks = b;
}

module _ (s : State) (o : ℕ) where
  remove_only :
      (s.blocks o).prev ≡ 0 → (s.blocks o).next ≡ 0 → remove_block o s ≡ without s o 0 0 s.blocks
  unfolding remove_block
  remove_only p n = rw (eq→== (s.blocks o).prev 0 p, eq→== (s.blocks o).next 0 n, n, p)

  remove_first :
      (c : ℕ)
      → (s.blocks o).prev ≡ 0
      → (s.blocks o).next ≡ c
      → c ≢ 0
      → remove_block o s ≡ without s o c s.tail (set_prev s.blocks c 0)
  unfolding remove_block
  remove_first c p n h = rw (p, n, ne→== c 0 h) (rw p)

  remove_last :
      (l : ℕ)
      → (s.blocks o).prev ≡ l
      → (s.blocks o).next ≡ 0
      → l ≢ 0
      → o ≢ l
      → remove_block o s ≡ without s o s.head l (set_next s.blocks l 0)
  unfolding remove_block
  remove_last l p n h d =
      rw (p, n, ne→== l 0 h) (rw (write_ne s.blocks l o (record (s.blocks l) { next = 0 }) d, p, n))

  remove_inner :
      (l c : ℕ)
      → (s.blocks o).prev ≡ l
      → (s.blocks o).next ≡ c
      → l ≢ 0
      → c ≢ 0
      → o ≢ l
      → remove_block o s ≡ without s o s.head s.tail (set_prev (set_next s.blocks l c) c l)
  unfolding remove_block
  remove_inner l c p n h k d =
      rw (p, n, ne→== l 0 h)
        (rw (write_ne s.blocks l o (record (s.blocks l) { next = c }) d, p, n, ne→== c 0 k))

module _ (s : State) (o n hi : ℕ) where
  -- The list without the block at `o`.
  abbrev pub Removed : List Entry → List Entry → State → Type 0
  Removed ys zs s' = Links s'.blocks 0 s'.head (ys ++ zs) s'.tail 0

  -- The runs before and behind the block.
  abbrev Around : List Entry → List Entry → ℕ → Type 0
  Around ys zs c =
      Links s.blocks 0 s.head ys (last_of 0 ys) o
      × ((s.blocks o).prev ≡ last_of 0 ys)
      × ((s.blocks o).next ≡ c)
      × Links s.blocks o c zs s.tail 0

  remove_block-Around :
      (ys zs : List Entry) (c : ℕ)
      → Fits sizeof_data ys o
      → Fits (past o n) zs hi
      → sizeof_data ≤ o
      → Around ys zs c
      → Removed ys zs (remove_block o s)
  remove_block-Around [] [] c f g a (k, p, q, h) =
      subst (Removed [] []) (sym (remove_only s o p (q ∙ h.0))) (refl, refl)
  remove_block-Around [] (e ∷ zs) c f g a (k, p, q, h) =
      let c≢0 : c ≢ 0 = omega (arith, h.0, g.0) in
      subst (Removed [] (e ∷ zs)) (sym (remove_first s o c p q c≢0))
        (relink_prev s.blocks (past o n) hi o 0 c e zs s.tail 0 g h)
  remove_block-Around (e ∷ ys) [] c f g a (k, p, q, h) =
      let l = last_of 0 (e ∷ ys) in
      let b = (last_of_bounds sizeof_data 0 e ys o f) in
      let w = end_of-le sizeof_data (e ∷ ys) o f in
      subst (Removed (e ∷ ys) [])
        (sym (remove_last s o l p (q ∙ h.0) (omega (arith, b)) (omega (arith, b, w))))
        (Links-join (set_next s.blocks l 0) 0 s.head (e ∷ ys) [] 0 l 0
          (relink_next s.blocks sizeof_data o 0 s.head e ys l o 0 f k) (refl, refl))
  remove_block-Around (e ∷ ys) (e' ∷ zs) c f g a (k, p, q, h) =
      let l = last_of 0 (e ∷ ys) in
      let b = (last_of_bounds sizeof_data 0 e ys o f) in
      let w = end_of-le sizeof_data (e ∷ ys) o f in
      let c≢0 : c ≢ 0 = omega (arith, h.0, g.0) in
      let m = set_next s.blocks l c in
      subst (Removed (e ∷ ys) (e' ∷ zs))
        (sym (remove_inner s o l c p q (omega (arith, b)) c≢0 (omega (arith, b, w))))
        (Links-join (set_prev m c l) 0 s.head (e ∷ ys) (e' ∷ zs) c s.tail 0
          (frame-write m c (record (m c) { prev = l }) sizeof_data o 0 s.head (e ∷ ys) l c f
            (inr (omega (arith, h.0, g.0)))
            (relink_next s.blocks sizeof_data o 0 s.head e ys l o c f k))
          (relink_prev m (past o n) hi o l c e' zs s.tail 0 g (
            frame-write s.blocks l (record (s.blocks l) { next = c }) (past o n) hi o c (e' ∷ zs)
              s.tail 0 g (inl (omega (arith, b, w))) h)))

  pub remove_block-Links :
      (ys zs : List Entry)
      → Fits sizeof_data (ys ++ (o, n) ∷ zs) hi
      → Links s.blocks 0 s.head (ys ++ (o, n) ∷ zs) s.tail 0
      → Removed ys zs (remove_block o s)
  remove_block-Links ys zs f k =
      let (g, h) = Fits-split sizeof_data ys ((o, n) ∷ zs) hi f in
      let (mid, i, (c, p, z, j)) = Links-split s.blocks 0 s.head ys ((o, n) ∷ zs) s.tail 0 k in
      remove_block-Around ys zs (s.blocks o).next
        (Fits-mono sizeof_data sizeof_data ys (end_of sizeof_data ys) o g (omega arith) h.0) h.2
        (omega (arith, h.0, end_of-le sizeof_data ys (end_of sizeof_data ys) g))
        (subst (Links s.blocks 0 s.head ys (last_of 0 ys)) c i, p, refl, j)

  pub remove_block_counts :
      ((remove_block o s).pool ≡ s.pool)
      × ((remove_block o s).bytes_allocated ≡ sub64 s.bytes_allocated (s.blocks o).size)
      × ((remove_block o s).bytes_committed
          ≡ sub64 s.bytes_committed (committed_size (s.blocks o).size))
      × SameRoot s (remove_block o s)
  unfolding remove_block
  remove_block_counts = ground arith
