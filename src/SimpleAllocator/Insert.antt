-- ===== src/SimpleAllocator/Insert.antt =====
-- Linking a block into the list: link_block keeps the list doubly linked and in address order.
use sharedstructures.Base.{
  ℕ, ◌+◌, ◌≤◌, ◌≡◌, ◌≢◌, refl, ap, List, [], ◌∷◌, ◌++◌, arith, sym, subst, ◌∙◌, inl, inr,
}
use mathlib.Core.List.{append-nil}
use sharedstructures.SimpleAllocator.{
  State, Blocks, Candidate, AllocatedBlock, write, set_next, set_prev, sizeof_data, sizeof_block,
  link_head, link_tail, link_middle, link_block,
}
use sharedstructures.SimpleAllocator.Layout.{
  Entry, Fits, Links, last_of, past, last_of_bounds, end_of-le,
}
use sharedstructures.SimpleAllocator.Links.{
  write_self, write_ne, Links-split, Links-join, Links-last, Links-next, Links-cons, frame-write,
  relink_prev, relink_next,
}

-- The blocks before and behind the new block's offset.
module _ (b : Blocks) (o size hi : ℕ) where
  -- The run before the new block, once its last block leads to it.
  left_run :
      (head c : ℕ) (e : Entry) (ys : List Entry) (l : ℕ) (blk : AllocatedBlock)
      → Fits sizeof_data (e ∷ ys) o
      → Links b 0 head (e ∷ ys) l c
      → Links (set_next (write b o blk) l o) 0 head (e ∷ ys) l o
  left_run head c e ys l blk f k =
      relink_next (write b o blk) sizeof_data o 0 head e ys l c o f
        (frame-write b o blk sizeof_data o 0 head (e ∷ ys) l c f (inr (omega arith)) k)

  -- The run behind it, once its first block leads back.
  right_run :
      (l c : ℕ) (e : Entry) (zs : List Entry) (tail : ℕ) (b' : Blocks)
      → Fits (past o size) (e ∷ zs) hi
      → Links b' l c (e ∷ zs) tail 0
      → Links (set_prev b' c o) o c (e ∷ zs) tail 0
  right_run l c e zs tail b' f k = relink_prev b' (past o size) hi l o c e zs tail 0 f k

abbrev new_block : ℕ → ℕ → ℕ → AllocatedBlock
new_block prev next size = record { prev = prev; next = next; size = size }

module _ (s : State) (o size hi : ℕ) where
  abbrev with_new : ℕ → ℕ → Blocks
  with_new prev next = write s.blocks o (new_block prev next size)

  link_head_blocks : (link_head size o s).blocks ≡ set_prev (with_new 0 s.head) s.head o
  unfolding link_head
  link_head_blocks =
      ap (λ (x : AllocatedBlock). set_prev (with_new 0 s.head) x.next o)
        (write_self s.blocks o (new_block 0 s.head size))

  link_tail_blocks : (link_tail size o s).blocks ≡ set_next (with_new s.tail 0) s.tail o
  unfolding link_tail
  link_tail_blocks =
      ap (λ (x : AllocatedBlock). set_next (with_new s.tail 0) x.prev o)
        (write_self s.blocks o (new_block s.tail 0 size))

  -- The new block stands between the blocks `ys` and `zs`.
  abbrev pub Inserted : List Entry → List Entry → State → Type 0
  Inserted ys zs s' = Links s'.blocks 0 s'.head (ys ++ (o, size) ∷ zs) s'.tail 0

  link_head_lem :
      (e : Entry) (zs : List Entry)
      → Fits (past o size) (e ∷ zs) hi
      → Links s.blocks 0 s.head (e ∷ zs) s.tail 0
      → Inserted [] (e ∷ zs) (link_head size o s)
  unfolding link_head
  link_head_lem e zs f k =
      let b = with_new 0 s.head in
      subst (λ B. Links B 0 o ((o, size) ∷ e ∷ zs) s.tail 0) (sym link_head_blocks)
        (Links-cons (set_prev b s.head o) 0 o size s.head (e ∷ zs) s.tail 0
          (write_ne b s.head o (record (b s.head) { prev = o }) (omega (arith, k.0, f.0))
            ∙ write_self s.blocks o (new_block 0 s.head size))
          (right_run s.blocks o size hi 0 s.head e zs s.tail b f (
            frame-write s.blocks o (new_block 0 s.head size) (past o size) hi 0 s.head (e ∷ zs)
              s.tail 0 f (inl (omega arith)) k)))

  link_tail_lem :
      (e : Entry) (ys : List Entry)
      → Fits sizeof_data (e ∷ ys) o
      → Links s.blocks 0 s.head (e ∷ ys) s.tail 0
      → Inserted (e ∷ ys) [] (link_tail size o s)
  unfolding link_tail
  link_tail_lem e ys f k =
      let l : last_of 0 (e ∷ ys) ≡ s.tail = Links-last s.blocks 0 s.head (e ∷ ys) s.tail 0 k in
      let b = with_new s.tail 0 in
      let b' = set_next b s.tail o in
      subst (λ B. Links B 0 s.head ((e ∷ ys) ++ (o, size) ∷ []) o 0) (sym link_tail_blocks)
        (Links-join b' 0 s.head (e ∷ ys) ((o, size) ∷ []) o o 0
          (rw l (left_run s.blocks o size hi s.head 0 e ys s.tail (new_block s.tail 0 size) f k))
          (rw l (
            Links-cons b' s.tail o size 0 [] o 0
              (write_ne b s.tail o (record (b s.tail) { next = o })
                  (omega (
                    arith,
                    last_of_bounds sizeof_data 0 e ys o f,
                    l,
                    end_of-le sizeof_data (e ∷ ys) o f,
                  ))
                ∙ write_self s.blocks o (new_block s.tail 0 size))
              (refl, refl))))

  link_middle_blocks :
      (l c : ℕ)
      → (s.blocks l).next ≡ c
      → (link_middle size o l s).blocks ≡ set_prev (set_next (with_new l c) l o) c o
  unfolding link_middle
  link_middle_blocks l c e = ap (λ x. set_prev (set_next (with_new l x) l o) x o) e

  link_middle_lem :
      (e : Entry) (ys : List Entry) (e' : Entry) (zs : List Entry) (l c : ℕ)
      → Fits sizeof_data (e ∷ ys) o
      → Fits (past o size) (e' ∷ zs) hi
      → last_of 0 (e ∷ ys) ≡ l
      → Links s.blocks 0 s.head (e ∷ ys) l c
      → Links s.blocks l c (e' ∷ zs) s.tail 0
      → Inserted (e ∷ ys) (e' ∷ zs) (link_middle size o l s)
  unfolding link_middle
  link_middle_lem e ys e' zs l c f g m k h =
      subst (λ B. Links B 0 s.head ((e ∷ ys) ++ (o, size) ∷ e' ∷ zs) s.tail 0)
        (sym (link_middle_blocks l c (Links-next s.blocks 0 s.head e ys l c k)))
        (let blk = new_block l c size in
          let b = with_new l c in
          let b' = set_next b l o in
          let B = set_prev b' c o in
          let le : (sizeof_data ≤ l) × (l + sizeof_block ≤ o) =
            omega (
              arith,
              last_of_bounds sizeof_data 0 e ys o f,
              m,
              end_of-le sizeof_data (e ∷ ys) o f,
            ) in
          let before : past o size ≤ c = omega (arith, g.0, h.0) in
          Links-join B 0 s.head (e ∷ ys) ((o, size) ∷ e' ∷ zs) o s.tail 0
            (rw m (
              frame-write b' c (record (b' c) { prev = o }) sizeof_data o 0 s.head (e ∷ ys) l o f
                (inr (omega arith)) (left_run s.blocks o size hi s.head c e ys l blk f k)))
            (rw m (
              Links-cons B l o size c (e' ∷ zs) s.tail 0
                (write_ne b' c o (record (b' c) { prev = o }) (omega arith)
                  ∙ write_ne b l o (record (b l) { next = o }) (omega arith)
                  ∙ write_self s.blocks o blk)
                (right_run s.blocks o size hi l c e' zs s.tail b' g (
                  frame-write b l (record (b l) { next = o }) (past o size) hi l c (e' ∷ zs) s.tail
                    0 g (inl (omega arith))
                    (frame-write s.blocks o blk (past o size) hi l c (e' ∷ zs) s.tail 0 g
                      (inl (omega arith)) h))))))

  pub link_block_counts :
      (c : Candidate)
      → ((link_block size c s).pool ≡ s.pool)
        × ((link_block size c s).bytes_allocated ≡ s.bytes_allocated)
        × ((link_block size c s).bytes_committed ≡ s.bytes_committed)
        × ((link_block size c s).base_object_offset ≡ s.base_object_offset)
        × ((link_block size c s).initialized ≡ s.initialized)
  unfolding link_block
  link_block_counts c = ground arith

  link_block-head :
      (c : Candidate)
      → c.offset ≡ o
      → c.link_location ≡ 0
      → link_block size c s ≡ link_head size o s
  unfolding link_block
  link_block-head c e l = ground arith

  link_block-tail :
      (c : Candidate)
      → c.offset ≡ o
      → c.link_location ≢ 0
      → c.link_location ≡ s.tail
      → link_block size c s ≡ link_tail size o s
  unfolding link_block
  link_block-tail c e n l = ground arith

  link_block-middle :
      (c : Candidate)
      → c.offset ≡ o
      → c.link_location ≢ 0
      → c.link_location ≢ s.tail
      → link_block size c s ≡ link_middle size o c.link_location s
  unfolding link_block
  link_block-middle c e n l = ground arith

  -- `link_block` puts the new block between the blocks `ys` before the candidate's offset and the
  -- blocks `zs` behind it.
  pub link_block-Links :
      (ys zs : List Entry) (c : Candidate)
      → c.offset ≡ o
      → c.link_location ≡ last_of 0 ys
      → ys ++ zs ≢ []
      → Fits sizeof_data ys o
      → Fits (past o size) zs hi
      → Links s.blocks 0 s.head (ys ++ zs) s.tail 0
      → Inserted ys zs (link_block size c s)
  link_block-Links [] [] c eo el ne f g k = absurd (ne refl)
  link_block-Links [] (e ∷ zs) c eo el ne f g k =
      subst (Inserted [] (e ∷ zs)) (sym (link_block-head c eo el)) (link_head_lem e zs g k)
  link_block-Links (e ∷ ys) [] c eo el ne f g k =
      let (mid, h, j) = Links-split s.blocks 0 s.head (e ∷ ys) [] s.tail 0 k in
      let n : c.link_location ≢ 0 = omega (arith, last_of_bounds sizeof_data 0 e ys o f) in
      subst (Inserted (e ∷ ys) []) (sym (link_block-tail c eo n (el ∙ j.1))) (
        link_tail_lem e ys f
          (subst (λ xs. Links s.blocks 0 s.head xs s.tail 0) (append-nil (e ∷ ys)) k))
  link_block-Links (e ∷ ys) (e' ∷ zs) c eo el ne f g k =
      let (mid, h, j) = Links-split s.blocks 0 s.head (e ∷ ys) (e' ∷ zs) s.tail 0 k in
      let n : c.link_location ≢ 0 = omega (arith, last_of_bounds sizeof_data 0 e ys o f) in
      let n' : c.link_location ≢ s.tail = omega (
        arith,
        last_of_bounds sizeof_data 0 e ys o f,
        end_of-le sizeof_data (e ∷ ys) o f,
        last_of_bounds (past o size) (last_of 0 (e ∷ ys)) e' zs hi g,
        Links-last s.blocks (last_of 0 (e ∷ ys)) mid (e' ∷ zs) s.tail 0 j,
      ) in
      subst (Inserted (e ∷ ys) (e' ∷ zs)) (sym (link_block-middle c eo n n')) (
        link_middle_lem e ys e' zs c.link_location mid f g (sym el)
          (subst (λ l. Links s.blocks 0 s.head (e ∷ ys) l mid) (sym el) h)
          (subst (λ l. Links s.blocks l mid (e' ∷ zs) s.tail 0) (sym el) j))
