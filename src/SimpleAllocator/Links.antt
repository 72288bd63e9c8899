-- ===== src/SimpleAllocator/Links.antt =====
-- Doubly linked runs of blocks: splitting, joining, and changing one link.
use sharedstructures.Base.{
  ℕ, ◌<◌, ◌≤◌, ◌≡◌, ◌≢◌, refl, ap, List, [], ◌∷◌, ◌++◌, arith, sym, subst, ◌∙◌, ◌⊎◌, inl,
}
use sharedstructures.SimpleAllocator.{Blocks, AllocatedBlock, write, set_next, set_prev}
use sharedstructures.SimpleAllocator.Layout.{
  Entry, Fits, Links, last_of, past, end_of, last_of_bounds, Fits-le,
}

pub write_self : (b : Blocks) (o : ℕ) (blk : AllocatedBlock) → write b o blk o ≡ blk
unfolding write
write_self b o blk = ground arith

pub write_ne : (b : Blocks) (o a : ℕ) (blk : AllocatedBlock) → a ≢ o → write b o blk a ≡ b a
unfolding write
write_ne b o a blk h = ground arith

module _ (b : Blocks) where
  pub Links-split :
      (p cur : ℕ) (ys zs : List Entry) (last stop : ℕ)
      → Links b p cur (ys ++ zs) last stop
      → (mid : ℕ) × Links b p cur ys (last_of p ys) mid × Links b (last_of p ys) mid zs last stop
  Links-split p cur [] zs last stop k = (cur, (refl, refl), k)
  Links-split p cur ((o, n) ∷ ys) zs last stop (c, e, z, k) =
      let (mid, f, g) = Links-split o (b o).next ys zs last stop k in (mid, (c, e, z, f), g)

  pub Links-join :
      (p cur : ℕ) (ys zs : List Entry) (mid last stop : ℕ)
      → Links b p cur ys (last_of p ys) mid
      → Links b (last_of p ys) mid zs last stop
      → Links b p cur (ys ++ zs) last stop
  Links-join p cur [] zs mid last stop (c, e) k = subst (λ x. Links b p x zs last stop) (sym c) k
  Links-join p cur ((o, n) ∷ ys) zs mid last stop (c, e, z, f) k =
      (c, e, z, Links-join o (b o).next ys zs mid last stop f k)

  pub Links-last :
      (p cur : ℕ) (xs : List Entry) (last stop : ℕ)
      → Links b p cur xs last stop
      → last_of p xs ≡ last
  Links-last p cur [] last stop (c, e) = e
  Links-last p cur ((o, n) ∷ xs) last stop (c, e, z, k) = Links-last o (b o).next xs last stop k

  -- A run survives every write outside the space that it fits.
  pub frame :
      (b' : Blocks) (lo hi p cur : ℕ) (xs : List Entry) (last stop : ℕ)
      → Fits lo xs hi
      → ((a : ℕ) → lo ≤ a → a < hi → b' a ≡ b a)
      → Links b p cur xs last stop
      → Links b' p cur xs last stop
  frame b' lo hi p cur [] last stop f same k = k
  frame b' lo hi p cur ((o, n) ∷ xs) last stop (a, m, f) same (c, e, z, k) =
      let s : b' o ≡ b o = same o a (omega (arith, Fits-le (past o n) xs hi f)) in
      (
        c,
        ap (λ (x : AllocatedBlock). x.prev) s ∙ e,
        ap (λ (x : AllocatedBlock). x.size) s ∙ z,
        subst (λ (x : AllocatedBlock). Links b' o x.next xs last stop) (sym s)
            (frame b' (past o n) hi o (b o).next xs last stop f (λ a' l h. same a' (omega arith) h)
              k),
      )

  pub frame-write :
      (x : ℕ) (blk : AllocatedBlock) (lo hi p cur : ℕ) (xs : List Entry) (last stop : ℕ)
      → Fits lo xs hi
      → (x < lo) ⊎ (hi ≤ x)
      → Links b p cur xs last stop
      → Links (write b x blk) p cur xs last stop
  frame-write x blk lo hi p cur xs last stop f out k =
      frame _ lo hi p cur xs last stop f (λ a l h. write_ne b x a blk (omega arith)) k

  -- The first block's back link.
  pub relink_prev :
      (lo hi p p' cur : ℕ) (e : Entry) (xs : List Entry) (last stop : ℕ)
      → Fits lo (e ∷ xs) hi
      → Links b p cur (e ∷ xs) last stop
      → Links (set_prev b cur p') p' cur (e ∷ xs) last stop
  relink_prev lo hi p p' cur (o, n) xs last stop (a, m, f) (c, e, z, k) =
      let w : set_prev b cur p' o ≡ record (b o) { prev = p' } = rw c (write_self b o _) in
      (
        c,
        ap (λ (x : AllocatedBlock). x.prev) w,
        ap (λ (x : AllocatedBlock). x.size) w ∙ z,
        subst (λ (x : AllocatedBlock). Links (set_prev b cur p') o x.next xs last stop) (sym w)
            (frame-write cur _ (past o n) hi o (b o).next xs last stop f (inl (omega arith)) k),
      )

  -- The last block's successor.
  pub relink_next :
      (lo hi p cur : ℕ) (e : Entry) (xs : List Entry) (last stop stop' : ℕ)
      → Fits lo (e ∷ xs) hi
      → Links b p cur (e ∷ xs) last stop
      → Links (set_next b last stop') p cur (e ∷ xs) last stop'
  relink_next lo hi p cur (o, n) [] last stop stop' (a, m, f) (c, e, z, k) =
      let w : set_next b last stop' o ≡ record (b o) { next = stop' } =
        rw (k.1) (write_self b last _) in
      (
        c,
        ap (λ (x : AllocatedBlock). x.prev) w ∙ e,
        ap (λ (x : AllocatedBlock). x.size) w ∙ z,
        (ap (λ (x : AllocatedBlock). x.next) w, k.1),
      )
  relink_next lo hi p cur (o, n) (e' ∷ xs) last stop stop' (a, m, f) (c, e, z, k) =
      let w : set_next b last stop' o ≡ b o = write_ne b last o _ (
        omega (
          arith,
          last_of_bounds (past o n) o e' xs hi f,
          Links-last o (b o).next (e' ∷ xs) last stop k,
        )) in
      (
        c,
        ap (λ (x : AllocatedBlock). x.prev) w ∙ e,
        ap (λ (x : AllocatedBlock). x.size) w ∙ z,
        subst (λ (x : AllocatedBlock). Links (set_next b last stop') o x.next (e' ∷ xs) last stop')
            (sym w) (relink_next (past o n) hi o (b o).next e' xs last stop stop' f k),
      )

  pub Links-next :
      (p cur : ℕ) (e : Entry) (xs : List Entry) (last stop : ℕ)
      → Links b p cur (e ∷ xs) last stop
      → (b last).next ≡ stop
  Links-next p cur (o, n) [] last stop (c, e, z, (k, l)) = rw (← l) k
  Links-next p cur (o, n) (e' ∷ xs) last stop (c, e, z, k) =
      Links-next o (b o).next e' xs last stop k

  pub Links-cons :
      (p o n next : ℕ) (xs : List Entry) (last stop : ℕ)
      → b o ≡ record { prev = p; next = next; size = n }
      → Links b o next xs last stop
      → Links b p o ((o, n) ∷ xs) last stop
  Links-cons p o n next xs last stop e k = (
    refl,
    ap (λ (x : AllocatedBlock). x.prev) e,
    ap (λ (x : AllocatedBlock). x.size) e,
    subst (λ (x : AllocatedBlock). Links b o x.next xs last stop) (sym e) k,
  )

  -- Behind the last block ends the layout.
  pub Links-end :
      (lo p cur : ℕ) (e : Entry) (xs : List Entry) (last stop : ℕ)
      → Links b p cur (e ∷ xs) last stop
      → end_of lo (e ∷ xs) ≡ past last (b last).size
  Links-end lo p cur (o, n) [] last stop (c, e, z, (k, l)) = rw (← l, z)
  Links-end lo p cur (o, n) (e' ∷ xs) last stop (c, e, z, k) =
      Links-end (past o n) o (b o).next e' xs last stop k
