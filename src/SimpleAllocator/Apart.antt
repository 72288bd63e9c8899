-- ===== src/SimpleAllocator/Apart.antt =====
-- What a caller of allocate and free sees.
use sharedstructures.Base.{
  ℕ, ◌+◌, ◌<◌, ◌≤◌, ◌^◌, ◌≡◌, refl, List, [], ◌∷◌, ◌++◌, arith, subst, ◌⊎◌, inl, inr, ◌%◌,
}
use sharedstructures.Outcome.{ok}
use sharedstructures.Pool.{Os}
use sharedstructures.SimpleAllocator.{State, sizeof_data, sizeof_block, free, allocate, block_size}
use sharedstructures.SimpleAllocator.Layout.{
  Entry, Fits, Holds, past, end_of, Fits-le, Fits-split, end_of-le, end_of_aligned,
}
use sharedstructures.SimpleAllocator.Request.{Allocated, Allocates}
use sharedstructures.SimpleAllocator.Allocate.{allocate-Allocates}
use sharedstructures.SimpleAllocator.Free.{free-Holds, block_size_lem}

-- The `size` bytes at `r` lie outside each block, its struct included.
abbrev pub Apart : ℕ → ℕ → List Entry → Type 0
Apart r size [] = Unit {0}
Apart r size ((o, n) ∷ xs) = ((r + size ≤ o) ⊎ (o + (sizeof_block + n) ≤ r)) × Apart r size xs

Apart-append :
    (r size : ℕ) (xs ys : List Entry) → Apart r size xs → Apart r size ys → Apart r size (xs ++ ys)
Apart-append r size [] ys p q = q
Apart-append r size (x ∷ xs) ys (p, ps) q = (p, Apart-append r size xs ys ps q)

Apart-above : (lo r size : ℕ) (xs : List Entry) (hi : ℕ) → Fits lo xs hi → hi ≤ r → Apart r size xs
Apart-above lo r size [] hi f h = tt
Apart-above lo r size ((o, n) ∷ xs) hi (a, m, f) h =
    (inr (omega (arith, Fits-le (past o n) xs hi f)), Apart-above (past o n) r size xs hi f h)

Apart-below :
    (lo r size : ℕ) (xs : List Entry) (hi : ℕ) → Fits lo xs hi → r + size ≤ lo → Apart r size xs
Apart-below lo r size [] hi f h = tt
Apart-below lo r size ((o, n) ∷ xs) hi (a, m, f) h =
    (inl (omega arith), Apart-below (past o n) r size xs hi f (omega arith))

module _ (os : Os) (s : State) (xs : List Entry) (size r : ℕ) (s' : State) (small : size < 2 ^ 60)
    (below : s.size < 2 ^ 60) (v : Holds s xs) (run : allocate os size s ≡ ok r s') where
  result : Allocated s xs size r s'
  result = subst (Allocates os s xs size) run (allocate-Allocates os s xs size small below v)

  -- The bytes that allocate returns are aligned, lie in the pool, behind its header, and outside
  -- every allocated block, and block_size tells how many they are.
  pub allocate-Apart :
      (r % 8 ≡ 0)
      × (sizeof_data ≤ r)
      × (r + size ≤ s'.size)
      × Apart r size xs
      × (block_size r s' ≡ size)
  allocate-Apart =
      let a = result in
      let o = end_of sizeof_data a.before in
      let (f, g) = Fits-split sizeof_data a.before ((o, size) ∷ a.behind) s'.size a.holds.fits in
      let le = Fits-le (past o size) a.behind s'.size g.2 in
      let lo = end_of-le sizeof_data a.before o f in
      (
        omega (arith, a.offset, end_of_aligned sizeof_data a.before o refl f),
        omega (arith, a.offset, lo),
        omega (arith, a.offset, le),
        rw a.is (
            Apart-append r size a.before a.behind
              (Apart-above sizeof_data r size a.before o f (omega (arith, a.offset)))
              (Apart-below (past o size) r size a.behind s'.size g.2 (omega (arith, a.offset)))),
        rw a.offset (block_size_lem s' a.before a.behind o size a.holds),
      )

  -- Freed again, the layout is what it was, unless the block is cut short by the end of the pool.
  pub free-allocate : r + sizeof_block ≤ s'.size → Holds (free r s') xs
  free-allocate h =
      let a = result in
      rw (a.is, a.offset)
        (free-Holds s' a.before a.behind (end_of sizeof_data a.before) size a.holds
          (omega (arith, a.offset))).0
