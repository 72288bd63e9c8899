-- ===== src/SimpleAllocator/Repair.antt =====
-- repair: the walk along the next links rebuilds everything else.
use sharedstructures.Base.{
  ℕ, zero, suc, ◌+◌, ◌<◌, ◌≤◌, ◌^◌, ◌≡◌, ◌≢◌, refl, ap, List, [], ◌∷◌, arith, sym, subst, ◌∙◌,
  eq→==, ne→==, add64, length, Option, some,
}
use sharedstructures.Outcome.{ok}
use sharedstructures.Pool.Expand.{InSync}
use sharedstructures.SimpleAllocator.{
  State, Blocks, AllocatedBlock, sizeof_data, sizeof_block, Walk, walk_block, walk_blocks,
  walk_start, walked, repair, or_out_of_fuel, committed_size,
}
use sharedstructures.SimpleAllocator.Layout.{
  Entry, Fits, Links, Holds, past, ceil8, sum_sizes, sum_spans, Fits-le, sum_sizes-le,
}
use sharedstructures.SimpleAllocator.Place.{SameRoot}
use sharedstructures.SimpleAllocator.Links.{Links-cons, write_self, write_ne}

-- The next links alone, and the sizes.
abbrev pub Forward : Blocks → ℕ → List Entry → Type 0
Forward b cur [] = cur ≡ 0
Forward b cur ((o, n) ∷ xs) = (cur ≡ o) × ((b o).size ≡ n) × Forward b (b o).next xs

-- What a crash may leave: back links, tail and counters are arbitrary.
pub record Recoverable (s : State) (xs : List Entry) : Type 0 where
  pub sync : InSync s.pool
  pub chain : Forward s.blocks s.head xs
  pub fits : Fits sizeof_data xs s.size

Forward-frame :
    (b b' : Blocks) (lo cur : ℕ) (xs : List Entry) (hi : ℕ)
    → Fits lo xs hi
    → ((a : ℕ) → lo ≤ a → b' a ≡ b a)
    → Forward b cur xs
    → Forward b' cur xs
Forward-frame b b' lo cur [] hi f same k = k
Forward-frame b b' lo cur ((o, n) ∷ xs) hi (a, m, f) same (c, z, k) =
    let e : b' o ≡ b o = same o a in
    (
      c,
      ap (λ (x : AllocatedBlock). x.size) e ∙ z,
      subst (λ (x : AllocatedBlock). Forward b' x.next xs) (sym e)
          (Forward-frame b b' (past o n) (b o).next xs hi f (λ q h. same q (omega arith)) k),
    )

-- The walk over the blocks `xs` from `w`.
pub record Walked (lo cur : ℕ) (xs : List Entry) (w w' : Walk) : Type 0 where
  pub links : Links w'.blocks w.prev_offset cur xs w'.prev_offset 0
  pub same : (a : ℕ) → a < lo → w'.blocks a ≡ w.blocks a
  pub allocated : w'.bytes_allocated ≡ w.bytes_allocated + sum_sizes xs
  pub committed : w'.bytes_committed ≡ w.bytes_committed + sum_spans xs

abbrev Walks : ℕ → ℕ → List Entry → Walk → Option Walk → Type 0
Walks lo cur xs w r = (w' : Walk) × (r ≡ some w') × Walked lo cur xs w w'

Walked-cons :
    (lo o n : ℕ) (xs : List Entry) (w w' : Walk)
    → lo ≤ o
    → (w.blocks o).size ≡ n
    → n < 2 ^ 63
    → w.bytes_allocated + n < 2 ^ 64
    → w.bytes_committed + (sizeof_block + ceil8 n) < 2 ^ 64
    → Walked (past o n) (w.blocks o).next xs (walk_block o w) w'
    → Walked lo o ((o, n) ∷ xs) w w'
unfolding walk_block
Walked-cons lo o n xs w w' a z small p q r = record {
  links =
      Links-cons w'.blocks w.prev_offset o n (w.blocks o).next xs w'.prev_offset 0
        (r.same o (omega arith)
          ∙ write_self w.blocks o (record (w.blocks o) { prev = w.prev_offset })
          ∙ ap (λ (x : ℕ). record (w.blocks o) { prev = w.prev_offset; size = x }) z)
        r.links;
  same = λ x h.
      r.same x (omega arith)
      ∙ write_ne w.blocks o x (record (w.blocks o) { prev = w.prev_offset }) (omega arith);
  allocated = omega (arith, r.allocated, z);
  committed = omega (arith, r.committed, z);
}

walk_block_lem :
    (o : ℕ) (w : Walk)
    → (((walk_block o w).blocks o).next ≡ (w.blocks o).next)
      × ((a : ℕ) → a ≢ o → (walk_block o w).blocks a ≡ w.blocks a)
      × ((walk_block o w).bytes_allocated ≡ add64 w.bytes_allocated (w.blocks o).size)
      × ((walk_block o w).bytes_committed
          ≡ add64 w.bytes_committed (committed_size (w.blocks o).size))
unfolding walk_block
walk_block_lem o w = (
  ap (λ (x : AllocatedBlock). x.next)
      (write_self w.blocks o (record (w.blocks o) { prev = w.prev_offset })),
  (λ a h. write_ne w.blocks o a (record (w.blocks o) { prev = w.prev_offset }) h),
  refl,
  refl,
)

walk_blocks-Walks :
    (fuel lo cur : ℕ) (xs : List Entry) (hi : ℕ) (w : Walk)
    → length xs < fuel
    → sizeof_data ≤ lo
    → Fits lo xs hi
    → Forward w.blocks cur xs
    → w.bytes_allocated + sum_sizes xs < 2 ^ 63
    → w.bytes_committed + sum_spans xs < 2 ^ 63
    → Walks lo cur xs w (walk_blocks fuel cur w)
unfolding walk_blocks
walk_blocks-Walks zero lo cur xs hi w h l f k p q = absurd (omega arith)
walk_blocks-Walks (suc fuel) lo cur [] hi w h l f k p q = (
  w,
  rw (eq→== cur 0 k),
  record {
    links = (k, refl);
    same = λ a b. refl;
    allocated = omega arith;
    committed = omega arith;
  },
)
walk_blocks-Walks (suc fuel) lo cur ((o, n) ∷ xs) hi w h l (a, m, f) (c, z, k) p q =
    subst (λ x. Walks lo x ((o, n) ∷ xs) w (walk_blocks (suc fuel) x w)) (sym c)
      (let w₁ = walk_block o w in
        let (next, rest, allocated, committed) = walk_block_lem o w in
        let le = Fits-le (past o n) xs hi f in
        let (w', found, r) =
          walk_blocks-Walks fuel (past o n) (w.blocks o).next xs hi w₁ (omega arith) (omega arith) f
            (Forward-frame w.blocks w₁.blocks (past o n) (w.blocks o).next xs hi f
              (λ x j. rest x (omega arith)) k)
            (omega (arith, allocated, committed, z)) (omega (arith, allocated, committed, z)) in
        (
          w',
          rw (ne→== o 0 (omega arith), next) found,
          Walked-cons lo o n xs w w' a z (omega arith) (omega arith) (omega arith) r,
        ))

-- From any state whose next links and sizes are good, repair ends, and restores the back links, the
-- tail and the counters.
pub repair-Holds :
    (s : State) (xs : List Entry)
    → Recoverable s xs
    → (s' : State) × (repair s ≡ ok tt s') × Holds s' xs × (s'.pool ≡ s.pool) × SameRoot s s'
unfolding repair
repair-Holds s xs r =
    let le = Fits-le sizeof_data xs s.size r.fits in
    let sums = sum_sizes-le xs in
    let (w, found, q) =
      walk_blocks-Walks (suc s.size) sizeof_data s.head xs s.size (walk_start s) (omega arith)
        (omega arith) r.fits r.chain (omega (arith, r.sync.bounded))
        (omega (arith, r.sync.bounded)) in
    (
      walked s w,
      rw (found, or_out_of_fuel),
      record {
        sync = r.sync;
        chain = q.links;
        fits = r.fits;
        allocated = omega (arith, q.allocated);
        committed = omega (arith, q.committed);
      },
      refl,
      record { base_object_offset = refl; initialized = refl },
    )
