-- ===== src/SimpleAllocator/Place.antt =====
-- The end of allocate: linking and counting a block at a spot with room for it.
use sharedstructures.Base.{
  ℕ, ◌+◌, ◌<◌, ◌≤◌, ◌^◌, ◌≡◌, refl, ap, List, ◌∷◌, ◌++◌, arith, sym, subst, ◌∙◌, ◌%◌,
}
use sharedstructures.Pool.{Pool}
use sharedstructures.Pool.Expand.{InSync}
use sharedstructures.SimpleAllocator.{
  State, Candidate, sizeof_data, sizeof_block, link_block, placed,
}
use sharedstructures.SimpleAllocator.Layout.{
  Entry, Fits, Links, Holds, last_of, past, end_of, start_of, ceil8, sum_sizes, sum_spans, Fits-le,
  Fits-split, Fits-raise, sums-insert, Fits-insert, sum_sizes-le, end_of_aligned,
}
use sharedstructures.SimpleAllocator.Insert.{link_block-Links, link_block_counts}

-- Where the new block goes, and that there is room for it.
pub record Spot (s : State) (xs : List Entry) (needed : ℕ) (c : Candidate) : Type 0 where
  pub before : List Entry
  pub behind : List Entry
  pub is : xs ≡ before ++ behind
  pub link : c.link_location ≡ last_of 0 before
  pub offset : c.offset ≡ end_of sizeof_data before
  pub room : c.offset + needed ≤ start_of behind s.size

-- What an operation leaves alone.
pub record SameRoot (s s' : State) : Type 0 where
  pub base_object_offset : s'.base_object_offset ≡ s.base_object_offset
  pub initialized : s'.initialized ≡ s.initialized

module _ (s : State) (e : Entry) (es : List Entry) (size : ℕ) (small : size < 2 ^ 60)
    (v : Holds s (e ∷ es)) (c : Candidate) (p : Spot s (e ∷ es) (sizeof_block + ceil8 size) c) where
  place-Fits :
      Fits sizeof_data p.before c.offset
      × Fits (past c.offset size) p.behind s.size
      × (c.offset % 8 ≡ 0)
  place-Fits =
      let (f, g) =
        Fits-split sizeof_data p.before p.behind s.size
          (subst (λ xs. Fits sizeof_data xs s.size) p.is v.fits) in
      (
        subst (Fits sizeof_data p.before) (sym p.offset) f,
        Fits-raise (end_of sizeof_data p.before) (past c.offset size) p.behind s.size g p.room,
        rw p.offset (end_of_aligned sizeof_data p.before (end_of sizeof_data p.before) refl f),
      )

  place-Links :
      let s' = link_block size c s in
      Links s'.blocks 0 s'.head (p.before ++ (c.offset, size) ∷ p.behind) s'.tail 0
  place-Links =
      link_block-Links s c.offset size s.size p.before p.behind c refl p.link (λ h. cc (p.is ∙ h))
        place-Fits.0 place-Fits.1 (subst (λ xs. Links s.blocks 0 s.head xs s.tail 0) p.is v.chain)

  pub placed-Holds : Holds (placed size c s) (p.before ++ (c.offset, size) ∷ p.behind)
  unfolding placed
  placed-Holds =
      let xs : List Entry = p.before ++ (c.offset, size) ∷ p.behind in
      let (f, g, m) = place-Fits in
      let (same, a, k, _, _) = link_block_counts s c.offset size s.size c in
      let fits = Fits-insert sizeof_data p.before p.behind c.offset size s.size f m g in
      let (i, j) = sums-insert p.before p.behind c.offset size in
      let within : sum_sizes xs + sizeof_data + sum_spans xs < 2 ^ 64 =
        omega (arith, Fits-le sizeof_data xs s.size fits, sum_sizes-le xs, v.sync.bounded) in
      record {
        sync = subst InSync (sym same) v.sync;
        chain = place-Links;
        fits = subst (λ (q : Pool). Fits sizeof_data xs q.size) (sym same) fits;
        allocated = rw a (omega (arith, v.allocated, i, within, ap sum_sizes p.is));
        committed = rw k (omega (arith, v.committed, j, within, ap sum_spans p.is));
      }

  pub placed-SameRoot : ((placed size c s).pool ≡ s.pool) × SameRoot s (placed size c s)
  unfolding placed
  placed-SameRoot =
      let (same, _, _, b, i) = link_block_counts s c.offset size s.size c in
      (same, record { base_object_offset = b; initialized = i })
