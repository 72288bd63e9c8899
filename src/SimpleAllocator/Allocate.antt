-- ===== src/SimpleAllocator/Allocate.antt =====
-- allocate: one block is added to the layout, in a free space of the pool or behind its end.
use mathlib.Core.List.{append-nil}
use native.Mathlib.Decide.{dec_lt}
use sharedstructures.Base.{
  sub64, ℕ, ◌+◌, ◌-◌, ◌<◌, ◌≤◌, ◌^◌, ◌≡◌, refl, List, [], ◌∷◌, arith, sym, subst, ◌∙◌, ◌⊎◌, inl,
  inr, eq→==, ne→==, Bool-cases, true, false, ltb, add64,
}
use sharedstructures.Outcome.{ok, and_then}
use sharedstructures.Pool.{Pool, Os}
use sharedstructures.Pool.Expand.{InSync, expand-InSync}
use sharedstructures.SimpleAllocator.{
  write, first_placed, State, Candidate, sizeof_data, sizeof_block, effective_size, place,
  place_first, make_room, or_out_of_fuel, allocate_linked, allocate_first, allocate,
}
use sharedstructures.SimpleAllocator.Layout.{
  Entry, Fits, Holds, end_of, start_of, ceil8, Fits-split, end_of-le, start_of-le,
}
use sharedstructures.SimpleAllocator.Links.{Links-last, Links-end, Links-cons, write_self}
use sharedstructures.SimpleAllocator.Place.{Spot, SameRoot, placed-Holds, placed-SameRoot}
use sharedstructures.SimpleAllocator.Request.{
  AllBelow, BeatsAll-AllBelow, Allocates, expand_pool-cases, Holds-grow,
}
use sharedstructures.SimpleAllocator.Search.{Gap, BeatsAll, spaces, search_space-best}

ltb-false : {a b : ℕ} → ¬ (a < b) → ltb a b ≡ false
ltb-false h = ground arith

module _ (os : Os) (s : State) (e : Entry) (es : List Entry) (size : ℕ) (small : size < 2 ^ 60)
    (v : Holds s (e ∷ es)) (below : s.size < 2 ^ 60) where
  abbrev Gap-Spot :
      (c : Candidate)
      → Gap s (e ∷ es) c
      → sizeof_block + ceil8 size ≤ c.size
      → Spot s (e ∷ es) (sizeof_block + ceil8 size) c
  Gap-Spot c g h = record {
    before = g.before;
    behind = g.behind;
    is = g.is;
    link = g.link;
    offset = g.offset;
    room = omega (arith, g.size);
  }

  -- Placing a block in the state `t`, which is `s` or `s` with a larger pool.
  placed-Allocated :
      (t : State)
      → Holds t (e ∷ es)
      → SameRoot s t
      → (c : Candidate) (p : Spot t (e ∷ es) (sizeof_block + ceil8 size) c)
      → ((t.pool ≡ s.pool)
          × BeatsAll
              (sizeof_block + ceil8 size)
              (start_of p.behind s.size - end_of sizeof_data p.before)
              (spaces sizeof_data (e ∷ es) s.size))
        ⊎ ((p.behind ≡ [])
            × AllBelow (sizeof_block + ceil8 size) (spaces sizeof_data (e ∷ es) s.size))
      → Allocates os s (e ∷ es) size (place size c t)
  unfolding place
  placed-Allocated t w root c p space =
      let (same, r) = placed-SameRoot t e es size small w c p in
      record {
        before = p.before;
        behind = p.behind;
        is = p.is;
        offset = omega (
          arith,
          p.offset,
          p.room,
          start_of-le (end_of sizeof_data p.before) p.behind t.size
              (Fits-split sizeof_data p.before p.behind t.size
                (subst (λ xs. Fits sizeof_data xs t.size) p.is w.fits)).1,
          w.sync.bounded,
        );
        holds = rw (← p.offset) (placed-Holds t e es size small w c p);
        root = record {
          base_object_offset = r.base_object_offset ∙ root.base_object_offset;
          initialized = r.initialized ∙ root.initialized;
        };
        space = elim space [ inl (q, b) ↦ inl (same ∙ q, b) | inr q ↦ inr q ];
      }

  place-Allocates :
      (c : Candidate)
      → Gap s (e ∷ es) c
      → sizeof_block + ceil8 size ≤ c.size
      → BeatsAll (sizeof_block + ceil8 size) c.size (spaces sizeof_data (e ∷ es) s.size)
      → Allocates os s (e ∷ es) size (place size c s)
  place-Allocates c g h b =
      let w : c.size ≡ start_of g.behind s.size - end_of sizeof_data g.before =
        omega (arith, g.size, g.offset) in
      placed-Allocated s v (record { base_object_offset = refl; initialized = refl }) c
        (Gap-Spot c g h)
        (inl (
          refl,
          subst (λ n. BeatsAll (sizeof_block + ceil8 size) n (spaces sizeof_data (e ∷ es) s.size)) w
              b,
        ))

  tail_end :
      add64 (add64 s.tail sizeof_block) (effective_size (s.blocks s.tail).size)
      ≡ end_of sizeof_data (e ∷ es)
  tail_end = omega (
    arith,
    Links-end s.blocks sizeof_data 0 s.head e es s.tail 0 v.chain,
    end_of-le sizeof_data (e ∷ es) s.size v.fits,
  )

  -- The pool `p` has room behind the tail.
  behind_tail-Allocates :
      (size' : ℕ) (p : Pool)
      → InSync p
      → s.size ≤ p.size
      → end_of sizeof_data (e ∷ es) + (sizeof_block + ceil8 size) ≤ p.size
      → AllBelow (sizeof_block + ceil8 size) (spaces sizeof_data (e ∷ es) s.size)
      → Allocates os s (e ∷ es) size (
          place size
            (record { offset = end_of sizeof_data (e ∷ es); size = size'; link_location = s.tail })
            (record s { pool = p }))
  behind_tail-Allocates size' p i h room full =
      placed-Allocated (record s { pool = p }) (Holds-grow s (e ∷ es) p v i h)
        (record { base_object_offset = refl; initialized = refl })
        (record { offset = end_of sizeof_data (e ∷ es); size = size'; link_location = s.tail })
        (record {
          before = e ∷ es;
          behind = [];
          is = sym (append-nil (e ∷ es));
          link = sym (Links-last s.blocks 0 s.head (e ∷ es) s.tail 0 v.chain);
          offset = refl;
          room = room;
        })
        (inr (refl, full))

  grown-Allocates :
      (c : Candidate)
      → c.size < sizeof_block + ceil8 size
      → BeatsAll (sizeof_block + ceil8 size) c.size (spaces sizeof_data (e ∷ es) s.size)
      → Allocates os s
          (e ∷ es)
          size
          (and_then (make_room os (sizeof_block + ceil8 size) c s) (place size))
  unfolding make_room
  grown-Allocates c h b =
      let needed = sizeof_block + ceil8 size in
      let xs : List Entry = e ∷ es in
      let n = add64 (end_of sizeof_data xs) needed in
      let fit = end_of-le sizeof_data xs s.size v.fits in
      let t : ltb c.size needed ≡ true = ground arith in
      rw (t, tail_end)
        (expand_pool-cases os n s
          (λ r. Allocates os s xs size (
            and_then
              (and_then r (λ _ s'.
                ok
                  (record c {
                    offset =
                        add64 (add64 s'.tail sizeof_block)
                          (effective_size (s'.blocks s'.tail).size);
                    link_location = s'.tail;
                  })
                  s'))
              (place size)))
          (λ p q.
            let (i, room, more) = expand-InSync os n v.sync (omega (arith, fit)) q in
            rw tail_end (
              behind_tail-Allocates c.size p i more (omega (arith, fit, room))
                (BeatsAll-AllBelow needed c.size (spaces sizeof_data xs s.size) b h)))
          (λ x p q. (n, q, refl, refl)))

  linked-Allocates :
      Allocates os s (e ∷ es) size (allocate_linked os size (sizeof_block + ceil8 size) s)
  unfolding allocate_linked
  linked-Allocates =
      let needed = sizeof_block + ceil8 size in
      let (c, found, g, b) = search_space-best s needed e es v in
      rw (found, or_out_of_fuel)
        (elim (dec_lt c.size needed) [
          | yes h ↦ grown-Allocates c h b
          | no h ↦ rw (ltb-false h, make_room) (place-Allocates c g (omega arith) b)
        ])

-- The first block of a pool.
module _ (os : Os) (s : State) (size : ℕ) (small : size < 2 ^ 60) (v : Holds s [])
    (below : s.size < 2 ^ 60) where
  -- The pool `p` has room for it.
  module _ (p : Pool) (i : InSync p)
      (room : sizeof_data + (sizeof_block + ceil8 size) ≤ p.size) where
    first_placed-Holds :
        Holds (first_placed size (record s { pool = p })) ((sizeof_data, size) ∷ [])
    unfolding first_placed
    first_placed-Holds = record {
      sync = i;
      chain =
          Links-cons (write s.blocks sizeof_data (record { prev = 0; next = 0; size = size })) 0
            sizeof_data size 0 [] sizeof_data 0
            (write_self s.blocks sizeof_data (record { prev = 0; next = 0; size = size }))
            (refl, refl);
      fits = omega arith;
      allocated = omega (arith, v.allocated);
      committed = omega (arith, v.committed);
    }

    first_placed-Allocates :
        ((p ≡ s.pool)
            × BeatsAll
                (sizeof_block + ceil8 size)
                (s.size - sizeof_data)
                (spaces sizeof_data [] s.size))
          ⊎ AllBelow (sizeof_block + ceil8 size) (spaces sizeof_data [] s.size)
        → Allocates os s [] size (place_first size (record s { pool = p }))
    unfolding place_first
    first_placed-Allocates space = record {
      before = [];
      behind = [];
      is = refl;
      offset = refl;
      holds = first_placed-Holds;
      root = record { base_object_offset = refl; initialized = refl };
      space = elim space [ inl q ↦ inl q | inr q ↦ inr (refl, q) ];
    }

  first-Allocates : Allocates os s [] size (allocate_first os size (sizeof_block + ceil8 size) s)
  unfolding allocate_first
  first-Allocates =
      let needed = sizeof_block + ceil8 size in
      let free : sub64 s.size sizeof_data ≡ s.size - sizeof_data =
        omega (arith, v.fits, v.sync.bounded) in
      elim (Bool-cases (ltb (sub64 s.size sizeof_data) needed)) [
        | inl t ↦ rw t (
            expand_pool-cases os (add64 needed sizeof_data) s
              (λ r. Allocates os s [] size (and_then r (λ _ s'. place_first size s')))
              (λ p q.
                let (i, room, more) =
                  expand-InSync os (add64 needed sizeof_data) v.sync (omega arith) q in
                first_placed-Allocates p i (omega (arith, room)) (inr (ground arith, tt)))
              (λ x p q. (add64 needed sizeof_data, q, refl, refl)))
        | inr t ↦ rw t (
            first_placed-Allocates s.pool v.sync (ground arith)
              (inl (refl, ((λ h. omega arith), tt))))
      ]

needed_size :
    (size : ℕ)
    → size < 2 ^ 60
    → add64 (effective_size size) sizeof_block ≡ sizeof_block + ceil8 size
needed_size size small = omega arith

pub allocate-Allocates :
    (os : Os) (s : State) (xs : List Entry) (size : ℕ)
    → size < 2 ^ 60
    → s.size < 2 ^ 60
    → Holds s xs
    → Allocates os s xs size (allocate os size s)
unfolding allocate
allocate-Allocates os s [] size small below v =
    rw (eq→== s.head 0 v.chain.0, eq→== s.tail 0 (sym v.chain.1))
      (subst (λ n. Allocates os s [] size (allocate_first os size n s))
        (sym (needed_size size small)) (first-Allocates os s size small v below))
allocate-Allocates os s (e ∷ es) size small below v =
    rw (ne→== s.head 0 (omega (arith, v.chain.0, v.fits.0))) (
      subst (λ n. Allocates os s (e ∷ es) size (allocate_linked os size n s))
        (sym (needed_size size small)) (linked-Allocates os s e es size small v below))
