-- ===== src/SimpleAllocator/Search.antt =====
-- The search of allocate: it ends, and finds the smallest space that is large enough.
use mathlib.Core.List.{append_assoc}
use sharedstructures.Base.{
  leb, ltb, ◌&&◌, ℕ, zero, suc, ◌+◌, ◌-◌, ◌<◌, ◌≤◌, ◌^◌, ◌≡◌, refl, List, [], ◌∷◌, ◌++◌, arith,
  ◌==◌, sym, subst, ◌∙◌, inl, inr, eq→==, ne→==, Option, some, Bool-cases, ==→eq, ◌||◌, length,
}
use sharedstructures.SimpleAllocator.{
  State, Candidate, sizeof_data, free_block_size, space_behind, consider, search_space,
  first_candidate,
}
use sharedstructures.SimpleAllocator.Layout.{
  Entry, Fits, Links, Holds, last_of, past, end_of, start_of, Fits-le, start_of-ge, start_of-le,
  last_of-snoc, end_of-snoc, sum_sizes-le,
}

-- The candidate names the space between the blocks `before` and `behind`, or, if it is too small,
-- a part of it.
pub record Gap (s : State) (xs : List Entry) (c : Candidate) : Type 0 where
  pub before : List Entry
  pub behind : List Entry
  pub is : xs ≡ before ++ behind
  pub link : c.link_location ≡ last_of 0 before
  pub offset : c.offset ≡ end_of sizeof_data before
  pub size : c.offset + c.size ≡ start_of behind s.size

-- The free space behind each block.
abbrev pub behind_each : List Entry → ℕ → List ℕ
behind_each [] hi = []
behind_each ((o, n) ∷ xs) hi = (start_of xs hi - past o n) ∷ behind_each xs hi

-- All free spaces between `lo` and `hi`.
abbrev pub spaces : ℕ → List Entry → ℕ → List ℕ
spaces lo xs hi = (start_of xs hi - lo) ∷ behind_each xs hi

-- A space of `c` bytes serves a request of `needed` bytes where one of `g` bytes does, and is no
-- larger.
abbrev pub Beats : ℕ → ℕ → ℕ → Type 0
Beats needed c g = needed ≤ g → (needed ≤ c) × (c ≤ g)

abbrev pub BeatsAll : ℕ → ℕ → List ℕ → Type 0
BeatsAll needed c [] = Unit {0}
BeatsAll needed c (g ∷ gs) = Beats needed c g × BeatsAll needed c gs

exact-BeatsAll : (needed c : ℕ) (gs : List ℕ) → needed ≡ c → BeatsAll needed c gs
exact-BeatsAll needed c [] e = tt
exact-BeatsAll needed c (g ∷ gs) e = (λ h. omega arith, exact-BeatsAll needed c gs e)

Beats-trans : (needed a b c : ℕ) → Beats needed a b → Beats needed b c → Beats needed a c
Beats-trans needed a b c p q h = ((p (q h).0).0, omega (arith, (p (q h).0).1, (q h).1))

consider-Beats :
    (s : State) (needed : ℕ) (c : Candidate) (o : ℕ)
    → Beats needed (consider s needed c o).size c.size
      × Beats needed (consider s needed c o).size (free_block_size s o)
unfolding consider space_behind
consider-Beats s needed c o = ground arith

module _ (s : State) (bounded : s.size < 2 ^ 63) where
  free_block_size_lem :
      (lo o n : ℕ) (zs : List Entry)
      → sizeof_data ≤ lo
      → Fits lo ((o, n) ∷ zs) s.size
      → (s.blocks o).size ≡ n
      → Links s.blocks o (s.blocks o).next zs s.tail 0
      → free_block_size s o ≡ start_of zs s.size - past o n
  unfolding free_block_size
  free_block_size_lem lo o n [] a f e k = ground (arith, f.2, k.0)
  free_block_size_lem lo o n ((q, m) ∷ zs) a f e k =
      ground (arith, f.2.0, k.0, Fits-le (past q m) zs s.size f.2.2)

  module _ (xs : List Entry) (needed : ℕ) (ys : List Entry) (o n : ℕ) (zs : List Entry)
      (is : xs ≡ ys ++ (o, n) ∷ zs) (f : Fits (end_of sizeof_data ys) ((o, n) ∷ zs) s.size)
      (z : (s.blocks o).size ≡ n) (w : free_block_size s o ≡ start_of zs s.size - past o n) where
    space_behind-Gap : Gap s xs (space_behind s o)
    unfolding space_behind
    space_behind-Gap = record {
      before = ys ++ (o, n) ∷ [];
      behind = zs;
      is = is ∙ sym (append_assoc ys ((o, n) ∷ []) zs);
      link = sym (last_of-snoc 0 ys o n);
      offset =
          rw (end_of-snoc sizeof_data ys o n, z) (omega (arith, Fits-le (past o n) zs s.size f.2));
      size = rw z (
          omega (arith, Fits-le (past o n) zs s.size f.2, start_of-ge (past o n) zs s.size f.2, w));
    }

    consider-Gap : (c : Candidate) → Gap s xs c → Gap s xs (consider s needed c o)
    unfolding consider
    consider-Gap c g =
        elim (Bool-cases (
          leb needed (free_block_size s o)
          && (ltb c.size needed || ltb (free_block_size s o) c.size))) [
            | inl t ↦ rw t space_behind-Gap
            | inr t ↦ rw t g
          ]

-- What the search returns.
pub record Found (s : State) (xs : List Entry) (needed : ℕ) (start : ℕ) (zs : List Entry)
    (c : Candidate) : Type 0 where
  pub gap : Gap s xs c
  pub beats_start : Beats needed c.size start
  pub beats : BeatsAll needed c.size (behind_each zs s.size)

-- A round of the loop.
Found-step :
    (s : State) (xs : List Entry) (needed : ℕ) (c c' : Candidate) (o n : ℕ) (zs : List Entry)
    → free_block_size s o ≡ start_of zs s.size - past o n
    → Found s xs needed (consider s needed c o).size zs c'
    → Found s xs needed c.size ((o, n) ∷ zs) c'
Found-step s xs needed c c' o n zs w r =
    let (p, q) = consider-Beats s needed c o in
    let next = (consider s needed c o).size in
    record {
      gap = r.gap;
      beats_start = Beats-trans needed c'.size next c.size r.beats_start p;
      beats = (
        subst (Beats needed c'.size) w
            (Beats-trans needed c'.size next (free_block_size s o) r.beats_start q),
        r.beats,
      );
    }

module _ (s : State) (bounded : s.size < 2 ^ 63) (xs : List Entry) (needed : ℕ) where
  abbrev pub Finds : Candidate → List Entry → Option Candidate → Type 0
  Finds c zs r = (c' : Candidate) × (r ≡ some c') × Found s xs needed c.size zs c'

  -- From the candidate `c` and the blocks `zs` still to be seen the loop ends, with a candidate
  -- that beats `c` and every space behind a block of `zs`.
  pub search_space-Found :
      (fuel : ℕ) (ys : List Entry) (c : Candidate) (cur : ℕ) (zs : List Entry)
      → length zs < fuel
      → xs ≡ ys ++ zs
      → sizeof_data ≤ end_of sizeof_data ys
      → Fits (end_of sizeof_data ys) zs s.size
      → Links s.blocks (last_of 0 ys) cur zs s.tail 0
      → Gap s xs c
      → Finds c zs (search_space fuel s needed c cur)
  unfolding search_space
  search_space-Found zero ys c cur zs h is l f k g = absurd (omega arith)
  search_space-Found (suc fuel) ys c cur [] h is l f k g =
      (c, rw (eq→== cur 0 k.0), record { gap = g; beats_start = λ i. omega arith; beats = tt })
  search_space-Found (suc fuel) ys c cur ((o, n) ∷ zs) h is l f k g =
      subst (λ x. Finds c ((o, n) ∷ zs) (search_space (suc fuel) s needed c x)) (sym k.0)
        (elim (Bool-cases (needed == c.size)) [
          | inl e ↦ (
            c,
            ground arith,
            record {
              gap = g;
              beats_start = λ i. omega arith;
              beats =
                  exact-BeatsAll needed c.size (behind_each ((o, n) ∷ zs) s.size)
                    (==→eq needed c.size e);
            },
          )
          | inr e ↦
              let w = free_block_size_lem s bounded (end_of sizeof_data ys) o n zs l f k.2 k.3 in
              let (c', found, r) =
                search_space-Found fuel (ys ++ (o, n) ∷ []) (consider s needed c o)
                  (s.blocks o).next zs (omega arith) (is ∙ sym (append_assoc ys ((o, n) ∷ []) zs))
                  (rw (end_of-snoc sizeof_data ys o n) (omega (arith, f.0)))
                  (rw (end_of-snoc sizeof_data ys o n) f.2) (rw (last_of-snoc 0 ys o n) k.3)
                  (consider-Gap s bounded xs needed ys o n zs is f k.2 w c g) in
              (
                c',
                rw (e, ne→== o 0 (omega (arith, f.0))) found,
                Found-step s xs needed c c' o n zs w r,
              )
        ])

first_candidate-size :
    (s : State) (o n : ℕ) (zs : List Entry)
    → Holds s ((o, n) ∷ zs)
    → (first_candidate s).size ≡ o - sizeof_data
first_candidate-size s o n zs v = omega (
  arith,
  v.chain.0,
  v.fits.0,
  start_of-le sizeof_data ((o, n) ∷ zs) s.size v.fits,
  v.sync.bounded,
)

-- The whole search: it ends, and its candidate beats every free space of the pool.
pub search_space-best :
    (s : State) (needed : ℕ) (e : Entry) (zs : List Entry)
    → Holds s (e ∷ zs)
    → (c : Candidate) × (search_space (suc s.size) s needed (first_candidate s) s.head ≡ some c)
      × Gap s (e ∷ zs) c
      × BeatsAll needed c.size (spaces sizeof_data (e ∷ zs) s.size)
search_space-best s needed (o, n) zs v =
    let xs : List Entry = (o, n) ∷ zs in
    let w = first_candidate-size s o n zs v in
    let (c, found, r) =
      search_space-Found s v.sync.bounded xs needed (suc s.size) [] (first_candidate s) s.head xs
        (omega (arith, sum_sizes-le xs, Fits-le sizeof_data xs s.size v.fits)) refl (omega arith)
        v.fits v.chain
        (record {
          before = [];
          behind = xs;
          is = refl;
          link = refl;
          offset = refl;
          size = omega (arith, w, v.fits.0);
        }) in
    (c, found, r.gap, (subst (Beats needed c.size) w r.beats_start, r.beats))
