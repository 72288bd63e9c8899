-- ===== src/SimpleAllocator/Request.antt =====
-- What a call of allocate may lead to, and the expansion of the pool.
use native.Mathlib.Decide.{dec_lt}
use sharedstructures.Base.{ℕ, ◌+◌, ◌-◌, ◌<◌, ◌≤◌, ◌≡◌, refl, List, [], ◌∷◌, ◌++◌, arith, ◌⊎◌}
use sharedstructures.Outcome.{Outcome, ok, fail, Error, map_state}
use sharedstructures.Pool.{Pool, Os, expand}
use sharedstructures.Pool.Expand.{InSync}
use sharedstructures.SimpleAllocator.{State, sizeof_data, sizeof_block, expand_pool}
use sharedstructures.SimpleAllocator.Layout.{Entry, Holds, end_of, start_of, ceil8, Fits-mono}
use sharedstructures.SimpleAllocator.Place.{SameRoot}
use sharedstructures.SimpleAllocator.Search.{BeatsAll, spaces}

abbrev pub AllBelow : ℕ → List ℕ → Type 0
AllBelow n [] = Unit {0}
AllBelow n (g ∷ gs) = (g < n) × AllBelow n gs

pub BeatsAll-AllBelow :
    (needed c : ℕ) (gs : List ℕ) → BeatsAll needed c gs → c < needed → AllBelow needed gs
BeatsAll-AllBelow needed c [] b h = tt
BeatsAll-AllBelow needed c (g ∷ gs) (b, bs) h = (below, BeatsAll-AllBelow needed c gs bs h)
  where
    below : g < needed
    below = elim (dec_lt g needed) [
      | yes p ↦ p
      | no p ↦ absurd (omega (arith, (b (omega arith)).0))
    ]

-- The block of `size` bytes was put behind the blocks `before`. Either the space there is the
-- smallest that is large enough, or no space is and the pool was expanded.
pub record Allocated (s : State) (xs : List Entry) (size r : ℕ) (s' : State) : Type 0 where
  pub before : List Entry
  pub behind : List Entry
  pub is : xs ≡ before ++ behind
  pub offset : r ≡ end_of sizeof_data before + sizeof_block
  pub holds : Holds s' (before ++ (end_of sizeof_data before, size) ∷ behind)
  pub root : SameRoot s s'
  pub space :
      ((s'.pool ≡ s.pool)
        × BeatsAll
            (sizeof_block + ceil8 size)
            (start_of behind s.size - end_of sizeof_data before)
            (spaces sizeof_data xs s.size))
      ⊎ ((behind ≡ []) × AllBelow (sizeof_block + ceil8 size) (spaces sizeof_data xs s.size))

-- `Pool::expand` threw, and nothing else was changed.
abbrev pub Refused : Os → State → Error → State → Type 0
Refused os s e s' =
    (n : ℕ) × (expand os n s.pool ≡ fail e s'.pool)
    × (s'.blocks ≡ s.blocks)
    × (s'.header ≡ s.header)

abbrev pub Allocates : Os → State → List Entry → ℕ → Outcome State ℕ → Type 0
Allocates os s xs size (ok r s') = Allocated s xs size r s'
Allocates os s xs size (fail e s') = Refused os s e s'

pub expand_pool-cases :
    (os : Os) (n : ℕ) (s : State) (P : Outcome State (Unit {0}) → Type 0)
    → ((p : Pool) → expand os n s.pool ≡ ok tt p → P (ok tt (record s { pool = p })))
    → ((e : Error) (p : Pool) → expand os n s.pool ≡ fail e p → P (fail e (record s { pool = p })))
    → P (expand_pool os n s)
unfolding expand_pool
expand_pool-cases os n s P good bad = go (expand os n s.pool) refl
  where
    go :
        (r : Outcome Pool (Unit {0}))
        → expand os n s.pool ≡ r
        → P (map_state (λ p. record s { pool = p }) r)
    go (ok u p) e = good p e
    go (fail x p) e = bad x p e

-- The pool may grow under a state.
pub Holds-grow :
    (s : State) (xs : List Entry) (p : Pool)
    → Holds s xs
    → InSync p
    → s.size ≤ p.size
    → Holds (record s { pool = p }) xs
Holds-grow s xs p v i h = record {
  sync = i;
  chain = v.chain;
  fits = Fits-mono sizeof_data sizeof_data xs s.size p.size v.fits (omega arith) h;
  allocated = v.allocated;
  committed = v.committed;
}
