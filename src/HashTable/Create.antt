-- ===== src/HashTable/Create.antt =====
-- create_hash_base.
use sharedstructures.Base.{ℕ, ◌<◌, ◌≤◌, ◌≡◌, ◌⊎◌}
use sharedstructures.Outcome.{Outcome, ok, fail, bad_alloc, invalid_argument}
use sharedstructures.Allocator.{Allocator}
use sharedstructures.HashTable.Memory.{Table}
use sharedstructures.HashTable.Contents.{vacant}
use sharedstructures.HashTable.Held.{Held}

module _ (A : Allocator) where
  -- What the constructor may end with.
  abbrev pub Created : Table A.State → (bits : ℕ) → Outcome (Table A.State) ℕ → Type 0
  Created t bits (ok base w) =
      (2 ≤ bits) × (w.bits ≡ bits) × (w.item_count ≡ 0) × Held A w (λ i. vacant)
  Created t bits (fail e w) =
      ((bits < 2) × (e ≡ invalid_argument) × (w ≡ t)) ⊎ ((2 ≤ bits) × (e ≡ bad_alloc))
