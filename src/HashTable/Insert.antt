-- ===== src/HashTable/Insert.antt =====
-- insert, on every branch, for a table whose slots hold given contents.
use sharedstructures.Base.{ℕ, zero, suc, ◌^◌, ◌<◌, ◌≡◌, arith, List, Bool, true, set_at}
use native.Mathlib.Nat.{mod-lt, pow-suc}
use sharedstructures.Outcome.{Outcome, ok, fail, bad_alloc}
use sharedstructures.Allocator.{Allocator}
use sharedstructures.HashTable.Memory.{Table, slot_of, fnv1a64}
use sharedstructures.HashTable.Contents.{Contents, entries_of}
use sharedstructures.HashTable.Held.{Held}
use sharedstructures.HashTable.Chains.{put}

module _ (A : Allocator) where
  -- What a write of a pair into the slot `i` may end with.
  abbrev pub Inserted :
      Table A.State
      → (ℕ → Contents)
      → ℕ
      → (key value : List ℕ) → Outcome (Table A.State) Bool
      → Type 0
  Inserted t view i k v (ok b w) =
      (b ≡ true)
      × (w.bits ≡ t.bits)
      × ((r : ℕ) × (c : Contents) × (entries_of c
            ≡ put (record { offset = r; key = k; value = v }) (entries_of (view i)))
          × Held A w (set_at view i c))
  Inserted t view i k v (fail e w) = (e ≡ bad_alloc) × (w.bits ≡ t.bits) × Held A w view

  power_positive : (n : ℕ) → 0 < 2 ^ n
  power_positive zero = omega arith
  power_positive (suc n) = omega (arith, pow-suc 2 n, power_positive n)

  pub slot_below : (k : List ℕ) (t : Table A.State) → slot_of k t < 2 ^ t.bits
  slot_below k t = mod-lt (fnv1a64 k) (power_positive t.bits)
