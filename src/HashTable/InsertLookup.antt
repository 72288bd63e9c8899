-- ===== src/HashTable/InsertLookup.antt =====
-- Lookups behind an insert.
use sharedstructures.Base.{ℕ, ◌≡◌, List, Bool, if◌then◌else◌}
use sharedstructures.Outcome.{Outcome, ok, fail}
use sharedstructures.Allocator.{Allocator}
use sharedstructures.HashTable.Memory.{Table, slot_of}
use sharedstructures.HashTable.Walk.{at}
use sharedstructures.HashTable.Contents.{Contents, entries_of, same_list, find}
use sharedstructures.HashTable.Lookup.{found_outcome}
use sharedstructures.HashTable.Held.{Held}

module _ (A : Allocator) (fuel : ℕ) (k v key : List ℕ) (t : Table A.State)
    (view : ℕ → Contents) where
  -- What a lookup of `key` is to give behind the insert of `v` under `k`.
  abbrev pub LookedUp : Outcome (Table A.State) Bool → Type 0
  LookedUp (ok b w) = at A fuel key w ≡ (
      if same_list k key
      then ok v w
      else found_outcome A w (find key (entries_of (view (slot_of key t)))))
  LookedUp (fail e w) =
      at A fuel key w ≡ found_outcome A w (find key (entries_of (view (slot_of key t))))

  answer : Table A.State → Contents → Outcome (Table A.State) (List ℕ)
  answer w c = found_outcome A w (find key (entries_of c))
