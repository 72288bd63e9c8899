-- ===== src/HashTable/IncrChain.antt =====
-- incr of a key in a chain.
use sharedstructures.Base.{ℕ, zero, suc, ◌+◌, ◌/◌, ◌%◌, ◌^◌, ◌≡◌, refl, ap, List, ◌∷◌, length, true}
use sharedstructures.Allocator.{Allocator}
use sharedstructures.HashTable.Memory.{Table, slot_of, put_bytes, read_bytes}
use sharedstructures.HashTable.Incr.{bytes_of_number, number_of_bytes}
use sharedstructures.HashTable.Contents.{Link, chained, same_list, SlotHolds}

bytes_of_number-length : (n v : ℕ) → length (bytes_of_number n v) ≡ n
unfolding bytes_of_number
bytes_of_number-length zero v = refl
bytes_of_number-length (suc n) v = ap suc (bytes_of_number-length n (v / 256))

module _ (A : Allocator) (t : Table A.State) where
  -- The first node of the chain of the slot has the key.
  module _ (k : List ℕ) (l : Link) (ls : List Link)
      (h : SlotHolds A t (t.slots (slot_of k t)) (chained (l ∷ ls)))
      (same : same_list l.entry.key k ≡ true) where
    -- The eight bytes that the code adds to.
    abbrev pub wrong_offset : ℕ
    wrong_offset = l.entry.offset + l.entry.offset

    abbrev pub wrong_sum : (delta : ℕ) → ℕ
    wrong_sum delta = (number_of_bytes (read_bytes t.bytes 8 wrong_offset) + delta) % 2 ^ 64

    abbrev changed : (delta : ℕ) → Table A.State
    changed delta = put_bytes wrong_offset (bytes_of_number 8 (wrong_sum delta)) t
