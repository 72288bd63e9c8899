-- ===== src/HashTable/Examples.antt =====
-- The operations of HashTable on the sample tables.
use sharedstructures.Base.{
  ℕ, ◌<◌, ◌≡◌, refl, sym, ◌∙◌, arith, List, [], ◌∷◌, length, true, false, none, some, set_at_all,
}
use sharedstructures.Outcome.{ok}
use sharedstructures.PrefixTree.Bump.{Bump, bump}
use sharedstructures.HashTable.Memory.{Table, slot_of, fnv1a64, fnv1a64_from}
use sharedstructures.HashTable.Walk.{at, exists, get_slot_contents}
use sharedstructures.HashTable.Update.{erase, clear}
use sharedstructures.HashTable.Contents.{vacant, chained, links_of, SlotHolds}
use sharedstructures.HashTable.Lookup.{at-Finds, get_slot_contents-SlotHolds}
use sharedstructures.HashTable.Held.{Held}
use sharedstructures.HashTable.Clear.{clear-Held}
use sharedstructures.HashTable.Erase.{erase_missing, erase_loses}
use sharedstructures.HashTable.Sample.{
  zeros, first_link, second_link, third_link, links, three, three-SlotHolds, view_of, three-Held,
}

-- The keys are in the first slot.
slot_zero :
    (slot_of (1 ∷ []) three ≡ 0) × (slot_of (5 ∷ []) three ≡ 0) × (slot_of (13 ∷ []) three ≡ 0)
unfolding fnv1a64 fnv1a64_from
slot_zero = (refl, refl, refl)

in_slot :
    (k : List ℕ)
    → slot_of k three ≡ 0
    → SlotHolds bump three (three.slots (slot_of k three)) (chained links)
in_slot k e = rw e three-SlotHolds

at-Finds_example :
    (at bump 4 (5 ∷ []) three ≡ ok (7 ∷ []) three) × (exists bump 4 (5 ∷ []) three ≡ ok true three)
at-Finds_example =
    at-Finds bump three 4 (5 ∷ []) (chained links) (in_slot (5 ∷ []) (slot_zero.1)) (omega arith)

get_slot_contents-SlotHolds_example :
    get_slot_contents bump 4 0 three
    ≡ some ((1 ∷ [], zeros) ∷ (5 ∷ [], 7 ∷ []) ∷ (9 ∷ [], 8 ∷ []) ∷ [])
get_slot_contents-SlotHolds_example =
    get_slot_contents-SlotHolds bump three 4 0 (chained links) three-SlotHolds (omega arith)

few_links : (j : ℕ) → length (links_of (view_of (chained links) j)) < 5
few_links =
    set_at_all (λ j x. length (links_of x) < 5) (λ i. vacant) 0 (chained links) (omega arith)
      (λ j n. omega arith)

clear-Held_example :
    (w : Table Bump) × (clear bump 5 three ≡ ok tt w)
    × (w.bits ≡ three.bits)
    × (w.item_count ≡ 0)
    × Held bump w (λ i. vacant)
clear-Held_example = clear-Held bump three-Held 5 few_links

erase_missing_example : erase bump 4 (13 ∷ []) none three ≡ ok false three
erase_missing_example =
    erase_missing bump 4 (13 ∷ []) three (chained links) (in_slot (13 ∷ []) (slot_zero.2))
      (omega arith) refl

erase_loses_example :
    (w : Table Bump) × (erase bump 4 (1 ∷ []) none three ≡ ok true w)
    × (exists bump 4 (5 ∷ []) w ≡ ok false w)
erase_loses_example =
    erase_loses bump 4 (1 ∷ []) three first_link second_link third_link [] (5 ∷ [])
      (in_slot (1 ∷ []) (slot_zero.0)) (rw (slot_zero.0) refl) refl
      (slot_zero.1 ∙ sym (slot_zero.0)) (omega arith) (omega arith)
