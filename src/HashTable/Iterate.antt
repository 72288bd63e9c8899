-- ===== src/HashTable/Iterate.antt =====
-- HashTableIterator.
use sharedstructures.Base.{
  ℕ, zero, suc, ◌+◌, ◌^◌, ltb, leb, if◌then◌else◌, List, [], length, Option, none, some,
}
use sharedstructures.Outcome.{Outcome, ok, fail, invalid_argument, out_of_fuel}
use sharedstructures.Allocator.{Allocator}
use sharedstructures.HashTable.Memory.{Table}
use sharedstructures.HashTable.Walk.{get_slot_contents}

pub record Iterator : Type 0 where
  pub slot_index : ℕ
  pub result_index : ℕ
  pub slot_contents : List (List ℕ × List ℕ)

module _ (A : Allocator) where
  -- The contents of the next slot, or none behind the last one.
  abbrev contents_behind : (fuel index : ℕ) → Table A.State → Option (List (List ℕ × List ℕ))
  contents_behind fuel index t =
      if ltb index (2 ^ t.bits) then get_slot_contents A fuel index t else some []

  abbrev next_round :
      (Iterator → Table A.State → Option Iterator)
      → (index : ℕ) → Table A.State
      → Option (List (List ℕ × List ℕ))
      → Option Iterator
  next_round rest index t none = none
  next_round rest index t (some c) =
      let it : Iterator = record { slot_index = index; result_index = 0; slot_contents = c } in
      if ltb index (2 ^ t.bits) then rest it t else some it

  -- The loop has `rounds`, one for each slot and one more.
  unfoldable pub advance_to_nonempty_slot :
      (fuel rounds : ℕ) → Iterator → Table A.State → Option Iterator
  unfolding get_slot_contents
  advance_to_nonempty_slot fuel zero it t = none
  advance_to_nonempty_slot fuel (suc n) it t =
      let rest =
        next_round (advance_to_nonempty_slot fuel n) (it.slot_index + 1) t
          (contents_behind fuel (it.slot_index + 1) t) in
      if ltb it.result_index (length it.slot_contents) then some it else rest

  abbrev pub rounds : Table A.State → ℕ
  rounds t = 2 ^ t.bits + 1

  abbrev pub advance : (fuel : ℕ) → Iterator → Table A.State → Option Iterator
  unfolding advance_to_nonempty_slot
  advance fuel it t = advance_to_nonempty_slot fuel (rounds t) it t

  -- The constructor.
  abbrev positioned :
      (fuel index : ℕ) → Table A.State → Option (List (List ℕ × List ℕ)) → Option Iterator
  unfolding advance
  positioned fuel index t none = none
  positioned fuel index t (some c) =
      advance fuel (record { slot_index = index; result_index = 0; slot_contents = c }) t

  unfoldable pub iterator_at : (fuel index : ℕ) → Table A.State → Option Iterator
  unfolding positioned get_slot_contents
  iterator_at fuel index t =
      if ltb index (2 ^ t.bits)
      then positioned fuel index t (get_slot_contents A fuel index t)
      else some (record { slot_index = index; result_index = 0; slot_contents = [] })

  unfoldable pub begin : (fuel : ℕ) → Table A.State → Option Iterator
  unfolding iterator_at
  begin fuel t = iterator_at fuel 0 t

  unfoldable pub end_of : (fuel : ℕ) → Table A.State → Option Iterator
  unfolding iterator_at
  end_of fuel t = iterator_at fuel (2 ^ t.bits) t

  abbrev increment_outcome : Table A.State → Option Iterator → Outcome (Table A.State) Iterator
  increment_outcome t none = fail out_of_fuel t
  increment_outcome t (some it) = ok it t

  -- operator++
  unfoldable pub increment :
      (fuel : ℕ) → Iterator → Table A.State → Outcome (Table A.State) Iterator
  unfolding advance
  increment fuel it t =
      let next =
        if ltb it.result_index (length it.slot_contents)
        then record it { result_index = it.result_index + 1 }
        else it in
      if leb (2 ^ t.bits) it.slot_index
      then fail invalid_argument t
      else increment_outcome t (advance fuel next t)
