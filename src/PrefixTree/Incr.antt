-- ===== src/PrefixTree/Incr.antt =====
-- PrefixTree::incr, for integers and for doubles.
use sharedstructures.Base.{ℕ, Bool, true, false, ◌==◌, if◌then◌else◌, List, add64}
use sharedstructures.Outcome.{Outcome, ok, fail, and_then, out_of_range}
use sharedstructures.Allocator.{Allocator}
use sharedstructures.PrefixTree.Contents.{
  int, long_int, double, type_for_contents, value_for_contents, int_value_for_contents, fits_inline,
  contents_of_int,
}
use sharedstructures.PrefixTree.Node.{Slot, Tree, read_slot, write_slot, count_item, free_block}
use sharedstructures.PrefixTree.Query.{Doubles}
use sharedstructures.PrefixTree.Update.{find_or_create, store_buffer, write_word}

abbrev pub four_as_double : ℕ
four_as_double = 0x4010000000000000

module _ (A : Allocator) where
  is_long_int : ℕ → Bool
  unfolding type_for_contents
  is_long_int contents = elim (type_for_contents contents) [ long_int ↦ true | _ ↦ false ]

  -- The sum becomes the slot's, and a buffer that it needs no longer is freed.
  store_inline_sum : ℕ → ℕ → Slot → Tree A.State → Tree A.State
  unfolding write_slot contents_of_int is_long_int value_for_contents
  store_inline_sum value contents slot t =
      let t₁ = write_slot slot (contents_of_int value) t in
      if is_long_int contents then free_block A (value_for_contents contents) t₁ else t₁

  pub store_sum : ℕ → ℕ → Slot → Tree A.State → Outcome (Tree A.State) (Unit {0})
  unfolding fits_inline store_inline_sum is_long_int value_for_contents
  store_sum value contents slot t =
      if fits_inline value
      then ok tt (store_inline_sum value contents slot t)
      else if is_long_int contents
      then ok tt (write_word (value_for_contents contents) value t)
      else store_buffer A 8 3 (λ r. write_word r value) slot t

  -- The value that is there, in the state in which a new item is counted.
  pub existing_int : ℕ → Tree A.State → Outcome (Tree A.State) ℕ
  unfolding type_for_contents value_for_contents int_value_for_contents
  existing_int contents t = elim (type_for_contents contents) [
    | int ↦ ok (int_value_for_contents contents) t
    | long_int ↦ ok (t.words (value_for_contents contents)) t
    | _ ↦ if contents == 0 then ok 0 (count_item t) else fail out_of_range t
  ]

  incr_slot : ℕ → Slot → Tree A.State → Outcome (Tree A.State) ℕ
  unfolding read_slot existing_int store_sum
  incr_slot delta slot t =
      let contents = read_slot slot t in
      and_then (existing_int contents t) λ v t₁.
        let value = add64 v delta in and_then (store_sum value contents slot t₁) λ _ t₂. ok value t₂

  pub incr : List ℕ → ℕ → Tree A.State → Outcome (Tree A.State) ℕ
  unfolding incr_slot
  incr k delta = find_or_create A k (incr_slot delta)

  -- A double that stands in a slot of type double, whose buffer is at `offset`, or absent.
  store_double_sum : Doubles → ℕ → ℕ → Slot → Tree A.State → Outcome (Tree A.State) (Unit {0})
  unfolding write_slot
  store_double_sum D value offset slot t =
      if D.equal value 0
      then ok tt
          (if offset == 0 then write_slot slot 4 t else free_block A offset (write_slot slot 4 t))
      else if offset == 0
      then store_buffer A 8 4 (λ r. write_word r value) slot t
      else ok tt (write_word offset value t)

  incr_double_value : Doubles → ℕ → ℕ → Slot → Tree A.State → Outcome (Tree A.State) ℕ
  unfolding store_double_sum
  incr_double_value D delta offset slot t =
      let value = D.add (if offset == 0 then 0 else t.words offset) delta in
      and_then (store_double_sum D value offset slot t) λ _ t'. ok value t'

  -- The slot is written as a double here, so that it holds the bits of 4.0.
  unfoldable pub create_double : Doubles → ℕ → Slot → Tree A.State → Outcome (Tree A.State) ℕ
  unfolding write_slot
  create_double D delta slot t =
      and_then
        (if D.equal delta 0
          then ok tt (write_slot slot four_as_double t)
          else store_buffer A 8 4 (λ r. write_word r delta) slot t)
        λ _ t'. ok delta (count_item t')

  unfoldable pub incr_double_contents :
      Doubles → ℕ → ℕ → Slot → Tree A.State → Outcome (Tree A.State) ℕ
  unfolding type_for_contents value_for_contents incr_double_value create_double
  incr_double_contents D delta contents slot t = elim (type_for_contents contents) [
    | double ↦ incr_double_value D delta (value_for_contents contents) slot t
    | _ ↦ if contents == 0 then create_double D delta slot t else fail out_of_range t
  ]

  unfoldable pub incr_double_slot : Doubles → ℕ → Slot → Tree A.State → Outcome (Tree A.State) ℕ
  unfolding read_slot incr_double_contents
  incr_double_slot D delta slot t = incr_double_contents D delta (read_slot slot t) slot t

  pub incr_double : Doubles → List ℕ → ℕ → Tree A.State → Outcome (Tree A.State) ℕ
  unfolding incr_double_slot
  incr_double D k delta = find_or_create A k (incr_double_slot D delta)
