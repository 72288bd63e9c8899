-- ===== src/HashTable/Incr.antt =====
-- incr for integers and for doubles, and the values that they change in place.
use sharedstructures.Base.{
  ℕ, zero, suc, ◌+◌, ◌-◌, ◌*◌, ◌/◌, ◌%◌, ◌^◌, ◌==◌, ltb, if◌then◌else◌, List, [], ◌∷◌, length,
  word_mod,
}
use sharedstructures.Outcome.{Outcome, ok, fail, and_then, out_of_range}
use sharedstructures.Allocator.{Allocator}
use sharedstructures.HashTable.Memory.{
  Table, slot_of, is_direct, untagged, tagged_link, key_matches, read_bytes, set_slot, set_indirect,
  set_next, put_bytes, count_item, allocate_block, value_size,
}
use sharedstructures.HashTable.Walk.{walk_indirect_list}
use sharedstructures.HashTable.Update.{with_fuel, sizeof_indirect}

-- A number of `count` bytes, the lowest byte first.
unfoldable pub bytes_of_number : (count value : ℕ) → List ℕ
bytes_of_number zero v = []
bytes_of_number (suc n) v = (v % 256) ∷ bytes_of_number n (v / 256)

unfoldable pub number_of_bytes : List ℕ → ℕ
number_of_bytes [] = 0
number_of_bytes (b ∷ bs) = b + 256 * number_of_bytes bs

-- An integer of `count` bytes as an int64_t, both by their bits.
abbrev pub sign_extend : (count value : ℕ) → ℕ
sign_extend count v = if ltb v (2 ^ (8 * count - 1)) then v else v + (word_mod - 2 ^ (8 * count))

-- Arithmetic on floats and doubles by their bits: `f += d` on a float, its conversion to a double,
-- and the sum of two doubles.
pub record Floats : Type 0 where
  pub add_to_float : (float double : ℕ) → ℕ
  pub float_to_double : ℕ → ℕ
  pub add : ℕ → ℕ → ℕ

module _ (A : Allocator) where
  -- `*p->at<intN_t>(v_offset) += delta`, and the value that is returned then.
  unfoldable pub add_integer :
      (delta v_offset v_size : ℕ) → Table A.State → Outcome (Table A.State) ℕ
  unfolding bytes_of_number number_of_bytes
  add_integer delta v_offset v_size t =
      let sum = (number_of_bytes (read_bytes t.bytes v_size v_offset) + delta) % 2 ^ (8 * v_size) in
      ok (sign_extend v_size sum) (put_bytes v_offset (bytes_of_number v_size sum) t)

  unfoldable pub incr_integer_value :
      (delta v_offset v_size : ℕ) → Table A.State → Outcome (Table A.State) ℕ
  unfolding add_integer
  incr_integer_value delta v_offset v_size t =
      if v_size == 1
      then add_integer delta v_offset 1 t
      else if v_size == 2
      then add_integer delta v_offset 2 t
      else if v_size == 4
      then add_integer delta v_offset 4 t
      else if v_size == 8
      then add_integer delta v_offset 8 t
      else fail out_of_range t

  unfoldable pub incr_double_value :
      Floats → (delta v_offset v_size : ℕ) → Table A.State → Outcome (Table A.State) ℕ
  unfolding bytes_of_number number_of_bytes
  incr_double_value F delta v_offset v_size t =
      let v = number_of_bytes (read_bytes t.bytes v_size v_offset) in
      let float = F.add_to_float v delta in
      let double = F.add v delta in
      if v_size == 4
      then ok (F.float_to_double float) (put_bytes v_offset (bytes_of_number 4 float) t)
      else if v_size == 8
      then ok double (put_bytes v_offset (bytes_of_number 8 double) t)
      else fail out_of_range t

  -- Both functions, for the value `delta`, which is eight bytes and the result where the key is
  -- missing; `change` is what the function does at the value of a key.
  module _ (delta : ℕ) (change : ℕ → ℕ → Table A.State → Outcome (Table A.State) ℕ) where
    -- The memcpy of the key and of the value behind it.
    abbrev put_number : (pair : ℕ) → List ℕ → Table A.State → Table A.State
    unfolding bytes_of_number
    put_number pair k t = put_bytes (pair + length k) (bytes_of_number 8 delta) (put_bytes pair k t)

    unfoldable pub incr_empty : (i : ℕ) → List ℕ → Table A.State → Outcome (Table A.State) ℕ
    unfolding allocate_block put_number
    incr_empty i k t = and_then (allocate_block A (length k + 8) t) λ pair t₁. ok delta (
        count_item
          (set_slot i (record { key_offset = pair; key_size = length k }) (put_number pair k t₁)))

    -- The node is in order only behind the allocation.
    unfoldable pub fill_node : (node : ℕ) → List ℕ → Table A.State → Outcome (Table A.State) ℕ
    unfolding allocate_block put_number
    fill_node node k t =
        let t₁ = set_next node 0 t in
        and_then (allocate_block A (length k + 8) t₁) λ pair t₂. ok pair (
          set_indirect node (record (t₂.indirects node) { key_offset = pair; key_size = length k })
            (put_number pair k t₂))

    unfoldable pub incr_split : (i : ℕ) → List ℕ → Table A.State → Outcome (Table A.State) ℕ
    unfolding allocate_block fill_node
    incr_split i k t = and_then (allocate_block A sizeof_indirect t) λ existing t₁.
        and_then (allocate_block A sizeof_indirect t₁) λ created t₂.
          and_then (fill_node created k t₂) λ pair t₃.
            let s = t₃.slots i in
            let t₄ =
              set_indirect existing
                (record { next = created; key_offset = s.key_offset; key_size = s.key_size }) t₃ in
            ok delta (
              count_item
                (set_slot i (record { key_offset = tagged_link existing; key_size = 0 }) t₄))

    unfoldable pub incr_append : (prev : ℕ) → List ℕ → Table A.State → Outcome (Table A.State) ℕ
    unfolding allocate_block fill_node
    incr_append prev k t = and_then (allocate_block A sizeof_indirect t) λ created t₁.
        and_then (fill_node created k (set_next prev created t₁))
          λ pair t₂. ok delta (count_item t₂)

    abbrev incr_direct : (key_offset key_size : ℕ) → Table A.State → Outcome (Table A.State) ℕ
    incr_direct key_offset key_size t =
        change (key_offset + key_size) (value_size A key_offset key_size t) t

    -- The offset of the value as the code computes it.
    unfoldable pub incr_found : (found : ℕ) → Table A.State → Outcome (Table A.State) ℕ
    incr_found found t =
        let v = t.indirects found in
        change (v.key_offset + v.key_offset) (value_size A v.key_offset v.key_size t) t

    unfoldable pub incr_in_chain : List ℕ → ℕ × ℕ → Table A.State → Outcome (Table A.State) ℕ
    unfolding incr_found incr_append
    incr_in_chain k (prev, found) t =
        if found == 0 then incr_append prev k t else incr_found found t

    unfoldable pub incr_key : (fuel : ℕ) → List ℕ → Table A.State → Outcome (Table A.State) ℕ
    unfolding incr_empty incr_split incr_in_chain
    incr_key fuel k t =
        let i = slot_of k t in
        let s = t.slots i in
        if s.key_offset == 0
        then incr_empty i k t
        else if is_direct s.key_offset
        then if key_matches t.bytes s.key_offset s.key_size k
          then incr_direct s.key_offset s.key_size t
          else incr_split i k t
        else with_fuel (walk_indirect_list k t fuel (untagged s.key_offset)) (incr_in_chain k) t

  unfoldable pub incr :
      (fuel : ℕ) → List ℕ → (delta : ℕ) → Table A.State → Outcome (Table A.State) ℕ
  unfolding incr_key incr_integer_value
  incr fuel k delta t = incr_key delta (incr_integer_value delta) fuel k t

  unfoldable pub incr_double :
      Floats → (fuel : ℕ) → List ℕ → (delta : ℕ) → Table A.State → Outcome (Table A.State) ℕ
  unfolding incr_key incr_double_value
  incr_double F fuel k delta t = incr_key delta (incr_double_value F delta) fuel k t
