-- ===== src/HashTable/Walk.antt =====
-- walk_indirect_list, walk_tables and the lookups. `fuel` is the number of rounds that a walk along a
-- chain has.
use sharedstructures.Base.{
  ℕ, zero, suc, ◌+◌, Bool, ◌&&◌, not, ◌==◌, if◌then◌else◌, List, [], ◌∷◌, length, Option, none,
  some,
}
use mathlib.Core.Option
use sharedstructures.Outcome.{Outcome, ok, fail, out_of_range, out_of_fuel}
use sharedstructures.Allocator.{Allocator}
use sharedstructures.HashTable.Memory.{
  Slot, Table, slot_of, is_direct, untagged, key_matches, read_bytes, same_bytes, value_size,
}

module _ {S : Type 0} (k : List ℕ) (t : Table S) where
  -- The node in front of the one with the key, and this one; 0 for none.
  unfoldable pub walk_from : (fuel prev offset : ℕ) → Option (ℕ × ℕ)
  walk_from zero prev offset = none
  walk_from (suc fuel) prev offset =
      let v = t.indirects offset in
      let rest = walk_from fuel offset v.next in
      if offset == 0
      then some (prev, 0)
      else if key_matches t.bytes v.key_offset v.key_size k
      then some (prev, offset)
      else rest

  unfoldable pub walk_indirect_list : (fuel offset : ℕ) → Option (ℕ × ℕ)
  unfolding walk_from
  walk_indirect_list fuel offset = walk_from fuel 0 offset

module _ (A : Allocator) where
  abbrev pub value_of : (key_offset key_size : ℕ) → Table A.State → ℕ × ℕ
  value_of key_offset key_size t = (key_offset + key_size, value_size A key_offset key_size t)

  abbrev pub value_of_indirect : Table A.State → Option (ℕ × ℕ) → Option (ℕ × ℕ)
  value_of_indirect t none = none
  value_of_indirect t (some (prev, found)) = some (
      if found == 0
      then (0, 0)
      else value_of (t.indirects found).key_offset (t.indirects found).key_size t)

  -- The offset and the size of the value; `none` where the fuel is spent.
  unfoldable pub walk_slot : (fuel : ℕ) → List ℕ → Slot → Table A.State → Option (ℕ × ℕ)
  unfolding walk_indirect_list
  walk_slot fuel k s t =
      if s.key_offset == 0
      then some (0, 0)
      else if is_direct s.key_offset
      then if key_matches t.bytes s.key_offset s.key_size k
        then some (value_of s.key_offset s.key_size t)
        else some (0, 0)
      else value_of_indirect t (walk_indirect_list k t fuel (untagged s.key_offset))

  unfoldable pub walk_tables : (fuel : ℕ) → List ℕ → Table A.State → Option (ℕ × ℕ)
  unfolding walk_slot
  walk_tables fuel k t = walk_slot fuel k (t.slots (slot_of k t)) t

  abbrev pub exists_outcome : Table A.State → Option (ℕ × ℕ) → Outcome (Table A.State) Bool
  exists_outcome t none = fail out_of_fuel t
  exists_outcome t (some (offset, size)) = ok (not (offset == 0)) t

  unfoldable pub exists : (fuel : ℕ) → List ℕ → Table A.State → Outcome (Table A.State) Bool
  unfolding walk_tables
  exists fuel k t = exists_outcome t (walk_tables fuel k t)

  abbrev pub at_outcome : Table A.State → Option (ℕ × ℕ) → Outcome (Table A.State) (List ℕ)
  at_outcome t none = fail out_of_fuel t
  at_outcome t (some (offset, size)) =
      if offset == 0 then fail out_of_range t else ok (read_bytes t.bytes size offset) t

  unfoldable pub at : (fuel : ℕ) → List ℕ → Table A.State → Outcome (Table A.State) (List ℕ)
  unfolding walk_tables
  at fuel k t = at_outcome t (walk_tables fuel k t)

  abbrev pub pair_at : (key_offset key_size : ℕ) → Table A.State → List ℕ × List ℕ
  pair_at key_offset key_size t = (
    read_bytes t.bytes key_size key_offset,
    read_bytes t.bytes (value_size A key_offset key_size t) (key_offset + key_size),
  )

  -- The nodes of a chain, one after the other.
  unfoldable pub chain_contents :
      (fuel offset : ℕ) → Table A.State → Option (List (List ℕ × List ℕ))
  chain_contents zero offset t = none
  chain_contents (suc fuel) offset t =
      let v = t.indirects offset in
      let rest = chain_contents fuel v.next t in
      if offset == 0
      then some []
      else Option.map (λ ps. pair_at v.key_offset v.key_size t ∷ ps) rest

  unfoldable pub get_slot_contents :
      (fuel index : ℕ) → Table A.State → Option (List (List ℕ × List ℕ))
  unfolding chain_contents
  get_slot_contents fuel index t =
      let s = t.slots index in
      if s.key_offset == 0
      then some []
      else if is_direct s.key_offset
      then some (pair_at s.key_offset s.key_size t ∷ [])
      else chain_contents fuel (untagged s.key_offset) t

-- A condition for a write: a key, and the value that it must have, or that it must be missing.
pub record CheckRequest : Type 0 where
  pub key : List ℕ
  pub value : Option (List ℕ)

abbrev pub check_value : (bytes : ℕ → ℕ) → Option (List ℕ) → ℕ × ℕ → Bool
check_value bytes none (offset, size) = offset == 0
check_value bytes (some v) (offset, size) =
    not (offset == 0) && (length v == size) && same_bytes bytes offset v

unfoldable pub execute_check :
    (A : Allocator) (fuel : ℕ) → CheckRequest → Table A.State → Option Bool
unfolding walk_tables
execute_check A fuel c t = Option.map (check_value t.bytes c.value) (walk_tables A fuel c.key t)
