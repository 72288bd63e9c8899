-- ===== src/HashTable/Update.antt =====
-- create_hash_base, insert, erase and clear.
use sharedstructures.Base.{
  ℕ, zero, suc, ◌+◌, ◌*◌, ◌^◌, Bool, true, false, ◌&&◌, not, ◌==◌, ltb, if◌then◌else◌, List, length,
  Option, none, some,
}
use sharedstructures.Outcome.{Outcome, ok, fail, and_then, invalid_argument, out_of_fuel}
use sharedstructures.Allocator.{Allocator}
use sharedstructures.HashTable.Memory.{
  Slot, Table, slot_of, empty_slot, is_direct, untagged, tagged_link, key_matches, set_slot,
  set_indirect, set_next, put_bytes, count_item, uncount_item, allocate_block, free_block,
}
use sharedstructures.HashTable.Walk.{walk_indirect_list, CheckRequest, execute_check}

-- `none` where the fuel of a walk is spent.
abbrev pub with_fuel : {S A B : Type 0} → Option A → (A → S → Outcome S B) → S → Outcome S B
with_fuel none k t = fail out_of_fuel t
with_fuel (some a) k t = k a t

-- sizeof(HashTableBase), sizeof(Slot) and sizeof(IndirectValue)
abbrev sizeof_base : ℕ
sizeof_base = 24

abbrev sizeof_slot : ℕ
sizeof_slot = 16

abbrev pub sizeof_indirect : ℕ
sizeof_indirect = 24

module _ (A : Allocator) where
  -- The slots from `x` on, `count` of them.
  unfoldable pub empty_slots : (count x : ℕ) → Table A.State → Table A.State
  empty_slots zero x t = t
  empty_slots (suc n) x t = empty_slots n (x + 1) (set_slot x empty_slot t)

  unfoldable pub create_hash_base : (bits : ℕ) → Table A.State → Outcome (Table A.State) ℕ
  unfolding empty_slots allocate_block
  create_hash_base bits t =
      if ltb bits 2
      then fail invalid_argument t
      else and_then (allocate_block A sizeof_base t) λ base t₁.
        and_then (allocate_block A (sizeof_slot * 2 ^ bits) t₁)
          λ slots t₂. ok base (empty_slots (2 ^ bits) 0 (record t₂ { bits = bits; item_count = 0 }))

  abbrev pub checked :
      (fuel : ℕ)
      → Option CheckRequest
      → (Table A.State → Outcome (Table A.State) Bool)
      → Table A.State
      → Outcome (Table A.State) Bool
  checked fuel none write t = write t
  checked fuel (some c) write t =
      with_fuel (execute_check A fuel c t) (λ holds t. if holds then write t else ok false t) t

  -- A slot with a key and a value becomes a chain of these and of the pair given.
  unfoldable pub split_slot : (i pair key_size : ℕ) → Table A.State → Outcome (Table A.State) Bool
  unfolding allocate_block
  split_slot i pair key_size t = and_then (allocate_block A sizeof_indirect t) λ existing t₁.
      and_then (allocate_block A sizeof_indirect t₁) λ created t₂.
        let s = t₂.slots i in
        let t₃ =
          set_indirect created (record { next = 0; key_offset = pair; key_size = key_size }) t₂ in
        let t₄ =
          set_indirect existing
            (record { next = created; key_offset = s.key_offset; key_size = s.key_size }) t₃ in
        ok true
          (count_item (set_slot i (record { key_offset = tagged_link existing; key_size = 0 }) t₄))

  unfoldable pub replace_in_chain : (found pair key_size : ℕ) → Table A.State → Table A.State
  replace_in_chain found pair key_size t =
      let t₁ = free_block A (t.indirects found).key_offset t in
      set_indirect found (record (t₁.indirects found) { key_offset = pair; key_size = key_size }) t₁

  unfoldable pub append_to_chain :
      (prev pair key_size : ℕ) → Table A.State → Outcome (Table A.State) Bool
  unfolding allocate_block
  append_to_chain prev pair key_size t = and_then (allocate_block A sizeof_indirect t) λ created t₁.
      ok true (
        count_item (
          set_indirect created (record { next = 0; key_offset = pair; key_size = key_size })
            (set_next prev created t₁)))

  unfoldable pub insert_in_chain :
      (pair key_size : ℕ) → ℕ × ℕ → Table A.State → Outcome (Table A.State) Bool
  unfolding replace_in_chain append_to_chain
  insert_in_chain pair key_size (prev, found) t =
      if found == 0
      then append_to_chain prev pair key_size t
      else ok true (replace_in_chain found pair key_size t)

  -- The pair, which stands in its block already, is put in the slot of its key.
  unfoldable pub link_pair :
      (fuel : ℕ) → List ℕ → (pair : ℕ) → Table A.State → Outcome (Table A.State) Bool
  unfolding split_slot insert_in_chain
  link_pair fuel k pair t =
      let i = slot_of k t in
      let s = t.slots i in
      let direct : Slot = record { key_offset = pair; key_size = length k } in
      if s.key_offset == 0
      then ok true (count_item (set_slot i direct t))
      else if is_direct s.key_offset
      then if key_matches t.bytes s.key_offset s.key_size k
        then ok true (set_slot i direct (free_block A s.key_offset t))
        else split_slot i pair (length k) t
      else with_fuel (walk_indirect_list k t fuel (untagged s.key_offset))
          (insert_in_chain pair (length k)) t

  unfoldable pub insert_pair :
      (fuel : ℕ) → (k v : List ℕ) → Table A.State → Outcome (Table A.State) Bool
  unfolding allocate_block link_pair
  insert_pair fuel k v t =
      and_then (allocate_block A (length k + length v) t)
        λ pair t₁. link_pair fuel k pair (put_bytes (pair + length k) v (put_bytes pair k t₁))

  unfoldable pub insert :
      (fuel : ℕ)
      → (k v : List ℕ) → Option CheckRequest
      → Table A.State
      → Outcome (Table A.State) Bool
  unfolding insert_pair
  insert fuel k v check t = checked fuel check (insert_pair fuel k v) t

  -- The slot's link to the node is taken over by the node in front of it or the slot.
  unfoldable pub unlink_node : (i prev found : ℕ) → Table A.State → Table A.State
  unlink_node i prev found t =
      let next = (t.indirects found).next in
      if prev == 0
      then set_slot i (record (t.slots i) { key_offset = next }) t
      else set_next prev next t

  -- A chain of one node becomes a direct value.
  unfoldable pub collapse : (i : ℕ) → Table A.State → Table A.State
  collapse i t =
      let offset = (t.slots i).key_offset in
      let v = t.indirects offset in
      if not (offset == 0) && (v.next == 0)
      then free_block A offset
          (set_slot i (record { key_offset = v.key_offset; key_size = v.key_size }) t)
      else t

  -- The pair's block is freed unless its offset is 0.
  unfoldable pub free_pair : (key_offset : ℕ) → Table A.State → Table A.State
  free_pair key_offset t = if key_offset == 0 then t else free_block A key_offset t

  unfoldable pub erase_in_chain : (i : ℕ) → ℕ × ℕ → Table A.State → Outcome (Table A.State) Bool
  unfolding unlink_node collapse free_pair
  erase_in_chain i (prev, found) t =
      let key_offset = (t.indirects found).key_offset in
      if found == 0
      then ok false t
      else ok (not (key_offset == 0)) (
          uncount_item
            (collapse i (free_block A found (free_pair key_offset (unlink_node i prev found t)))))

  unfoldable pub erase_key : (fuel : ℕ) → List ℕ → Table A.State → Outcome (Table A.State) Bool
  unfolding erase_in_chain
  erase_key fuel k t =
      let i = slot_of k t in
      let s = t.slots i in
      if s.key_offset == 0
      then ok false t
      else if is_direct s.key_offset
      then if key_matches t.bytes s.key_offset s.key_size k
        then ok true (uncount_item (set_slot i empty_slot (free_block A s.key_offset t)))
        else ok false t
      else with_fuel (walk_indirect_list k t fuel (untagged s.key_offset)) (erase_in_chain i) t

  unfoldable pub erase :
      (fuel : ℕ) → List ℕ → Option CheckRequest → Table A.State → Outcome (Table A.State) Bool
  unfolding erase_key
  erase fuel k check t = checked fuel check (erase_key fuel k) t

  -- Deletes a chain; `none` where the fuel is spent.
  unfoldable pub free_chain : (fuel offset : ℕ) → Table A.State → Option (Table A.State)
  free_chain zero offset t = none
  free_chain (suc fuel) offset t =
      let v = t.indirects offset in
      let rest = free_chain fuel v.next (free_block A offset (free_block A v.key_offset t)) in
      if offset == 0 then some t else rest

  unfoldable pub free_contents : (fuel : ℕ) → Slot → Table A.State → Option (Table A.State)
  unfolding free_chain
  free_contents fuel s t =
      if is_direct s.key_offset
      then some (free_block A s.key_offset t)
      else free_chain fuel (untagged s.key_offset) t

  abbrev pub clear_slot_with : (i : ℕ) → Option (Table A.State) → Option (Table A.State)
  clear_slot_with i none = none
  clear_slot_with i (some t) = some (set_slot i empty_slot t)

  unfoldable pub clear_slot : (fuel i : ℕ) → Table A.State → Option (Table A.State)
  unfolding free_contents
  clear_slot fuel i t =
      let s = t.slots i in
      if s.key_offset == 0 then some t else clear_slot_with i (free_contents fuel s t)

  abbrev pub next_slots :
      (Table A.State → Option (Table A.State)) → Option (Table A.State) → Option (Table A.State)
  next_slots rest none = none
  next_slots rest (some u) = rest u

  -- The slots from `i` on, `count` of them.
  unfoldable pub clear_slots : (fuel count i : ℕ) → Table A.State → Option (Table A.State)
  unfolding clear_slot
  clear_slots fuel zero i t = some t
  clear_slots fuel (suc n) i t = next_slots (clear_slots fuel n (i + 1)) (clear_slot fuel i t)

  abbrev clear_outcome : Table A.State → Option (Table A.State) → Outcome (Table A.State) (Unit {0})
  clear_outcome t none = fail out_of_fuel t
  clear_outcome t (some u) = ok tt (record u { item_count = 0 })

  unfoldable pub clear : (fuel : ℕ) → Table A.State → Outcome (Table A.State) (Unit {0})
  unfolding clear_slots
  clear fuel t = clear_outcome t (clear_slots fuel (2 ^ t.bits) 0 t)
