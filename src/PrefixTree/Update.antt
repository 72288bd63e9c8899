-- ===== src/PrefixTree/Update.antt =====
-- The inserts of PrefixTree.cc: with a check before, the traversal that creates the slot, and one way
-- of storing for each kind of value.
use sharedstructures.Base.{
  ℕ, ◌+◌, ◌-◌, ◌*◌, Bool, true, false, not, ◌==◌, if◌then◌else◌, List, [], ◌∷◌, ◌++◌, Option, none,
  some, length, ltb,
}
use sharedstructures.Outcome.{Outcome, ok, fail, and_then, out_of_fuel}
use sharedstructures.Allocator.{Allocator}
use sharedstructures.PrefixTree.Contents.{
  long_int, double, type_for_contents, value_for_contents, contents_of_offset, fits_inline,
  contents_of_int, contents_of_bool, contents_of_null, contents_of_short_string, pack_bytes,
}
use sharedstructures.PrefixTree.Node.{
  Slot, Tree, read_slot, write_slot, update, count_item, allocate_block,
}
use sharedstructures.PrefixTree.Traverse.{Traversal, traverse}
use sharedstructures.PrefixTree.Query.{Doubles, CheckRequest, execute_check}
use sharedstructures.PrefixTree.Clear.{clear_value_slot, depth_of}
use Prim.Native.Nat.{bit_or}

module _ {S : Type 0} where
  abbrev pub write_word : ℕ → ℕ → Tree S → Tree S
  write_word off v t = record t { words = update t.words off v }

  abbrev pub write_bytes : ℕ → List ℕ → Tree S → Tree S
  write_bytes off v t = record t { bytes = update t.bytes off v }

  -- The copies of the parts, each behind the one before.
  unfoldable pub write_parts : ℕ → List ℕ → List (List ℕ) → Tree S → Tree S
  write_parts off written [] t = write_bytes off written t
  write_parts off written (p ∷ ps) t = write_parts off (written ++ p) ps t

unfoldable pub total_length : List (List ℕ) → ℕ
total_length [] = 0
total_length (p ∷ ps) = length p + total_length ps

-- The bytes of the parts with the one shift that runs through all of them.
unfoldable pub pack_parts : ℕ → ℕ → List (List ℕ) → ℕ
unfolding pack_bytes
pack_parts shift value [] = value
pack_parts shift value (p ∷ ps) = pack_parts (shift - length p * 8) (pack_bytes shift value p) ps

module _ (A : Allocator) where
  abbrev Storing : Type 0
  Storing = Slot → Tree A.State → Outcome (Tree A.State) (Unit {0})

  -- A traversal that creates always finds a slot.
  abbrev with_slot :
      {R : Type 0}
      → (Slot → Tree A.State → Outcome (Tree A.State) R)
      → Traversal
      → Tree A.State
      → Outcome (Tree A.State) R
  with_slot f r t = elim r.value_slot_offset [ none ↦ fail out_of_fuel t | some slot ↦ f slot t ]

  pub find_or_create :
      {R : Type 0}
      → List ℕ
      → (Slot → Tree A.State → Outcome (Tree A.State) R)
      → Tree A.State
      → Outcome (Tree A.State) R
  find_or_create k f t = and_then (traverse A k true true t) (with_slot f)

  abbrev pub checked :
      Doubles
      → Option CheckRequest
      → (Tree A.State → Outcome (Tree A.State) Bool)
      → Tree A.State
      → Outcome (Tree A.State) Bool
  checked D none f t = f t
  checked D (some check) f t =
      and_then (execute_check A D check t) λ passes t'. if passes then f t' else ok false t'

  -- Clears the slot, stores the value in it and counts the item.
  pub replace_value : Storing → Slot → Tree A.State → Outcome (Tree A.State) Bool
  replace_value store slot t =
      and_then (clear_value_slot A (depth_of t) slot t)
        λ _ t₁. and_then (store slot t₁) λ _ t₂. ok true (count_item t₂)

  pub insert_by :
      Doubles → Storing → List ℕ → Option CheckRequest → Tree A.State → Outcome (Tree A.State) Bool
  unfolding find_or_create replace_value
  insert_by D store k check t = checked D check (find_or_create k (replace_value store)) t

  -- A new buffer of `size` bytes, filled by `fill`, and its offset with the type in the slot.
  unfoldable pub store_buffer : ℕ → ℕ → (ℕ → Tree A.State → Tree A.State) → Storing
  unfolding write_slot contents_of_offset
  store_buffer size tag fill slot t =
      and_then (allocate_block A size t)
        λ r t₁. ok tt (write_slot slot (contents_of_offset r tag) (fill r t₁))

  unfoldable pub store_string : List ℕ → Storing
  unfolding write_slot contents_of_short_string store_buffer
  store_string v slot t =
      if length v == 0
      then ok tt (write_slot slot 1 t)
      else if ltb (length v) 8
      then ok tt (write_slot slot (contents_of_short_string v) t)
      else store_buffer (length v) 1 (λ r. write_bytes r v) slot t

  unfoldable pub store_parts : List (List ℕ) → Storing
  unfolding write_slot total_length pack_parts store_buffer write_parts
  store_parts ps slot t =
      if total_length ps == 0
      then ok tt (write_slot slot 1 t)
      else if ltb (total_length ps) 8
      then ok tt (write_slot slot (pack_parts 56 (bit_or (total_length ps * 8) 6) ps) t)
      else store_buffer (total_length ps) 1 (λ r. write_parts r [] ps) slot t

  unfoldable pub store_int : ℕ → Storing
  unfolding write_slot fits_inline contents_of_int store_buffer
  store_int v slot t =
      if fits_inline v
      then ok tt (write_slot slot (contents_of_int v) t)
      else store_buffer 8 3 (λ r. write_word r v) slot t

  store_bool : Bool → Storing
  unfolding write_slot contents_of_bool
  store_bool b slot t = ok tt (write_slot slot (contents_of_bool b) t)

  store_null : Storing
  unfolding write_slot contents_of_null
  store_null slot t = ok tt (write_slot slot contents_of_null t)

  -- Reuses the buffer of an integer or of a double that is not zero.
  reuse_buffer : ℕ → ℕ → Slot → Tree A.State → Tree A.State
  unfolding write_slot type_for_contents value_for_contents contents_of_offset
  reuse_buffer v contents slot t =
      let t₁ = write_word (value_for_contents contents) v t in
      elim (type_for_contents contents) [
        | long_int ↦ write_slot slot (contents_of_offset (value_for_contents contents) 4) t₁
        | _ ↦ t₁
      ]

  has_buffer : ℕ → Bool
  unfolding type_for_contents
  has_buffer contents = elim (type_for_contents contents) [
    | double ↦ not (contents == 4)
    | long_int ↦ not (contents == 4)
    | _ ↦ false
  ]

  -- The buffer is allocated before the slot is cleared.
  replace_by_double : ℕ → Slot → Tree A.State → Outcome (Tree A.State) Bool
  unfolding write_slot contents_of_offset
  replace_by_double v slot t = and_then (allocate_block A 8 t) λ r t₁.
      let t₂ = write_word r v t₁ in
      and_then (clear_value_slot A (depth_of t₂) slot t₂)
        λ _ t₃. ok true (count_item (write_slot slot (contents_of_offset r 4) t₃))

  pub store_double : Doubles → ℕ → Slot → Tree A.State → Outcome (Tree A.State) Bool
  unfolding read_slot write_slot replace_value has_buffer reuse_buffer replace_by_double
  store_double D v slot t =
      let contents = read_slot slot t in
      if D.equal v 0
      then replace_value (λ slot t. ok tt (write_slot slot 4 t)) slot t
      else if has_buffer contents
      then ok true (reuse_buffer v contents slot t)
      else replace_by_double v slot t

  module _ (D : Doubles) where
    unfoldable pub insert_string :
        List ℕ → List ℕ → Option CheckRequest → Tree A.State → Outcome (Tree A.State) Bool
    unfolding insert_by store_string
    insert_string k v = insert_by D (store_string v) k

    unfoldable pub insert_parts :
        List ℕ → List (List ℕ) → Option CheckRequest → Tree A.State → Outcome (Tree A.State) Bool
    unfolding insert_by store_parts
    insert_parts k ps = insert_by D (store_parts ps) k

    pub insert_int : List ℕ → ℕ → Option CheckRequest → Tree A.State → Outcome (Tree A.State) Bool
    unfolding insert_by store_int
    insert_int k v = insert_by D (store_int v) k

    pub insert_bool :
        List ℕ → Bool → Option CheckRequest → Tree A.State → Outcome (Tree A.State) Bool
    unfolding insert_by store_bool
    insert_bool k b = insert_by D (store_bool b) k

    pub insert_null : List ℕ → Option CheckRequest → Tree A.State → Outcome (Tree A.State) Bool
    unfolding insert_by store_null
    insert_null = insert_by D store_null

    pub insert_double :
        List ℕ → ℕ → Option CheckRequest → Tree A.State → Outcome (Tree A.State) Bool
    unfolding find_or_create store_double
    insert_double k v check t = checked D check (find_or_create k (store_double D v)) t
