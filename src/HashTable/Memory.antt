-- ===== src/HashTable/Memory.antt =====
-- The structs of the hash table and the memory that they stand in.
use sharedstructures.Base.{
  ℕ, zero, suc, ◌+◌, ◌*◌, ◌/◌, ◌%◌, ◌^◌, ◌≡◌, refl, Bool, true, ◌&&◌, ◌==◌, add64, sub64, word_mod,
  List, [], ◌∷◌, length, Option, none, some, set_at,
}
use Prim.Native.Nat.{bit_or, bit_xor}
use sharedstructures.Outcome.{Outcome, ok, fail, bad_alloc}
use sharedstructures.Allocator.{Allocator}

-- fnv1a64, from the hash so far.
unfoldable pub fnv1a64_from : ℕ → List ℕ → ℕ
fnv1a64_from hash [] = hash
fnv1a64_from hash (b ∷ bs) = fnv1a64_from (bit_xor hash b * 0x00000100000001B3 % word_mod) bs

unfoldable pub fnv1a64 : List ℕ → ℕ
unfolding fnv1a64_from
fnv1a64 bs = fnv1a64_from 0xCBF29CE484222325 bs

-- The published values for the empty text and for "a".
fnv1a64_test : fnv1a64 (97 ∷ []) ≡ 0xAF63DC4C8601EC8C
unfolding fnv1a64 fnv1a64_from
fnv1a64_test = refl

pub record Slot : Type 0 where
  pub key_offset : ℕ
  pub key_size : ℕ

pub record IndirectValue : Type 0 where
  pub next : ℕ
  pub key_offset : ℕ
  pub key_size : ℕ

-- A table in the pool: the allocator, the HashTableBase with its slots by their index, what the pool
-- holds at each offset read as an IndirectValue, and its bytes where key-value pairs stand. The offset
-- of the slots' block, which is never 0, is not kept.
pub record Table (S : Type 0) : Type 0 where
  pub alloc : S
  pub bits : ℕ
  pub item_count : ℕ
  pub slots : ℕ → Slot
  pub indirects : ℕ → IndirectValue
  pub bytes : ℕ → ℕ

-- hash & ((1 << bits) - 1)
abbrev pub slot_index : (hash bits : ℕ) → ℕ
slot_index hash bits = hash % 2 ^ bits

abbrev pub empty_slot : Slot
empty_slot = record { key_offset = 0; key_size = 0 }

-- `key_offset & 1`, `key_offset & (~1)` and `offset | 1`.
abbrev pub is_direct : ℕ → Bool
is_direct key_offset = key_offset % 2 == 0

abbrev pub untagged : ℕ → ℕ
untagged key_offset = key_offset / 2 * 2

abbrev pub tagged_link : ℕ → ℕ
tagged_link offset = bit_or offset 1

-- `count` bytes from an offset on.
unfoldable pub read_bytes : (ℕ → ℕ) → ℕ → ℕ → List ℕ
read_bytes bytes zero offset = []
read_bytes bytes (suc count) offset = bytes offset ∷ read_bytes bytes count (offset + 1)

-- memcpy
unfoldable pub write_bytes : (ℕ → ℕ) → ℕ → List ℕ → ℕ → ℕ
write_bytes bytes offset [] = bytes
write_bytes bytes offset (b ∷ bs) = write_bytes (set_at bytes offset b) (offset + 1) bs

-- !memcmp
unfoldable pub same_bytes : (ℕ → ℕ) → ℕ → List ℕ → Bool
same_bytes bytes offset [] = true
same_bytes bytes offset (b ∷ bs) = (bytes offset == b) && same_bytes bytes (offset + 1) bs

-- Whether the key at an offset with this size is `k`.
unfoldable pub key_matches : (ℕ → ℕ) → (key_offset key_size : ℕ) → List ℕ → Bool
unfolding same_bytes
key_matches bytes key_offset key_size k = (key_size == length k) && same_bytes bytes key_offset k

module _ {S : Type 0} where
  abbrev pub set_slot : ℕ → Slot → Table S → Table S
  set_slot i s t = record t { slots = set_at t.slots i s }

  abbrev pub set_indirect : ℕ → IndirectValue → Table S → Table S
  set_indirect off v t = record t { indirects = set_at t.indirects off v }

  -- prev->next = next
  abbrev pub set_next : (prev next : ℕ) → Table S → Table S
  set_next prev next t = set_indirect prev (record (t.indirects prev) { next = next }) t

  abbrev pub put_bytes : ℕ → List ℕ → Table S → Table S
  put_bytes off bs t = record t { bytes = write_bytes t.bytes off bs }

  abbrev pub count_item : Table S → Table S
  count_item t = record t { item_count = add64 t.item_count 1 }

  abbrev pub uncount_item : Table S → Table S
  uncount_item t = record t { item_count = sub64 t.item_count 1 }

  abbrev pub slot_of : List ℕ → Table S → ℕ
  slot_of k t = slot_index (fnv1a64 k) t.bits

module _ (A : Allocator) where
  -- What the caller gets: the block, or bad_alloc.
  abbrev pub block_outcome : Table A.State → Option (ℕ × A.State) → Outcome (Table A.State) ℕ
  block_outcome t none = fail bad_alloc t
  block_outcome t (some (r, a)) = ok r (record t { alloc = a })

  unfoldable pub allocate_block : ℕ → Table A.State → Outcome (Table A.State) ℕ
  allocate_block size t = block_outcome t (A.allocate size t.alloc)

  abbrev pub free_block : ℕ → Table A.State → Table A.State
  free_block off t = record t { alloc = A.free off t.alloc }

  -- The bytes behind a key, as many as its block has.
  abbrev pub value_size : (key_offset key_size : ℕ) → Table A.State → ℕ
  value_size key_offset key_size t = sub64 (A.block_size key_offset t.alloc) key_size
