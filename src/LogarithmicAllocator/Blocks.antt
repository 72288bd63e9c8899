-- ===== src/LogarithmicAllocator/Blocks.antt =====
-- The structs of LogarithmicAllocator, and the words that its blocks begin with.
use sharedstructures.Base.{
  word_mod, sub64, ℕ, ◌+◌, ◌*◌, ◌/◌, ◌%◌, ◌^◌, ◌<◌, ◌≡◌, ◌∙◌, ap, arith, Bool, false, ◌==◌,
  bit_or-add, ne→==,
}
use Prim.Native.Nat.{bit_or}

-- FreeBlock, or the first word of an AllocatedBlock.
pub record Block : Type 0 where
  pub prev_order_allocated : ℕ
  pub next : ℕ

-- Data with its block of each offset; blocks start at multiples of 16, so none overlaps another.
pub record State : Type 0 where
  pub size : ℕ
  pub base_object_offset : ℕ
  pub bytes_allocated : ℕ
  pub bytes_committed : ℕ
  pub free_head : ℕ → ℕ
  pub free_tail : ℕ → ℕ
  pub blocks : ℕ → Block

abbrev minimum_order : ℕ
minimum_order = 4

abbrev sizeof_allocated_block : ℕ
sizeof_allocated_block = 8

-- prev, order and allocated of a FreeBlock, from its first word.
unfoldable pub block_prev : ℕ → ℕ
block_prev word = word % 2 ^ 57

unfoldable pub block_order : ℕ → ℕ
block_order word = word / 2 ^ 57 % 64

unfoldable block_allocated : ℕ → Bool
block_allocated word = word / 2 ^ 63 % 2 == 1

-- size of an AllocatedBlock, from its first word.
unfoldable block_bytes : ℕ → ℕ
block_bytes word = word % 2 ^ 63

-- ((uint64_t)order << 57) | prev
unfoldable pub free_word : (order prev : ℕ) → ℕ
free_word order prev = bit_or (order * 2 ^ 57 % word_mod) prev

-- order - minimum_order, the place of an order in free_head and free_tail.
unfoldable pub place : ℕ → ℕ
place order = sub64 order minimum_order

unfoldable pub block_size : ℕ → State → ℕ
unfolding block_bytes
block_size offset s =
    block_bytes ((s.blocks (sub64 offset sizeof_allocated_block)).prev_order_allocated)

unfoldable pub set_base_object_offset : ℕ → State → State
set_base_object_offset offset s = record s { base_object_offset = offset }

unfoldable pub bytes_free : State → ℕ
bytes_free s = sub64 s.size s.bytes_committed

module _ (order prev : ℕ) (few : order < 64) (low : prev < 2 ^ 57) where
  free_word-sum : free_word order prev ≡ order * 2 ^ 57 + prev
  unfolding free_word
  free_word-sum =
      let e : order * 2 ^ 57 % word_mod ≡ order * 2 ^ 57 = omega arith in
      ap (λ x. bit_or x prev) e ∙ bit_or-add 57 order prev low

  pub block_prev-free_word : block_prev (free_word order prev) ≡ prev
  unfolding block_prev
  block_prev-free_word = omega (arith, free_word-sum)

  pub block_order-free_word : block_order (free_word order prev) ≡ order
  unfolding block_order
  block_order-free_word = omega (arith, free_word-sum)

  block_allocated-free_word : block_allocated (free_word order prev) ≡ false
  unfolding block_allocated
  block_allocated-free_word =
      ne→== (free_word order prev / 2 ^ 63 % 2) 1 (λ e. omega (arith, free_word-sum))
