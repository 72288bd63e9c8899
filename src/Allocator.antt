-- ===== src/Allocator.antt =====
-- Allocator.hh: what a data structure relies on in the allocator that it is given.
use sharedstructures.Base.{ℕ, ◌%◌, ◌^◌, ◌<◌, ◌≤◌, ◌+◌, ◌≡◌, ◌≢◌, Option, some}

-- The block at `r` that an allocation of `n` bytes returned, between the states `a` and `a'`;
-- `In a b x` says that `x` lies in the block at `b`.
pub record Fresh {S : Type 0} (In : S → ℕ → ℕ → Type 0) (block_size : ℕ → S → ℕ) (n r : ℕ)
    (a a' : S) : Type 0 where
  pub was_free : (b : ℕ) → ¬ In a b r
  pub live : In a' r r
  pub range_free : (b x : ℕ) → r ≤ x → x < r + n → ¬ In a b x
  pub range_live : (x : ℕ) → r ≤ x → x < r + n → In a' r x
  pub not_null : r ≢ 0
  pub aligned : r % 8 ≡ 0
  pub small : r < 2 ^ 63
  pub sized : block_size r a' ≡ n

pub record Allocator : Type 1 where
  pub State : Type 0
  -- The offset lies in the block at the other one, which was returned and has not been freed.
  pub In : State → (block offset : ℕ) → Type 0
  -- `none` where the pool cannot be expanded.
  pub allocate : ℕ → State → Option (ℕ × State)
  pub free : ℕ → State → State
  pub block_size : ℕ → State → ℕ
  pub allocate_fresh :
      {n r : ℕ} {a a' : State} → allocate n a ≡ some (r, a') → Fresh In block_size n r a a'
  pub allocate_keeps :
      {n r b x : ℕ} {a a' : State}
      → allocate n a ≡ some (r, a')
      → In a b x
      → In a' b x × (block_size b a' ≡ block_size b a)
  pub free_keeps :
      {b x : ℕ} (r : ℕ) {a : State}
      → b ≢ r
      → In a b x
      → In (free r a) b x × (block_size b (free r a) ≡ block_size b a)
