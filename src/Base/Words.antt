-- ===== src/Base/Words.antt =====
-- uint64_t and size_t arithmetic: every result is taken modulo 2 ^ 64.
use Prim.Native.Nat.{ℕ, ◌+◌, ◌-◌, ◌*◌, ◌/◌, ◌%◌, ◌^◌}

abbrev pub word_mod : ℕ
word_mod = 2 ^ 64

-- a + b
abbrev pub add64 : ℕ → ℕ → ℕ
add64 a b = (a + b) % word_mod

-- a - b
abbrev pub sub64 : ℕ → ℕ → ℕ
sub64 a b = (a + word_mod - b) % word_mod

-- (x + 2 ^ k - 1) & ~(2 ^ k - 1)
abbrev pub round_up : ℕ → ℕ → ℕ
round_up k x = (x + (2 ^ k - 1)) % word_mod / 2 ^ k * 2 ^ k
