-- ===== src/ProcessLock/Token.antt =====
-- The word of a lock: a process by its id and the time at which it started. An int32_t is given by
-- its bits.
use sharedstructures.Base.{
  ℕ, ◌+◌, ◌-◌, ◌*◌, ◌/◌, ◌%◌, ◌^◌, ◌<◌, ◌≡◌, ◌≢◌, ◌↔◌, ap, arith, Bool, true, not, ◌&&◌, ◌==◌, ltb,
  if◌then◌else◌, bit_or-add, word_mod,
}
use Prim.Native.Nat.{bit_or}

abbrev pub pid_bits : ℕ
pid_bits = 18

abbrev pub start_time_bits : ℕ
start_time_bits = 32 - pid_bits

-- The token of the process `pid` that started at `start`.
unfoldable pub process_token : (start pid : ℕ) → ℕ
process_token start pid = bit_or (start * 2 ^ pid_bits % word_mod) pid % 2 ^ 32

-- `>>` repeats the sign.
unfoldable pub start_time_for_token : ℕ → ℕ
start_time_for_token token =
    let upper = token / 2 ^ pid_bits in
    if ltb token (2 ^ 31) then upper else upper + (2 ^ 32 - 2 ^ start_time_bits)

unfoldable pub pid_for_token : ℕ → ℕ
pid_for_token token = token % 2 ^ pid_bits

-- The argument is an int32_t.
unfoldable pub mask_start_time : ℕ → ℕ
mask_start_time start_time = start_time % 2 ^ 32 % 2 ^ start_time_bits

-- `start_of` is start_time_for_pid, which gives 0 for a process that does not run.
unfoldable pub process_for_token_is_running : (start_of : ℕ → ℕ) → ℕ → Bool
unfolding start_time_for_token pid_for_token mask_start_time
process_for_token_is_running start_of token =
    let start_time = start_of (pid_for_token token) in
    not (start_time == 0)
    && (mask_start_time start_time == mask_start_time (start_time_for_token token))

pub process_token-sum :
    (start pid : ℕ)
    → pid < 2 ^ pid_bits
    → process_token start pid ≡ start % 2 ^ start_time_bits * 2 ^ pid_bits + pid
unfolding process_token
process_token-sum start pid h =
    let e : start * 2 ^ pid_bits % word_mod ≡ start % 2 ^ 46 * 2 ^ 18 = omega arith in
    omega (arith, ap (λ x. bit_or x pid) e, bit_or-add 18 (start % 2 ^ 46) pid h)

pub pid_for-process_token :
    (start pid : ℕ) → pid < 2 ^ pid_bits → pid_for_token (process_token start pid) ≡ pid
unfolding pid_for_token
pid_for-process_token start pid h = omega (arith, process_token-sum start pid h)

pub start_time_for-process_token :
    (start pid : ℕ)
    → pid < 2 ^ pid_bits
    → mask_start_time (start_time_for_token (process_token start pid)) ≡ start % 2 ^ start_time_bits
unfolding start_time_for_token mask_start_time
start_time_for-process_token start pid h = ground (arith, process_token-sum start pid h)

pub process_token-nonzero :
    (start pid : ℕ) → pid ≢ 0 → pid < 2 ^ pid_bits → process_token start pid ≢ 0
process_token-nonzero start pid n h = omega (arith, process_token-sum start pid h)

-- A token tells whether its process runs, up to a start time that agrees in the fourteen bits kept.
pub process_token-IsRunning :
    (start_of : ℕ → ℕ) (start pid : ℕ)
    → pid < 2 ^ pid_bits
    → (process_for_token_is_running start_of (process_token start pid) ≡ true)
      ↔ (start_of pid ≢ 0) × (start_of pid % 2 ^ start_time_bits ≡ start % 2 ^ start_time_bits)
unfolding process_for_token_is_running mask_start_time
process_token-IsRunning start_of start pid h = rw (pid_for-process_token start pid h) (
    (
      λ r. ground (arith, start_time_for-process_token start pid h),
      λ p. ground (arith, start_time_for-process_token start pid h),
    ))
