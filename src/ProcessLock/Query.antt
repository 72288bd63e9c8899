-- ===== src/ProcessLock/Query.antt =====
-- is_locked and reader_count.
use sharedstructures.Base.{
  ℕ, zero, suc, ◌+◌, ◌<◌, ◌≤◌, ◌≡◌, ◌≢◌, ◌↔◌, refl, arith, Bool, true, false, not, ◌==◌,
  if◌then◌else◌, ==→eq, eq→==, Bool-cases, inl, inr,
}
use sharedstructures.ProcessLock.ReadWrite.{num_reader_slots, Memory}

unfoldable pub process_lock_is_locked : (lock : ℕ) → Bool
process_lock_is_locked lock = not (lock == 0)

-- The loops over the slots, from `x` on.
unfoldable pub any_reader : (count x : ℕ) → (ℕ → ℕ) → Bool
any_reader zero x tokens = false
any_reader (suc n) x tokens =
    let rest = any_reader n (x + 1) tokens in if tokens x == 0 then rest else true

unfoldable pub count_readers : (count x : ℕ) → (ℕ → ℕ) → ℕ
count_readers zero x tokens = 0
count_readers (suc n) x tokens = (if tokens x == 0 then 0 else 1) + count_readers n (x + 1) tokens

unfoldable pub is_locked : (for_writing : Bool) → Memory → Bool
unfolding any_reader
is_locked true m = not (m.write_lock == 0)
is_locked false m = any_reader num_reader_slots 0 m.reader_tokens

unfoldable pub reader_count : Memory → ℕ
unfolding count_readers
reader_count m = count_readers num_reader_slots 0 m.reader_tokens

pub any_reader-none :
    (n x : ℕ) (f : ℕ → ℕ)
    → ((y : ℕ) → x ≤ y → y < x + n → f y ≡ 0)
    → (any_reader n x f ≡ false) × (count_readers n x f ≡ 0)
unfolding any_reader count_readers
any_reader-none zero x f h = (refl, refl)
any_reader-none (suc n) x f h =
    let e = eq→== (f x) 0 (h x (omega arith) (omega arith)) in
    let rest = any_reader-none n (x + 1) f (λ y a b. h y (omega arith) (omega arith)) in
    rw e (rest.0, omega (arith, rest.1))

pub any_reader-some :
    (n x y : ℕ) (f : ℕ → ℕ)
    → x ≤ y
    → y < x + n
    → f y ≢ 0
    → (any_reader n x f ≡ true) × (count_readers n x f ≢ 0)
unfolding any_reader count_readers
any_reader-some zero x y f a b h = absurd (omega arith)
any_reader-some (suc n) x y f a b h = elim (Bool-cases (f x == 0)) [
  | inl empty ↦
      (let rest =
          any_reader-some n (x + 1) y f (ground (arith, ==→eq (f x) 0 empty)) (omega arith) h in
        rw empty (rest.0, λ z. rest.1 (omega arith)))
  | inr taken ↦ rw taken (refl, λ z. omega arith)
]

count_readers_le : (n x : ℕ) (f : ℕ → ℕ) → count_readers n x f ≤ n
unfolding count_readers
count_readers_le zero x f = omega arith
count_readers_le (suc n) x f = ground (arith, count_readers_le n (x + 1) f)

count_readers-zero : (n x : ℕ) (f : ℕ → ℕ) → (count_readers n x f ≡ 0) ↔ (any_reader n x f ≡ false)
unfolding any_reader count_readers
count_readers-zero zero x f = (λ h. refl, λ h. refl)
count_readers-zero (suc n) x f = elim (Bool-cases (f x == 0)) [
  | inl empty ↦
      (let rest = count_readers-zero n (x + 1) f in
        rw empty (λ z. rest.0 (omega arith), λ z. omega (arith, rest.1 z)))
  | inr taken ↦ rw taken (λ h. absurd (omega arith), λ h. absurd cc)
]

-- The count is zero exactly if the lock is not locked for reading, and at most the number of slots.
pub reader_count-is_locked :
    (m : Memory)
    → ((reader_count m ≡ 0) ↔ (is_locked false m ≡ false)) × (reader_count m ≤ num_reader_slots)
unfolding reader_count is_locked
reader_count-is_locked m = (
  count_readers-zero num_reader_slots 0 m.reader_tokens,
  count_readers_le num_reader_slots 0 m.reader_tokens,
)
