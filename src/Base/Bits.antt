-- ===== src/Base/Bits.antt =====
-- `|` on words: the law of the lowest digit, and operands that share no bit.
use Prim.Native.Nat.{
  ℕ, zero, suc, ◌+◌, ◌*◌, ◌/◌, ◌%◌, ◌^◌, ◌≤◌, ◌<◌, max, bit_or, digits, bit_or-bitwise,
}
use mathlib.Core.Path.{◌≡◌, refl, sym, ap, ◌∙◌}
use native.Mathlib.Nat.{pow-suc, mul_assoc}
use native.Mathlib.Omega.{arith}

abbrev or_digits : ℕ → ℕ → ℕ → ℕ
or_digits n a b = digits (λ b. b) max n a b

-- Fuel beyond the first operand changes nothing.
or_digits_fuel : (n m a b : ℕ) → a ≤ n → a ≤ m → or_digits n a b ≡ or_digits m a b
or_digits_fuel zero zero a b p q = refl
or_digits_fuel zero (suc m) zero b p q = refl
or_digits_fuel zero (suc m) (suc a) b p q = absurd (omega arith)
or_digits_fuel (suc n) zero zero b p q = refl
or_digits_fuel (suc n) zero (suc a) b p q = absurd (omega arith)
or_digits_fuel (suc n) (suc m) zero b p q = refl
or_digits_fuel (suc n) (suc m) (suc a) b p q =
    omega (arith, or_digits_fuel n m (suc a / 2) (b / 2) (omega arith) (omega arith))

zero-bit_or : (b : ℕ) → bit_or 0 b ≡ b
zero-bit_or b = bit_or-bitwise 0 b

bit_or_step : (a b : ℕ) → bit_or a b ≡ bit_or (a / 2) (b / 2) * 2 + max (a % 2) (b % 2)
bit_or_step zero b = omega (arith, zero-bit_or b, zero-bit_or (b / 2))
bit_or_step (suc a) b = omega (
  arith,
  bit_or-bitwise (suc a) b,
  bit_or-bitwise (suc a / 2) (b / 2),
  or_digits_fuel a (suc a / 2) (suc a / 2) (b / 2) (omega arith) (omega arith),
)

bit_or-zero_fuel : (n a : ℕ) → a ≤ n → bit_or a 0 ≡ a
bit_or-zero_fuel n zero h = zero-bit_or 0
bit_or-zero_fuel zero (suc a) h = absurd (omega arith)
bit_or-zero_fuel (suc n) (suc a) h =
    omega (arith, bit_or_step (suc a) 0, bit_or-zero_fuel n (suc a / 2) (omega arith))

-- Where the operands share no bit, `|` is a sum.
pub bit_or-add : (k a b : ℕ) → b < 2 ^ k → bit_or (a * 2 ^ k) b ≡ a * 2 ^ k + b
bit_or-add zero a b h =
    let z : b ≡ 0 = omega arith in
    rw z (bit_or-zero_fuel (a * 1) (a * 1) (omega arith) ∙ omega arith)
bit_or-add (suc k) a b h =
    let e : a * 2 ^ suc k ≡ a * 2 ^ k * 2 =
      ap (λ x. a * x) (pow-suc 2 k) ∙ sym (mul_assoc a (2 ^ k) 2) in
    let l : b / 2 < 2 ^ k = omega (arith, pow-suc 2 k) in
    rw e (
      omega (
        arith,
        bit_or_step (a * 2 ^ k * 2) b,
        ap (λ x. bit_or x (b / 2)) (half (a * 2 ^ k)),
        bit_or-add k a (b / 2) l,
      ))
  where
    half : (m : ℕ) → m * 2 / 2 ≡ m
    half m = omega arith

-- A tag in the three low bits.
pub tagged : (x tag : ℕ) → tag < 8 → bit_or (x * 8) tag ≡ x * 8 + tag
tagged x tag h = bit_or-add 3 x tag h

double : (k a : ℕ) → a * 2 ^ suc k ≡ a * 2 ^ k * 2
double k a = ap (λ x. a * x) (pow-suc 2 k) ∙ sym (mul_assoc a (2 ^ k) 2)

-- What stands below the bits of the second operand stays.
pub bit_or-shift :
    (k a b l : ℕ) → l < 2 ^ k → bit_or (a * 2 ^ k + l) (b * 2 ^ k) ≡ bit_or a b * 2 ^ k + l
bit_or-shift zero a b l h =
    let p : a * 1 + l ≡ a = omega arith in
    let q : b * 1 ≡ b = omega arith in ap (λ x. bit_or x (b * 1)) p ∙ ap (bit_or a) q ∙ omega arith
bit_or-shift (suc k) a b l h =
    let p : (a * 2 ^ suc k + l) / 2 ≡ a * 2 ^ k + l / 2 = omega (arith, double k a) in
    let q : b * 2 ^ suc k / 2 ≡ b * 2 ^ k = omega (arith, double k b) in
    omega (
      arith,
      bit_or_step (a * 2 ^ suc k + l) (b * 2 ^ suc k),
      ap (λ x. bit_or x (b * 2 ^ suc k / 2)) p,
      ap (bit_or (a * 2 ^ k + l / 2)) q,
      bit_or-shift k a b (l / 2) (omega (arith, pow-suc 2 k)),
      double k a,
      double k b,
      double k (bit_or a b),
    )
