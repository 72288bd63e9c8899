-- ===== src/PrefixTree/ShortString.antt =====
-- Reading the bytes of a short string out of a slot of PrefixTree.cc.
use sharedstructures.Base.{
  ℕ, zero, suc, ◌+◌, ◌-◌, ◌*◌, ◌/◌, ◌%◌, ◌^◌, ◌<◌, ◌≤◌, ◌≡◌, refl, ap, arith, sym, ◌∙◌, List, [],
  ◌∷◌, length, bit_or-add, bit_or-shift, tagged, subst,
}
use Prim.Native.Nat.{bit_or}
use native.Mathlib.Nat.{pow-suc, mul_assoc, mul_comm, add-mul, mul-le-mul_right, div-eq_of_lt-le}
use sharedstructures.PrefixTree.Contents.{
  short_string, type_of_number, type_for_contents, pack_bytes, unpack_bytes,
  contents_of_short_string, short_string_of,
}

abbrev unit : ℕ → ℕ
unit m = 2 ^ (m * 8)

unit-suc : (m : ℕ) → unit (suc m) ≡ unit m * 256
unit-suc m =
    let k = m * 8 in
    let e : suc m * 8 ≡ suc (suc (suc (suc (suc (suc (suc (suc k))))))) = omega arith in
    ap (λ x. 2 ^ x) e
    ∙ omega (
      arith,
      pow-suc 2 k,
      pow-suc 2 (suc k),
      pow-suc 2 (suc (suc k)),
      pow-suc 2 (suc (suc (suc k))),
      pow-suc 2 (suc (suc (suc (suc k)))),
      pow-suc 2 (suc (suc (suc (suc (suc k))))),
      pow-suc 2 (suc (suc (suc (suc (suc (suc k)))))),
      pow-suc 2 (suc (suc (suc (suc (suc (suc (suc k))))))),
    )

unit_pos : (m : ℕ) → 1 ≤ unit m
unit_pos zero = omega arith
unit_pos (suc m) = omega (arith, unit-suc m, unit_pos m)

swap : (a u : ℕ) → a * (u * 256) ≡ a * 256 * u
swap a u = ap (λ x. a * x) (mul_comm u 256) ∙ sym (mul_assoc a 256 u)

spread : (a b u : ℕ) → (a * 256 + b) * u ≡ a * (u * 256) + b * u
spread a b u = add-mul (a * 256) b u ∙ ap (λ x. x + b * u) (sym (swap a u))

digit_below : (b u r : ℕ) → b < 256 → r < u → b * u + r < u * 256
digit_below b u r h l =
    let p : (b + 1) * u ≤ 256 * u = mul-le-mul_right u (omega arith) in
    omega (arith, p, add-mul b 1 u)

quotient : (a u r : ℕ) → r < u → (a * u + r) / u ≡ a
quotient a u r h = div-eq_of_lt-le u (omega arith) (omega (arith, add-mul a 1 u))

add_byte :
    (m a b l : ℕ)
    → l < unit m
    → b < 256
    → bit_or (a * unit (suc m) + l) (b * unit m) ≡ (a * 256 + b) * unit m + l
add_byte m a b l h hb =
    let e : a * unit (suc m) ≡ a * 256 * unit m = ap (λ x. a * x) (unit-suc m) ∙ swap a (unit m) in
    ap (λ x. bit_or (x + l) (b * unit m)) e
    ∙ bit_or-shift (m * 8) (a * 256) b l h
    ∙ ap (λ x. x * unit m + l) (bit_or-add 8 a b hb)

pub data AreBytes : List ℕ → Type 0 where
  none_left : AreBytes []
  byte : {b : ℕ} {bs : List ℕ} → b < 256 → AreBytes bs → AreBytes (b ∷ bs)

-- `c` holds `l` in its lowest byte, `bs` from the byte `m` downwards, and `a` above.
record Packed (m a l : ℕ) (bs : List ℕ) (c : ℕ) : Type 0 where
  rest : ℕ
  splits : c ≡ a * unit (suc m) + rest
  below : rest < unit (suc m)
  low : rest % 256 ≡ l
  unpacks : unpack_bytes (length bs) (m * 8) c ≡ bs

Packed-nil : (m a l : ℕ) → l < 256 → Packed m a l [] (a * unit (suc m) + l)
unfolding unpack_bytes
Packed-nil m a l h = record {
  rest = l;
  splits = refl;
  below = omega (arith, unit-suc m, unit_pos m);
  low = omega arith;
  unpacks = refl;
}

first_byte :
    (m a b r c : ℕ)
    → b < 256
    → r < unit m
    → c ≡ (a * 256 + b) * unit m + r
    → c / 2 ^ (m * 8) % 256 ≡ b
first_byte m a b r c hb h e =
    ap (λ x. x / unit m % 256) e
    ∙ ap (λ x. x % 256) (quotient (a * 256 + b) (unit m) r h)
    ∙ omega arith

Packed-cons :
    (m a b l : ℕ) (bs : List ℕ) (c : ℕ)
    → b < 256
    → Packed m (a * 256 + b) l bs c
    → Packed (suc m) a l (b ∷ bs) c
unfolding unpack_bytes
Packed-cons m a b l bs c hb p =
    let u = unit (suc m) in
    let e : suc m * 8 - 8 ≡ m * 8 = omega arith in
    record {
      rest = b * u + p.rest;
      splits = omega (arith, p.splits, spread a b u, ap (λ x. a * x) (unit-suc (suc m)));
      below = omega (arith, digit_below b u p.rest hb p.below, unit-suc (suc m));
      low = omega (arith, p.low, ap (λ x. b * x) (unit-suc m), mul_assoc b (unit m) 256);
      unpacks =
          ap (λ x. x ∷ unpack_bytes (length bs) (suc m * 8 - 8) c)
            (first_byte (suc m) a b p.rest c hb p.below p.splits)
          ∙ ap (λ x. b ∷ unpack_bytes (length bs) x c) e
          ∙ ap (λ x. b ∷ x) p.unpacks;
    }

pack_bytes-Packed :
    (m a l : ℕ) (bs : List ℕ)
    → length bs ≤ m
    → l < 256
    → AreBytes bs
    → Packed m a l bs (pack_bytes (m * 8) (a * unit (suc m) + l) bs)
unfolding pack_bytes
pack_bytes-Packed m a l [] h hl hbs = Packed-nil m a l hl
pack_bytes-Packed zero a l (b ∷ bs) h hl hbs = absurd (omega arith)
pack_bytes-Packed (suc m) a l (b ∷ bs) h hl (byte hb hbs) =
    let e : suc m * 8 - 8 ≡ m * 8 = omega arith in
    let k : l < unit (suc m) = omega (arith, unit-suc m, unit_pos m) in
    subst (Packed (suc m) a l (b ∷ bs))
      (sym (
        ap (λ x. pack_bytes (suc m * 8 - 8) x bs) (add_byte (suc m) a b l k hb)
        ∙ ap (λ x. pack_bytes x ((a * 256 + b) * unit (suc m) + l) bs) e))
      (Packed-cons m a b l bs _ hb (pack_bytes-Packed m (a * 256 + b) l bs (omega arith) hl hbs))

short_lem :
    (v : List ℕ)
    → length v < 8
    → AreBytes v
    → Packed 7 0 (length v * 8 + 6) v (contents_of_short_string v)
unfolding contents_of_short_string
short_lem v h hv =
    let z : 0 * unit 8 + (length v * 8 + 6) ≡ length v * 8 + 6 = omega arith in
    subst (Packed 7 0 (length v * 8 + 6) v)
      (ap (λ x. pack_bytes 56 x v) (z ∙ sym (tagged (length v) 6 (omega arith))))
      (pack_bytes-Packed 7 0 (length v * 8 + 6) v (omega arith) (omega arith) hv)

short_low :
    (v : List ℕ) → length v < 8 → AreBytes v → contents_of_short_string v % 256 ≡ length v * 8 + 6
short_low v h hv = let p = short_lem v h hv in omega (arith, p.splits, p.low)

pub type-short :
    (v : List ℕ)
    → length v < 8
    → AreBytes v
    → type_for_contents (contents_of_short_string v) ≡ short_string
unfolding type_for_contents
type-short v h hv =
    let e : contents_of_short_string v % 8 ≡ 6 = omega (arith, short_low v h hv) in
    ap type_of_number e

pub short_string-contents :
    (v : List ℕ) → length v < 8 → AreBytes v → short_string_of (contents_of_short_string v) ≡ v
unfolding short_string_of
short_string-contents v h hv =
    let e : contents_of_short_string v / 8 % 8 ≡ length v = omega (arith, short_low v h hv) in
    ap (λ n. unpack_bytes n 56 (contents_of_short_string v)) e ∙ (short_lem v h hv).unpacks
