-- ===== src/PrefixTree/Encoding.antt =====
-- Reading the contents of a slot that PrefixTree.cc wrote: offsets and integers.
use sharedstructures.Base.{
  ℕ, ◌+◌, ◌*◌, ◌/◌, ◌%◌, ◌^◌, ◌<◌, ◌≡◌, ap, arith, ◌==◌, sym, ◌∙◌, ◌⊎◌, inl, inr, eq→==, ne→==,
  true, if◌then◌else◌, bit_or-add, tagged, word_mod,
}
use Prim.Native.Nat.{bit_or}
use sharedstructures.PrefixTree.Contents.{
  int, type_of_number, type_for_contents, value_for_contents, int_value_for_contents,
  contents_of_offset, contents_of_int, fits_inline, high_bits,
}

contents_of_offset_lem :
    (off tag : ℕ) → off % 8 ≡ 0 → tag < 8 → contents_of_offset off tag ≡ off + tag
unfolding contents_of_offset
contents_of_offset_lem off tag a l =
    let e : off / 8 * 8 ≡ off = omega arith in
    sym (ap (λ x. bit_or x tag) e) ∙ tagged (off / 8) tag l ∙ ap (λ x. x + tag) e

pub type-offset :
    (off tag : ℕ)
    → off % 8 ≡ 0
    → tag < 8
    → type_for_contents (contents_of_offset off tag) ≡ type_of_number tag
unfolding type_for_contents
type-offset off tag a l =
    ap (λ x. type_of_number (x % 8)) (contents_of_offset_lem off tag a l)
    ∙ ap type_of_number (omega arith)

pub value-offset :
    (off tag : ℕ) → off % 8 ≡ 0 → tag < 8 → value_for_contents (contents_of_offset off tag) ≡ off
unfolding value_for_contents
value-offset off tag a l = ap (λ x. x / 8 * 8) (contents_of_offset_lem off tag a l) ∙ omega arith

contents_of_int_lem : (v : ℕ) → contents_of_int v ≡ v % 2 ^ 61 * 8 + 2
unfolding contents_of_int
contents_of_int_lem v =
    let e : v * 8 % word_mod ≡ v % 2 ^ 61 * 8 = omega arith in
    ap (λ x. bit_or x 2) e ∙ tagged (v % 2 ^ 61) 2 (omega arith)

pub type-int : (v : ℕ) → type_for_contents (contents_of_int v) ≡ int
unfolding type_for_contents
type-int v =
    let e : (v % 2 ^ 61 * 8 + 2) % 8 ≡ 2 = omega arith in
    ap (λ x. type_of_number (x % 8)) (contents_of_int_lem v) ∙ ap type_of_number e

fits_inline_cases : (v : ℕ) → fits_inline v ≡ true → (v / 2 ^ 60 % 16 ≡ 0) ⊎ (v / 2 ^ 60 % 16 ≡ 15)
unfolding fits_inline high_bits
fits_inline_cases v h = ground arith

sign_extended :
    (v : ℕ) → v < 2 ^ 64 → v / 2 ^ 60 % 16 ≡ 15 → bit_or 0xE000000000000000 (v % 2 ^ 61) ≡ v
sign_extended v l h = bit_or-add 61 7 (v % 2 ^ 61) (omega arith) ∙ omega arith

abbrev extend : ℕ → ℕ
extend v = if v / 2 ^ 60 % 2 == 1 then bit_or 0xE000000000000000 v else v

extend-mod : (v : ℕ) → v < 2 ^ 64 → fits_inline v ≡ true → extend (v % 2 ^ 61) ≡ v
extend-mod v l h = elim (fits_inline_cases v h) [
  | inl z ↦ rw (ne→== (v % 2 ^ 61 / 2 ^ 60 % 2) 1 (omega arith)) (omega arith)
  | inr z ↦ rw (eq→== (v % 2 ^ 61 / 2 ^ 60 % 2) 1 (omega arith)) (sign_extended v l z)
]

pub int_value-contents_of_int :
    (v : ℕ) → v < 2 ^ 64 → fits_inline v ≡ true → int_value_for_contents (contents_of_int v) ≡ v
unfolding int_value_for_contents value_for_contents
int_value-contents_of_int v l h =
    let e : (v % 2 ^ 61 * 8 + 2) / 8 * 8 / 8 ≡ v % 2 ^ 61 = omega arith in
    ap (λ x. extend (x / 8 * 8 / 8)) (contents_of_int_lem v) ∙ ap extend e ∙ extend-mod v l h
