-- ===== src/PrefixTree/Contents.antt =====
-- The contents of a slot: three bits of type below an offset or an inlined value.
use sharedstructures.Base.{
  ℕ, zero, suc, ◌-◌, ◌*◌, ◌/◌, ◌%◌, ◌^◌, ◌≡◌, refl, List, [], ◌∷◌, ◌==◌, true, false, Bool, ◌||◌,
  if◌then◌else◌, length, word_mod,
}
use Prim.Native.Nat.{bit_or}

pub data StoredValueType : Type 0 where
  sub_node string int long_int double trivial short_string unknown : StoredValueType

-- The enumeration's numbers.
abbrev pub type_of_number : ℕ → StoredValueType
type_of_number zero = sub_node
type_of_number (suc zero) = string
type_of_number (suc (suc zero)) = int
type_of_number (suc (suc (suc zero))) = long_int
type_of_number (suc (suc (suc (suc zero)))) = double
type_of_number (suc (suc (suc (suc (suc zero))))) = trivial
type_of_number (suc (suc (suc (suc (suc (suc zero)))))) = short_string
type_of_number _ = unknown

unfoldable pub type_for_contents : ℕ → StoredValueType
type_for_contents s = type_of_number (s % 8)

-- s & ~7
unfoldable pub value_for_contents : ℕ → ℕ
value_for_contents s = s / 8 * 8

-- The value is an int64_t by its bits.
unfoldable pub int_value_for_contents : ℕ → ℕ
unfolding value_for_contents
int_value_for_contents s =
    let v = value_for_contents s / 8 in
    if v / 2 ^ 60 % 2 == 1 then bit_or 0xE000000000000000 v else v

-- What the inserts write: an offset with a type, an inlined integer, a boolean, null, a string of at
-- most seven bytes.
unfoldable pub contents_of_offset : ℕ → ℕ → ℕ
contents_of_offset offset tag = bit_or offset tag

-- The top four bits of an int64_t.
unfoldable pub high_bits : ℕ → ℕ
high_bits v = v / 2 ^ 60 % 16

unfoldable pub fits_inline : ℕ → Bool
unfolding high_bits
fits_inline v = high_bits v == 0x00 || high_bits v == 0x0F

unfoldable pub contents_of_int : ℕ → ℕ
contents_of_int v = bit_or (v * 8 % word_mod) 2

unfoldable pub contents_of_bool : Bool → ℕ
contents_of_bool b = bit_or ((if b then 1 else 0) * 8) 5

unfoldable pub contents_of_null : ℕ
contents_of_null = bit_or (2 * 8) 5

-- The loop over the bytes of a short string, from the bit `shift` downwards.
unfoldable pub pack_bytes : ℕ → ℕ → List ℕ → ℕ
pack_bytes shift value [] = value
pack_bytes shift value (b ∷ bs) = pack_bytes (shift - 8) (bit_or value (b * 2 ^ shift)) bs

unfoldable pub contents_of_short_string : List ℕ → ℕ
unfolding pack_bytes
contents_of_short_string v = pack_bytes 56 (bit_or (length v * 8) 6) v

-- And its inverse: `count` bytes from the bit `shift` downwards.
unfoldable pub unpack_bytes : ℕ → ℕ → ℕ → List ℕ
unpack_bytes zero shift contents = []
unpack_bytes (suc count) shift contents =
    (contents / 2 ^ shift % 256) ∷ unpack_bytes count (shift - 8) contents

unfoldable pub short_string_of : ℕ → List ℕ
unfolding unpack_bytes
short_string_of contents = unpack_bytes (contents / 8 % 8) 56 contents

short_test : short_string_of (contents_of_short_string (1 ∷ 255 ∷ 3 ∷ [])) ≡ 1 ∷ 255 ∷ 3 ∷ []
unfolding short_string_of contents_of_short_string
short_test = refl

abbrev pub is_type_sub_node : StoredValueType → Bool
is_type_sub_node sub_node = true
is_type_sub_node _ = false

unfoldable pub is_sub_node : ℕ → Bool
unfolding type_for_contents
is_sub_node s = is_type_sub_node (type_for_contents s)
