-- ===== src/PrefixTree/Query.antt =====
-- The results of a lookup, and the operations that do not change the tree: at, type, exists and
-- execute_check.
use sharedstructures.Base.{
  ℕ, ◌*◌, ◌/◌, Bool, true, false, ◌&&◌, not, ◌==◌, if◌then◌else◌, List, [], ◌∷◌, Option, none, some,
  take,
}
use sharedstructures.Outcome.{Outcome, ok, fail, and_then, invalid_argument, out_of_range}
use sharedstructures.Allocator.{Allocator}
use sharedstructures.PrefixTree.Contents.{
  StoredValueType, sub_node, string, int, long_int, double, trivial, short_string, unknown,
  type_for_contents, value_for_contents, int_value_for_contents, short_string_of,
}
use sharedstructures.PrefixTree.Node.{Slot, Tree, read_slot}
use sharedstructures.PrefixTree.Traverse.{traverse}

pub data ResultValueType : Type 0 where
  missing_type string_type int_type double_type bool_type null_type : ResultValueType

-- A string by its bytes, an int64_t and a double by their bits.
pub data LookupResult : Type 0 where
  missing_result null_result : LookupResult
  string_result : List ℕ → LookupResult
  int_result : ℕ → LookupResult
  double_result : ℕ → LookupResult
  bool_result : Bool → LookupResult

-- The arithmetic of doubles, on their bits.
pub record Doubles : Type 0 where
  pub add : ℕ → ℕ → ℕ
  pub equal : ℕ → ℕ → Bool

pub record CheckRequest : Type 0 where
  pub key : List ℕ
  pub value : LookupResult

unfoldable bytes_equal : List ℕ → List ℕ → Bool
bytes_equal [] [] = true
bytes_equal (a ∷ xs) (b ∷ ys) = a == b && bytes_equal xs ys
bytes_equal [] (_ ∷ _) = false
bytes_equal (_ ∷ _) [] = false

abbrev same_bool : Bool → Bool → Bool
same_bool true b = b
same_bool false b = not b

-- LookupResult::operator==
unfoldable pub results_equal : Doubles → LookupResult → LookupResult → Bool
unfolding bytes_equal
results_equal D missing_result missing_result = true
results_equal D null_result null_result = true
results_equal D (string_result a) (string_result b) = bytes_equal a b
results_equal D (int_result a) (int_result b) = a == b
results_equal D (double_result a) (double_result b) = D.equal a b
results_equal D (bool_result a) (bool_result b) = same_bool a b
results_equal D _ _ = false

module _ (A : Allocator) where
  -- The block at `offset`, as far as block_size says.
  unfoldable pub string_at : ℕ → Tree A.State → List ℕ
  string_at offset t = take (A.block_size offset t.alloc) (t.bytes offset)

  abbrev trivial_result : ℕ → LookupResult
  trivial_result id = if id == 2 then null_result else bool_result (not (id == 0))

  -- By the type, the offset that stands in the contents, and the contents.
  unfoldable pub result_for_type :
      StoredValueType → ℕ → ℕ → Tree A.State → Outcome (Tree A.State) LookupResult
  unfolding int_value_for_contents short_string_of string_at
  result_for_type sub_node offset contents t = fail out_of_range t
  result_for_type string offset contents t =
      ok (string_result (if offset == 0 then [] else string_at offset t)) t
  result_for_type short_string offset contents t = ok (string_result (short_string_of contents)) t
  result_for_type int offset contents t = ok (int_result (int_value_for_contents contents)) t
  result_for_type long_int offset contents t = ok (int_result (t.words offset)) t
  result_for_type double offset contents t =
      ok (double_result (if offset == 0 then 0 else t.words offset)) t
  result_for_type trivial offset contents t = ok (trivial_result (offset / 8)) t
  result_for_type unknown offset contents t = fail invalid_argument t

  unfoldable pub lookup_result_for_contents : ℕ → Tree A.State → Outcome (Tree A.State) LookupResult
  unfolding type_for_contents value_for_contents result_for_type
  lookup_result_for_contents contents t =
      result_for_type (type_for_contents contents) (value_for_contents contents) contents t

  pub type_of_contents : ℕ → Tree A.State → Outcome (Tree A.State) ResultValueType
  unfolding type_for_contents value_for_contents
  type_of_contents contents t = elim (type_for_contents contents) [
    | sub_node ↦ ok missing_type t
    | string ↦ ok string_type t
    | short_string ↦ ok string_type t
    | int ↦ ok int_type t
    | long_int ↦ ok int_type t
    | double ↦ ok double_type t
    | trivial ↦ ok (if value_for_contents contents == 2 * 8 then null_type else bool_type) t
    | unknown ↦ fail invalid_argument t
  ]

  unfoldable pub at_slot : Option Slot → Tree A.State → Outcome (Tree A.State) LookupResult
  unfolding read_slot lookup_result_for_contents
  at_slot none t = fail out_of_range t
  at_slot (some slot) t =
      if read_slot slot t == 0
      then fail out_of_range t
      else lookup_result_for_contents (read_slot slot t) t

  unfoldable pub at : List ℕ → Tree A.State → Outcome (Tree A.State) LookupResult
  unfolding at_slot
  at k t = and_then (traverse A k true false t) λ r t'. at_slot r.value_slot_offset t'

  type_at : Option Slot → Tree A.State → Outcome (Tree A.State) ResultValueType
  unfolding read_slot type_of_contents
  type_at none t = ok missing_type t
  type_at (some slot) t = type_of_contents (read_slot slot t) t

  pub type : List ℕ → Tree A.State → Outcome (Tree A.State) ResultValueType
  unfolding type_at
  type k t = and_then (traverse A k true false t) λ r t'. type_at r.value_slot_offset t'

  abbrev pub is_some : {B : Type 0} → Option B → Bool
  is_some none = false
  is_some (some _) = true

  unfoldable pub exists : List ℕ → Tree A.State → Outcome (Tree A.State) Bool
  exists k t = and_then (traverse A k true false t) λ r t'. ok (is_some r.value_slot_offset) t'

  existing_result : Option Slot → Tree A.State → Outcome (Tree A.State) LookupResult
  unfolding read_slot lookup_result_for_contents
  existing_result none t = ok missing_result t
  existing_result (some slot) t =
      if read_slot slot t == 0
      then ok missing_result t
      else lookup_result_for_contents (read_slot slot t) t

  pub execute_check : Doubles → CheckRequest → Tree A.State → Outcome (Tree A.State) Bool
  unfolding existing_result results_equal
  execute_check D check t = and_then (traverse A check.key true false t) λ r t'.
      and_then (existing_result r.value_slot_offset t')
        λ found t''. ok (results_equal D found check.value) t''
