-- ===== src/PrefixTree/Iterate.antt =====
-- PrefixTree::next_key_value_internal
use sharedstructures.Base.{
  ℕ, zero, suc, ◌+◌, ◌-◌, ◌*◌, Bool, false, not, ◌==◌, if◌then◌else◌, List, [], ◌∷◌, Option, none,
  some, ltb,
}
use sharedstructures.Outcome.{Outcome, ok, fail, and_then, out_of_range, out_of_fuel}
use sharedstructures.Allocator.{Allocator}
use sharedstructures.PrefixTree.Contents.{value_for_contents, is_sub_node}
use sharedstructures.PrefixTree.Node.{Tree}
use sharedstructures.PrefixTree.Query.{LookupResult, null_result, lookup_result_for_contents}

-- `slot_id`: negative before the value of the node, else the character of a slot.
pub data Position : Type 0 where
  before_value : Position
  at_char : ℕ → Position

-- The nodes from the root to the current one, innermost first, and the place in that node.
pub record Cursor : Type 0 where
  pub node_offsets : List ℕ
  pub position : Position

pub record Found : Type 0 where
  pub cursor : Cursor
  pub value : ℕ

-- What one round of the second loop comes to.
data Round : Type 0 where
  found : ℕ → Position → Round
  go_on : Cursor → Round
  finished : Round

abbrev cursor_at : List ℕ → Position → Cursor
cursor_at path position = record { node_offsets = path; position = position }

module _ {S : Type 0} (t : Tree S) where
  -- Follows links for the given key as far as possible.
  pub seek : (node : ℕ) → List ℕ → List ℕ → Cursor
  seek node path [] = cursor_at path (at_char 0)
  seek node path (c ∷ k) =
      let n = t.nodes node in
      let next = n.children (c - n.start) in
      let down = seek next (next ∷ path) k in
      if ltb c n.start
      then cursor_at path (at_char n.start)
      else if ltb n.end c
      then cursor_at path (at_char 0x100)
      else if not (is_sub_node next)
      then cursor_at path (at_char (c + 1))
      else down

  abbrev leave : ℕ → List ℕ → Round
  leave node [] = finished
  leave node (parent ∷ path) =
      go_on (cursor_at (parent ∷ path) (at_char ((t.nodes node).parent_slot + 1)))

  at_slot_of : ℕ → List ℕ → ℕ → Round
  unfolding value_for_contents
  at_slot_of node path c =
      let n = t.nodes node in
      let contents = n.children (c - n.start) in
      if ltb n.end c
      then leave node path
      else if contents == 0
      then go_on (cursor_at (node ∷ path) (at_char (c + 1)))
      else if not (is_sub_node contents)
      then found contents (at_char c)
      else go_on (cursor_at (value_for_contents contents ∷ node ∷ path) before_value)

  round : Cursor → Round
  unfolding at_slot_of
  round cursor = elim cursor.node_offsets [
    | [] ↦ finished
    | node ∷ path ↦ elim cursor.position [
      | before_value ↦
          if not ((t.nodes node).value == 0)
          then found (t.nodes node).value before_value
          else at_slot_of node path (t.nodes node).start
      | at_char c ↦
          at_slot_of node path (if ltb c (t.nodes node).start then (t.nodes node).start else c)
    ]
  ]

  pub next_value : ℕ → Cursor → Outcome (Tree S) Found
  unfolding round
  next_value zero cursor = fail out_of_fuel t
  next_value (suc fuel) cursor = elim (round cursor) [
    | finished ↦ fail out_of_range t
    | found value position ↦
        ok (record { cursor = cursor_at cursor.node_offsets position; value = value }) t
    | go_on next ↦ next_value fuel next
  ]

  -- The characters that lead to the nodes, without the root's, in front of `key`.
  abbrev path_key : List ℕ → List ℕ → List ℕ
  path_key [] key = key
  path_key (root ∷ []) key = key
  path_key (node ∷ parent ∷ path) key = path_key (parent ∷ path) ((t.nodes node).parent_slot ∷ key)

  abbrev last_char : Position → List ℕ
  last_char before_value = []
  last_char (at_char c) = c ∷ []

  pub key_of : Cursor → List ℕ
  key_of cursor = path_key cursor.node_offsets (last_char cursor.position)

-- Every slot of every node is passed at most once, and every node is entered and left once.
abbrev pub rounds : {S : Type 0} → Tree S → ℕ
rounds t = (t.node_count + 1) * 259

module _ (A : Allocator) where
  abbrev result_of : Bool → ℕ → Tree A.State → Outcome (Tree A.State) LookupResult
  result_of return_value contents t =
      if return_value then lookup_result_for_contents A contents t else ok null_result t

  abbrev start_cursor : Tree A.State → Option (List ℕ) → Cursor
  start_cursor t none = cursor_at (t.root ∷ []) (at_char 0)
  start_cursor t (some current) = seek t t.root (t.root ∷ []) current

  search_from : Cursor → Bool → Tree A.State → Outcome (Tree A.State) (List ℕ × LookupResult)
  unfolding next_value key_of
  search_from cursor return_value t =
      and_then (next_value t (rounds t) cursor)
        λ f t'. and_then (result_of return_value f.value t') λ r t''. ok (key_of t f.cursor, r) t''

  abbrev starts_at_root : Tree A.State → Option (List ℕ) → Bool
  starts_at_root t none = not ((t.nodes t.root).value == 0)
  starts_at_root t (some _) = false

  pub next_key_value_internal :
      Option (List ℕ) → Bool → Tree A.State → Outcome (Tree A.State) (List ℕ × LookupResult)
  unfolding seek search_from
  next_key_value_internal current return_value t =
      if starts_at_root t current
      then and_then (result_of return_value (t.nodes t.root).value t) (λ r t'. ok ([], r) t')
      else search_from (start_cursor t current) return_value t
