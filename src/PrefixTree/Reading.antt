-- ===== src/PrefixTree/Reading.antt =====
-- What a key leads to in the tree of PrefixTree.cc, and PrefixTree::at.
use sharedstructures.Base.{
  ℕ, ◌-◌, ◌≡◌, refl, ap, ◌∙◌, inl, inr, Bool, true, false, not, ◌==◌, if◌then◌else◌, Bool-cases,
  List, [], ◌∷◌, Option, none, some, subst,
}
use sharedstructures.Outcome.{ok, fail, and_then, out_of_range}
use sharedstructures.Allocator.{Allocator}
use sharedstructures.PrefixTree.Contents.{is_sub_node}
use sharedstructures.PrefixTree.Node.{Slot, value_slot, child_slot, Tree, read_slot, in_range}
use sharedstructures.PrefixTree.Traverse.{
  Stop, at_value, at_node, Traversal, at_last, follow, finish, missing, slot_of_node, traverse,
}
use sharedstructures.PrefixTree.Query.{at_slot, lookup_result_for_contents, at}

abbrev pub at_end : List ℕ → ℕ → ℕ
at_end [] contents = contents
at_end (_ ∷ _) contents = 0

module _ {S : Type 0} (t : Tree S) where
  -- The contents that the key leads to from a node: 0 where it leads to none.
  unfoldable pub look : ℕ → List ℕ → ℕ
  look node [] = (t.nodes node).value
  look node (c ∷ k) =
      let next = (t.nodes node).children (c - (t.nodes node).start) in
      let below = look next k in
      if not (in_range c (t.nodes node))
      then 0
      else if next == 0
      then 0
      else if not (is_sub_node next)
      then at_end k next
      else below

  -- What the end of the traversal says of these contents.
  data Shows (contents : ℕ) : Stop → Type 0 where
    shows_value :
        {node i : ℕ} → (t.nodes node).children i ≡ contents → Shows contents (at_value node i)
    shows_node :
        {parent via node : ℕ}
        → (t.nodes node).value ≡ contents
        → Shows contents (at_node parent via node [])
    shows_none :
        {parent via node c : ℕ} {k : List ℕ}
        → contents ≡ 0
        → Shows contents (at_node parent via node (c ∷ k))

  last-Shows :
      (parent via node i c : ℕ) (k : List ℕ)
      → Shows (at_end k ((t.nodes node).children i)) (at_last parent via node k i (c ∷ k))
  last-Shows parent via node i c [] = shows_value refl
  last-Shows parent via node i c (_ ∷ _) = shows_none refl

  follow-Shows :
      (parent via node : ℕ) (k path : List ℕ)
      → Shows (look node k) (follow t parent via node path k).stop
  unfolding look follow
  follow-Shows parent via node [] path = shows_node refl
  follow-Shows parent via node (c ∷ k) path =
      let n = t.nodes node in
      let next = n.children (c - n.start) in
      elim (Bool-cases (not (in_range c n))) [
        | inl h ↦ rw h (shows_none refl)
        | inr h ↦ elim (Bool-cases (next == 0)) [
          | inl z ↦ rw h (rw z (shows_none refl))
          | inr z ↦ elim (Bool-cases (not (is_sub_node next))) [
            | inl s ↦ rw h (rw z (rw s (last-Shows parent via node (c - n.start) c k)))
            | inr s ↦ rw h (rw z (rw s (follow-Shows node c next k (next ∷ path))))
          ]
        ]
      ]

  -- The node that the key leads to, if it ends at one.
  unfoldable pub reach : ℕ → List ℕ → Option ℕ
  reach node [] = some node
  reach node (c ∷ k) =
      let next = (t.nodes node).children (c - (t.nodes node).start) in
      let below = reach next k in
      if not (in_range c (t.nodes node))
      then none
      else if next == 0
      then none
      else if not (is_sub_node next)
      then none
      else below

  -- The traversal stops at this node, with nothing left of the key.
  pub data StopsAt (x : ℕ) : Stop → Type 0 where
    stops_at : {parent via : ℕ} → StopsAt x (at_node parent via x [])

  pub some_injective : {x y : ℕ} → some x ≡ some y → x ≡ y
  some_injective {x = x} h = ap (λ o. elim o [ none ↦ x | some z ↦ z ]) h

  -- A result behind three guards.
  pub unguard :
      {x : ℕ} (a b c : Bool) (o : Option ℕ)
      → (if a then none else if b then none else if c then none else o) ≡ some x
      → (a ≡ false) × (b ≡ false) × (c ≡ false) × (o ≡ some x)
  unguard true b c o h = absurd cc
  unguard false true c o h = absurd cc
  unguard false false true o h = absurd cc
  unguard false false false o h = (refl, refl, refl, h)

  pub reach-StopsAt :
      (parent via node x : ℕ) (k path : List ℕ)
      → reach node k ≡ some x
      → StopsAt x (follow t parent via node path k).stop
  unfolding reach follow
  reach-StopsAt parent via node x [] path h =
      subst (λ y. StopsAt y (at_node parent via node [])) (some_injective h) stops_at
  reach-StopsAt parent via node x (c ∷ k) path h =
      let n = t.nodes node in
      let next = n.children (c - n.start) in
      let (e, z, s, below) =
        unguard (not (in_range c n)) (next == 0) (not (is_sub_node next)) (reach next k) h in
      rw e (rw z (rw s (reach-StopsAt node c next x k (next ∷ path) below)))

module _ (A : Allocator) (t : Tree A.State) where
  data Reads (contents : ℕ) : Option Slot → Type 0 where
    reads_none : contents ≡ 0 → Reads contents none
    reads_slot : {slot : Slot} → read_slot slot t ≡ contents → Reads contents (some slot)

  record Reading (k : List ℕ) : Type 0 where
    traversal : Traversal
    ends : traverse A k true false t ≡ ok traversal t
    reads : Reads (look t t.root k) traversal.value_slot_offset

  finish-Reads :
      (stop : Stop) (path : List ℕ) (contents : ℕ)
      → Shows t contents stop
      → (r : Traversal) × (finish A true false (record { stop = stop; node_offsets = path }) t
          ≡ ok r t)
        × Reads contents r.value_slot_offset
  unfolding finish slot_of_node read_slot
  finish-Reads stop path contents (shows_value {node} {i} e) = (
    record { value_slot_offset = some (child_slot node i); node_offsets = path },
    refl,
    reads_slot e,
  )
  finish-Reads stop path contents (shows_node {node = node} e) = (
    record { value_slot_offset = some (value_slot node); node_offsets = path },
    refl,
    reads_slot e,
  )
  finish-Reads stop path contents (shows_none e) = (missing A path, refl, reads_none e)

  traverse-Reading : (k : List ℕ) → Reading k
  unfolding traverse
  traverse-Reading [] =
      let f = follow t 0 0 t.root (t.root ∷ []) [] in
      let (r, e, h) =
        finish-Reads f.stop f.node_offsets (look t t.root [])
          (follow-Shows t 0 0 t.root [] (t.root ∷ [])) in
      record { traversal = r; ends = e; reads = h }
  traverse-Reading (c ∷ k) =
      let f = follow t 0 0 t.root (t.root ∷ []) (c ∷ k) in
      let (r, e, h) =
        finish-Reads f.stop f.node_offsets (look t t.root (c ∷ k))
          (follow-Shows t 0 0 t.root (c ∷ k) (t.root ∷ [])) in
      record { traversal = r; ends = e; reads = h }

  at_slot-Reads :
      (contents : ℕ) (o : Option Slot)
      → Reads contents o
      → at_slot A o t
        ≡ (if contents == 0 then fail out_of_range t else lookup_result_for_contents A contents t)
  unfolding at_slot
  at_slot-Reads contents o (reads_none e) = rw e refl
  at_slot-Reads contents o (reads_slot {slot} e) = rw e refl

  -- A lookup gives the value that following the links by the characters of the key leads to,
  -- out_of_range if that is none, and leaves the tree as it is.
  pub at_lem :
      (k : List ℕ)
      → at A k t ≡ (
          if look t t.root k == 0
          then fail out_of_range t
          else lookup_result_for_contents A (look t t.root k) t)
  unfolding at
  at_lem k =
      let r = traverse-Reading k in
      ap (λ o. and_then o λ r t'. at_slot A r.value_slot_offset t') r.ends
      ∙ at_slot-Reads (look t t.root k) r.traversal.value_slot_offset r.reads
