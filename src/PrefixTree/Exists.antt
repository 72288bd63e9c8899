-- ===== src/PrefixTree/Exists.antt =====
-- PrefixTree::exists and PrefixTree::at at keys that end at a node without a value.
use sharedstructures.Base.{
  ℕ, ◌≡◌, refl, ap, ◌∙◌, true, false, not, ◌==◌, if◌then◌else◌, List, [], ◌∷◌, some, eq→==, ◌-◌,
}
use sharedstructures.Outcome.{Outcome, ok, fail, and_then, out_of_range}
use sharedstructures.Allocator.{Allocator}
use sharedstructures.PrefixTree.Contents.{is_sub_node}
use sharedstructures.PrefixTree.Node.{Tree, in_range}
use sharedstructures.PrefixTree.Traverse.{Stop, Traversal, follow, finish, traverse}
use sharedstructures.PrefixTree.Query.{at, exists, is_some, lookup_result_for_contents}
use sharedstructures.PrefixTree.Reading.{
  look, reach, unguard, some_injective, StopsAt, stops_at, reach-StopsAt, at_lem,
}

module _ {S : Type 0} (t : Tree S) where
  look-reach :
      (node x : ℕ) (k : List ℕ) → reach t node k ≡ some x → look t node k ≡ (t.nodes x).value
  unfolding look reach
  look-reach node x [] h = ap (λ y. (t.nodes y).value) (some_injective t h)
  look-reach node x (c ∷ k) h =
      let n = t.nodes node in
      let next = n.children (c - n.start) in
      let (e, z, s, below) =
        unguard t (not (in_range c n)) (next == 0) (not (is_sub_node next)) (reach t next k) h in
      rw e (rw z (rw s (look-reach next x k below)))

module _ (A : Allocator) (t : Tree A.State) where
  abbrev Finds : Outcome (Tree A.State) Traversal → Type 0
  Finds o = (r : Traversal) × (o ≡ ok r t) × (is_some A r.value_slot_offset ≡ true)

  finish-Finds :
      (x : ℕ) (stop : Stop) (path : List ℕ)
      → StopsAt t x stop
      → Finds (finish A true false (record { stop = stop; node_offsets = path }) t)
  unfolding finish
  finish-Finds x stop path stops_at =
      (record { value_slot_offset = _; node_offsets = path }, refl, refl)

  traverse-Finds :
      (k : List ℕ) (x : ℕ) → reach t t.root k ≡ some x → Finds (traverse A k true false t)
  unfolding traverse
  traverse-Finds [] x h =
      let f = follow t 0 0 t.root (t.root ∷ []) [] in
      finish-Finds x f.stop f.node_offsets (reach-StopsAt t 0 0 t.root x [] (t.root ∷ []) h)
  traverse-Finds (c ∷ k) x h =
      let f = follow t 0 0 t.root (t.root ∷ []) (c ∷ k) in
      finish-Finds x f.stop f.node_offsets (reach-StopsAt t 0 0 t.root x (c ∷ k) (t.root ∷ []) h)

  -- For a key that leads to a node without a value, exists gives true while at fails with
  -- out_of_range.
  pub exists_without_value :
      (k : List ℕ) (x : ℕ)
      → reach t t.root k ≡ some x
      → (t.nodes x).value ≡ 0
      → (exists A k t ≡ ok true t) × (at A k t ≡ fail out_of_range t)
  unfolding exists
  exists_without_value k x h z =
      let (r, e, f) = traverse-Finds k x h in
      let c = look t t.root k in
      let zero : c ≡ 0 = look-reach t t.root x k h ∙ z in
      (
        ap (λ o. and_then o λ r t'. ok (is_some A r.value_slot_offset) t') e ∙ ap (λ b. ok b t) f,
        at_lem A t k
            ∙ ap (λ b. if b then fail out_of_range t else lookup_result_for_contents A c t)
                (eq→== c 0 zero),
      )
