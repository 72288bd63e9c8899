-- ===== src/HashTable/Erase.antt =====
-- erase.
use sharedstructures.Base.{
  ℕ, ◌+◌, ◌*◌, ◌/◌, ◌%◌, ◌<◌, ◌≡◌, ◌≢◌, inl, inr, refl, sym, ap, subst, ◌∙◌, arith, List, [], ◌∷◌,
  length, Bool, true, false, not, Bool-cases, if◌then◌else◌, ◌==◌, eq→==, ne→==, set_at,
  set_at_same, Option, none, some,
}
use sharedstructures.Outcome.{ok}
use sharedstructures.Allocator.{Allocator}
use sharedstructures.HashTable.Memory.{
  Slot, Table, set_slot, free_block, slot_of, key_matches, uncount_item,
}
use sharedstructures.HashTable.Walk.{walk_indirect_list, walk_slot, walk_tables, exists}
use sharedstructures.HashTable.Update.{
  erase, erase_key, erase_in_chain, unlink_node, collapse, free_pair,
}
use sharedstructures.HashTable.Contents.{
  Link, Contents, vacant, direct, chained, entries_of, links_of, same_list, find, SlotHolds,
}
use sharedstructures.HashTable.Lookup.{locate, walk_from-Chain, PairAt-matches}
use sharedstructures.HashTable.Held.{Held}
use sharedstructures.HashTable.Chains.{locate_here, locate_further, entries}

locate_missing :
    (k : List ℕ) (prev : ℕ) (ls : List Link) → find k (entries ls) ≡ none → (locate k prev ls).1 ≡ 0
locate_missing k prev [] e = refl
locate_missing k prev (l ∷ ls) e = elim (Bool-cases (same_list l.entry.key k)) [
  | inl same ↦ absurd (found_none (sym (ap chosen same) ∙ e))
  | inr other ↦
      rw (locate_further k prev l ls other) (locate_missing k l.node ls (sym (ap chosen other) ∙ e))
]
  where
    chosen : Bool → Option (List ℕ)
    chosen b = if b then some l.entry.value else find k (entries ls)

    found_none : some l.entry.value ≡ none → ⊥
    found_none e = cc

module _ (A : Allocator) (fuel : ℕ) (k : List ℕ) (t : Table A.State) where
  chain_missing :
      (prev found : ℕ) → found ≡ 0 → erase_in_chain A (slot_of k t) (prev, found) t ≡ ok false t
  unfolding erase_in_chain
  chain_missing prev found z = rw z refl

  -- An erase of a key that its slot does not hold says so and changes nothing.
  pub erase_missing :
      (c : Contents)
      → SlotHolds A t (t.slots (slot_of k t)) c
      → length (links_of c) < fuel
      → find k (entries_of c) ≡ none
      → erase A fuel k none t ≡ ok false t
  unfolding erase erase_key walk_indirect_list
  erase_missing vacant h m n = rw h refl
  erase_missing (direct e) h m n = elim (Bool-cases (same_list e.key k)) [
    | inl same ↦ absurd (found_none same)
    | inr other ↦
        rw
          (
            PairAt-matches A t e k _ _ (h.2) (h.0) (h.1),
            h.0,
            ne→== e.offset 0 (h.2).not_null,
            eq→== (e.offset % 2) 0 (omega (arith, (h.2).aligned)),
            other,
          )
          refl
  ]
    where
      found_none : same_list e.key k ≡ true → ⊥
      found_none same =
          let z : some e.value ≡ none = sym (ap (λ b. if b then some e.value else none) same) ∙ n in
          cc
  erase_missing (chained []) h m n = absurd h
  erase_missing (chained (x ∷ xs)) h m n =
      let a = (h.1.1).aligned in
      let head : (x.node + 1) / 2 * 2 ≡ x.node = omega (arith, a) in
      let walk = walk_from-Chain A t k fuel 0 x.node (x ∷ xs) m (h.1) in
      rw
        (
          h.0,
          ne→== (x.node + 1) 0 (λ z. omega arith),
          ne→== ((x.node + 1) % 2) 0 (λ z. omega (arith, a)),
          head,
        )
        (rw walk (
          chain_missing ((locate k 0 (x ∷ xs)).0) ((locate k 0 (x ∷ xs)).1)
            (locate_missing k 0 (x ∷ xs) n)))

  collapse_none :
      (i : ℕ) (u : Table A.State)
      → (u.indirects (u.slots i).key_offset).next ≢ 0
      → collapse A i u ≡ u
  unfolding collapse
  collapse_none i u n = elim (Bool-cases (not ((u.slots i).key_offset == 0))) [
    | inl some_key ↦ rw (some_key, ne→== (u.indirects (u.slots i).key_offset).next 0 n) refl
    | inr no_key ↦ rw no_key refl
  ]

  short_slot :
      (key : List ℕ) (s : Slot) (u : Table A.State)
      → s.key_offset ≢ 0
      → s.key_offset % 2 ≡ 0
      → s.key_size ≡ 0
      → length key ≢ 0
      → walk_slot A fuel key s u ≡ some (0, 0)
  unfolding walk_slot key_matches
  short_slot key s u a b c n =
      rw
        (
          ne→== s.key_offset 0 a,
          eq→== (s.key_offset % 2) 0 b,
          c,
          ne→== 0 (length key) (λ z. n (sym z)),
        )
        refl

  module _ (x y z : Link) (ls : List Link) (key : List ℕ)
      (h : SlotHolds A t (t.slots (slot_of k t)) (chained (x ∷ y ∷ z ∷ ls))) where
    abbrev cut_slot : Slot
    cut_slot = record (t.slots (slot_of k t)) { key_offset = (t.indirects x.node).next }

    abbrev cut : Table A.State
    cut =
        free_block A x.node
          (free_block A (t.indirects x.node).key_offset (set_slot (slot_of k t) cut_slot t))

    next_node : (t.indirects x.node).next ≡ y.node
    next_node = h.1.2.0

    at_cut : set_at t.slots (slot_of k t) cut_slot (slot_of k t) ≡ cut_slot
    at_cut = set_at_same t.slots (slot_of k t) cut_slot

    cut-collapse : collapse A (slot_of k t) cut ≡ cut
    cut-collapse = collapse_none (slot_of k t) cut (
        subst (λ s. (t.indirects s.key_offset).next ≢ 0) (sym at_cut)
          (subst (λ o. (t.indirects o).next ≢ 0) (sym next_node)
            (λ e. (h.1.2.2.1).not_null (sym (h.1.2.2.0) ∙ e))))

    erased :
        same_list x.entry.key k ≡ true
        → length ls + 3 < fuel
        → erase A fuel k none t ≡ ok true (uncount_item cut)
    unfolding erase erase_key walk_indirect_list erase_in_chain unlink_node free_pair
    erased same m =
        let a = (h.1.1).aligned in
        let pair = (h.1.1).offset in
        let head : (x.node + 1) / 2 * 2 ≡ x.node = omega (arith, a) in
        let walk = walk_from-Chain A t k fuel 0 x.node (x ∷ y ∷ z ∷ ls) (omega arith) (h.1) in
        rw
          (
            h.0,
            ne→== (x.node + 1) 0 (λ e. omega arith),
            ne→== ((x.node + 1) % 2) 0 (λ e. omega (arith, a)),
            head,
          )
          (rw (walk, locate_here k 0 x (y ∷ z ∷ ls) same)
            (rw
              (
                ne→== x.node 0 (h.1.1).not_null,
                ne→== (t.indirects x.node).key_offset 0 (λ e. (h.1.1).pair.not_null (sym pair ∙ e)),
              )
              (ap (λ u. ok true (uncount_item u)) cut-collapse)))

    -- The erase of the first key of a chain of three or more, whose slot has the key size 0 that the
    -- inserts give it, succeeds and leaves the slot without the tag: no key but the empty one is
    -- found in it any more.
    pub erase_loses :
        (t.slots (slot_of k t)).key_size ≡ 0
        → same_list x.entry.key k ≡ true
        → slot_of key t ≡ slot_of k t
        → length key ≢ 0
        → length ls + 3 < fuel
        → (w : Table A.State) × (erase A fuel k none t ≡ ok true w)
          × (exists A fuel key w ≡ ok false w)
    unfolding exists walk_tables
    erase_loses size same i n m = (
      uncount_item cut,
      erased same m,
      rw (i, at_cut)
          (rw
            (short_slot key cut_slot (uncount_item cut)
              (λ e. (h.1.2.1).not_null (sym next_node ∙ e))
              (omega (arith, next_node, (h.1.2.1).aligned)) size n)
            refl),
    )
