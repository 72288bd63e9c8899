-- ===== src/HashTable/Lookup.antt =====
-- exists, at and get_slot_contents, and the walk along a chain.
use sharedstructures.Base.{
  ℕ, zero, suc, ◌+◌, ◌*◌, ◌/◌, ◌%◌, ◌<◌, ◌≡◌, ◌≢◌, refl, ap, arith, Bool, true, false, ◌==◌, ne→==,
  eq→==, if◌then◌else◌, Bool-cases, inl, inr, List, [], ◌∷◌, length, Option, none, some, map,
}
use sharedstructures.Outcome.{Outcome, ok, fail, out_of_range}
use sharedstructures.Allocator.{Allocator}
use sharedstructures.HashTable.Memory.{Slot, Table, read_bytes, key_matches, value_size, slot_of}
use sharedstructures.HashTable.Walk.{
  walk_from, walk_indirect_list, value_of, walk_slot, walk_tables, exists, at, pair_at, at_outcome,
  exists_outcome, chain_contents, get_slot_contents,
}
use sharedstructures.HashTable.Contents.{
  Entry, Link, Contents, vacant, direct, chained, entries_of, links_of, same_list, find, PairAt,
  NodeAt, Chain, SlotHolds, Spells-append, read_bytes-Spells, key_matches-Spells,
}

-- The node in front of the first one with the key, and this one.
abbrev pub locate : List ℕ → ℕ → List Link → ℕ × ℕ
locate k prev [] = (prev, 0)
locate k prev (l ∷ ls) = if same_list l.entry.key k then (prev, l.node) else locate k l.node ls

module _ (A : Allocator) (t : Table A.State) where
  pub PairAt-value :
      (e : Entry) (o n : ℕ)
      → PairAt A t e
      → o ≡ e.offset
      → n ≡ length e.key
      → (value_size A o n t ≡ length e.value) × (pair_at A o n t ≡ (e.key, e.value))
  PairAt-value e o n p a b =
      let s = Spells-append t.bytes e.offset e.key e.value p.spelled in
      let z : value_size A o n t ≡ length e.value = rw (a, b) (omega (arith, p.sized, p.small)) in
      (
        z,
        rw (z, a, b)
            (rw
              (
                read_bytes-Spells t.bytes e.offset e.key (s.0),
                read_bytes-Spells t.bytes (e.offset + length e.key) e.value (s.1),
              )
              refl),
      )

  pub PairAt-matches :
      (e : Entry) (k : List ℕ) (o n : ℕ)
      → PairAt A t e
      → o ≡ e.offset
      → n ≡ length e.key
      → key_matches t.bytes o n k ≡ same_list e.key k
  PairAt-matches e k o n p a b = rw a (
      key_matches-Spells t.bytes e.offset n e.key k b
        (Spells-append t.bytes e.offset e.key e.value p.spelled).0)

  NodeAt-matches :
      (l : Link) (k : List ℕ)
      → NodeAt A t l
      → key_matches t.bytes (t.indirects l.node).key_offset (t.indirects l.node).key_size k
        ≡ same_list l.entry.key k
  NodeAt-matches l k n = PairAt-matches l.entry k _ _ n.pair n.offset n.size

  -- With a round for each node and one more a walk ends where the chain says.
  pub walk_from-Chain :
      (k : List ℕ) (fuel prev o : ℕ) (ls : List Link)
      → length ls < fuel
      → Chain A t o ls
      → walk_from k t fuel prev o ≡ some (locate k prev ls)
  unfolding walk_from
  walk_from-Chain k zero prev o ls l c = absurd (omega arith)
  walk_from-Chain k (suc fuel) prev o [] l c = rw c refl
  walk_from-Chain k (suc fuel) prev o (x ∷ ls) l c =
      let rest = walk_from-Chain k fuel x.node (t.indirects x.node).next ls (omega arith) (c.2) in
      rw (c.0, ne→== x.node 0 (c.1).not_null, NodeAt-matches x k (c.1), rest) (ground arith)

  -- A walk's answer for the value looked for: none, or where it stands.
  abbrev pub Finds : Option (List ℕ) → ℕ × ℕ → Type 0
  Finds none r = r.0 ≡ 0
  Finds (some v) r = (r.0 ≢ 0) × (read_bytes t.bytes (r.1) (r.0) ≡ v)

  pub PairAt-Finds :
      (e : Entry) (o n : ℕ)
      → PairAt A t e
      → o ≡ e.offset
      → n ≡ length e.key
      → Finds (some e.value) (value_of A o n t)
  PairAt-Finds e o n p a b =
      let v = PairAt-value e o n p a b in
      let ne = p.not_null in (λ z. ne (omega arith), ap (λ x. x.1) (v.1))

  abbrev found_value : ℕ × ℕ → ℕ × ℕ
  found_value (prev, found) =
      if found == 0
      then (0, 0)
      else value_of A (t.indirects found).key_offset (t.indirects found).key_size t

  locate-Finds :
      (k : List ℕ) (prev o : ℕ) (ls : List Link)
      → Chain A t o ls
      → Finds (find k (map (λ l. l.entry) ls)) (found_value (locate k prev ls))
  locate-Finds k prev o [] c = refl
  locate-Finds k prev o (x ∷ ls) c = elim (Bool-cases (same_list x.entry.key k)) [
    | inl same ↦
        rw (same, ne→== x.node 0 (c.1).not_null)
          (PairAt-Finds x.entry _ _ (c.1).pair (c.1).offset (c.1).size)
    | inr other ↦ rw other (locate-Finds k x.node (t.indirects x.node).next ls (c.2))
  ]

  pub walk_slot-Finds :
      (fuel : ℕ) (k : List ℕ) (s : Slot) (c : Contents)
      → SlotHolds A t s c
      → length (links_of c) < fuel
      → (r : ℕ × ℕ) × (walk_slot A fuel k s t ≡ some r) × Finds (find k (entries_of c)) r
  unfolding walk_slot walk_indirect_list
  walk_slot-Finds fuel k s vacant h l = ((0, 0), rw h refl, refl)
  walk_slot-Finds fuel k s (direct e) h l =
      let p = h.2 in
      let off : (e.offset == 0) ≡ false = ne→== e.offset 0 p.not_null in
      let even : (e.offset % 2 == 0) ≡ true = eq→== (e.offset % 2) 0 (omega (arith, p.aligned)) in
      elim (Bool-cases (same_list e.key k)) [
        | inl same ↦ (
          value_of A s.key_offset s.key_size t,
          rw (PairAt-matches e k _ _ p (h.0) (h.1), h.0, off, even, same) refl,
          rw same (PairAt-Finds e _ _ p (h.0) (h.1)),
        )
        | inr other ↦ (
          (0, 0),
          rw (PairAt-matches e k _ _ p (h.0) (h.1), h.0, off, even, other) refl,
          rw other refl,
        )
      ]
  walk_slot-Finds fuel k s (chained []) h l = absurd h
  walk_slot-Finds fuel k s (chained (x ∷ ls)) h l =
      let n = (h.1.1).not_null in
      let a = (h.1.1).aligned in
      let off : (x.node + 1 == 0) ≡ false = ne→== (x.node + 1) 0 (λ z. omega arith) in
      let odd : ((x.node + 1) % 2 == 0) ≡ false =
        ne→== ((x.node + 1) % 2) 0 (λ z. omega (arith, a)) in
      let un : (x.node + 1) / 2 * 2 ≡ x.node = omega (arith, a) in
      (
        found_value (locate k 0 (x ∷ ls)),
        rw (h.0, off, odd, un) (rw (walk_from-Chain k fuel 0 x.node (x ∷ ls) l (h.1)) refl),
        locate-Finds k 0 x.node (x ∷ ls) (h.1),
      )

  -- What `at` and `exists` are to give for the value of the key.
  abbrev pub found_outcome : Option (List ℕ) → Outcome (Table A.State) (List ℕ)
  found_outcome none = fail out_of_range t
  found_outcome (some v) = ok v t

  abbrev pub is_some : Option (List ℕ) → Bool
  is_some none = false
  is_some (some v) = true

  Finds-outcomes :
      (o : Option (List ℕ)) (r : ℕ × ℕ)
      → Finds o r
      → (at_outcome A t (some r) ≡ found_outcome o)
        × (exists_outcome A t (some r) ≡ ok (is_some o) t)
  Finds-outcomes none r h = rw h (refl, refl)
  Finds-outcomes (some v) r h = rw (ne→== (r.0) 0 (h.0), h.1) (refl, refl)

  -- Where the slot of a key holds `c`, and a walk has a round for each node of a chain and one more,
  -- `at` gives the value of the first entry with the key, out_of_range if there is none, `exists` says
  -- whether there is one, and both leave the table as it is.
  pub at-Finds :
      (fuel : ℕ) (k : List ℕ) (c : Contents)
      → SlotHolds A t (t.slots (slot_of k t)) c
      → length (links_of c) < fuel
      → (at A fuel k t ≡ found_outcome (find k (entries_of c)))
        × (exists A fuel k t ≡ ok (is_some (find k (entries_of c))) t)
  unfolding at exists walk_tables
  at-Finds fuel k c h l =
      let w = walk_slot-Finds fuel k (t.slots (slot_of k t)) c h l in
      let f = Finds-outcomes (find k (entries_of c)) (w.0) (w.2) in rw (w.1) f

  abbrev pub pairs_of : List Entry → List (List ℕ × List ℕ)
  pairs_of es = map (λ e. (e.key, e.value)) es

  chain_contents-Chain :
      (fuel o : ℕ) (ls : List Link)
      → length ls < fuel
      → Chain A t o ls
      → chain_contents A fuel o t ≡ some (pairs_of (map (λ l. l.entry) ls))
  unfolding chain_contents
  chain_contents-Chain zero o ls l c = absurd (omega arith)
  chain_contents-Chain (suc fuel) o [] l c = rw c refl
  chain_contents-Chain (suc fuel) o (x ∷ ls) l c =
      let rest = chain_contents-Chain fuel (t.indirects x.node).next ls (omega arith) (c.2) in
      rw
        (
          c.0,
          ne→== x.node 0 (c.1).not_null,
          rest,
          (PairAt-value x.entry _ _ (c.1).pair (c.1).offset (c.1).size).1,
        )
        refl

  -- The contents of a slot are its keys with their values, in the order of the chain.
  pub get_slot_contents-SlotHolds :
      (fuel i : ℕ) (c : Contents)
      → SlotHolds A t (t.slots i) c
      → length (links_of c) < fuel
      → get_slot_contents A fuel i t ≡ some (pairs_of (entries_of c))
  unfolding get_slot_contents
  get_slot_contents-SlotHolds fuel i vacant h l = rw h refl
  get_slot_contents-SlotHolds fuel i (direct e) h l =
      let p = h.2 in
      rw
        (
          (PairAt-value e _ _ p (h.0) (h.1)).1,
          h.0,
          ne→== e.offset 0 p.not_null,
          eq→== (e.offset % 2) 0 (omega (arith, p.aligned)),
        )
        refl
  get_slot_contents-SlotHolds fuel i (chained []) h l = absurd h
  get_slot_contents-SlotHolds fuel i (chained (x ∷ ls)) h l =
      let a = (h.1.1).aligned in
      let un : (x.node + 1) / 2 * 2 ≡ x.node = omega (arith, a) in
      rw
        (
          h.0,
          ne→== (x.node + 1) 0 (λ z. omega arith),
          ne→== ((x.node + 1) % 2) 0 (λ z. omega (arith, a)),
          un,
        )
        (chain_contents-Chain fuel x.node (x ∷ ls) l (h.1))
