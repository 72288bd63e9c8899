-- ===== src/HashTable/Clear.antt =====
-- clear, and the table that the constructor makes.
use sharedstructures.Base.{
  ℕ, zero, suc, ◌+◌, ◌%◌, ◌/◌, ◌*◌, ◌^◌, ◌<◌, ◌≤◌, ◌≡◌, ◌≢◌, inl, inr, refl, sym, ap, subst, ◌∙◌,
  arith, List, [], ◌∷◌, length, Bool-cases, ◌==◌, ==→eq, ==→ne, eq→==, ne→==, set_at_other, some,
}
use sharedstructures.Outcome.{ok}
use sharedstructures.Allocator.{Allocator}
use sharedstructures.HashTable.Memory.{Slot, Table, empty_slot, set_slot, free_block}
use sharedstructures.HashTable.Update.{free_chain, free_contents, clear_slot, clear_slots, clear}
use sharedstructures.HashTable.Contents.{
  Link, Contents, vacant, direct, chained, links_of, Chain, SlotHolds,
}
use sharedstructures.HashTable.Held.{Held}

module _ (A : Allocator) where
  -- A step that frees blocks and leaves what the pool holds.
  record Freed (t u : Table A.State) : Type 0 where
    bits : u.bits ≡ t.bits
    slots : u.slots ≡ t.slots
    indirects : u.indirects ≡ t.indirects

  Freed-trans : {t u w : Table A.State} → Freed t u → Freed u w → Freed t w
  Freed-trans f g = record {
    bits = g.bits ∙ f.bits;
    slots = g.slots ∙ f.slots;
    indirects = g.indirects ∙ f.indirects;
  }

  free_block-Freed : (r : ℕ) (t : Table A.State) → Freed t (free_block A r t)
  free_block-Freed r t = record { bits = refl; slots = refl; indirects = refl }

  free_chain-Freed :
      (t : Table A.State) (fuel o : ℕ) (ls : List Link) (u : Table A.State)
      → Chain A t o ls
      → length ls < fuel
      → u.indirects ≡ t.indirects
      → (w : Table A.State) × (free_chain A fuel o u ≡ some w) × Freed u w
  unfolding free_chain
  free_chain-Freed t zero o ls u c l e = absurd (omega arith)
  free_chain-Freed t (suc fuel) o [] u c l e =
      (u, rw c refl, record { bits = refl; slots = refl; indirects = refl })
  free_chain-Freed t (suc fuel) o (x ∷ ls) u c l e =
      let v = u.indirects o in
      let u₁ = free_block A v.key_offset u in
      let u₂ = free_block A o u₁ in
      let next : (u.indirects o).next ≡ (t.indirects x.node).next = rw (e, c.0) refl in
      let rest =
        free_chain-Freed t fuel (u.indirects o).next ls u₂
          (subst (λ n. Chain A t n ls) (sym next) (c.2)) (omega arith) e in
      (
        rest.0,
        rw (ne→== o 0 (λ z. (c.1).not_null (sym (c.0) ∙ z))) (rest.1),
        Freed-trans (Freed-trans (free_block-Freed v.key_offset u) (free_block-Freed o u₁))
            (rest.2),
      )

  free_contents-Freed :
      (t : Table A.State) (fuel : ℕ) (s : Slot) (c : Contents) (u : Table A.State)
      → SlotHolds A t s c
      → s.key_offset ≢ 0
      → length (links_of c) < fuel
      → u.indirects ≡ t.indirects
      → (w : Table A.State) × (free_contents A fuel s u ≡ some w) × Freed u w
  unfolding free_contents
  free_contents-Freed t fuel s vacant u h n l e = absurd (n h)
  free_contents-Freed t fuel s (direct x) u h n l e = (
    free_block A s.key_offset u,
    rw (eq→== (s.key_offset % 2) 0 (omega (arith, h.0, (h.2).aligned))) refl,
    free_block-Freed s.key_offset u,
  )
  free_contents-Freed t fuel s (chained []) u h n l e = absurd h
  free_contents-Freed t fuel s (chained (x ∷ ls)) u h n l e =
      let a = (h.1.1).aligned in
      let rest = free_chain-Freed t fuel x.node (x ∷ ls) u (h.1) l e in
      let head : s.key_offset / 2 * 2 ≡ x.node = omega (arith, h.0, a) in
      (rest.0, rw (ne→== (s.key_offset % 2) 0 (λ z. omega (arith, h.0, a)), head) (rest.1), rest.2)

  -- The slots below `i` are empty, the others and the nodes as they were.
  record Clearing (t u : Table A.State) (i : ℕ) : Type 0 where
    bits : u.bits ≡ t.bits
    indirects : u.indirects ≡ t.indirects
    emptied : (j : ℕ) → j < i → (u.slots j).key_offset ≡ 0
    ahead : (j : ℕ) → i ≤ j → u.slots j ≡ t.slots j

  module _ {t : Table A.State} {view : ℕ → Contents} (h : Held A t view) (fuel : ℕ)
      (m : (i : ℕ) → length (links_of (view i)) < fuel) where
    clear_slot-Clearing :
        (i : ℕ) (u : Table A.State)
        → i < 2 ^ t.bits
        → Clearing t u i
        → (w : Table A.State) × (clear_slot A fuel i u ≡ some w) × Clearing t w (i + 1)
    unfolding clear_slot
    clear_slot-Clearing i u l c = elim (Bool-cases ((u.slots i).key_offset == 0)) [
      | inl empty ↦ (
        u,
        rw empty refl,
        record {
          bits = c.bits;
          indirects = c.indirects;
          emptied = λ j k. elim (Bool-cases (j == i)) [
            | inl same ↦ rw (==→eq j i same) (==→eq _ 0 empty)
            | inr other ↦ c.emptied j (let n = ==→ne j i other in omega arith)
          ];
          ahead = λ j k. c.ahead j (omega arith);
        },
      )
      | inr taken ↦
          let e = c.ahead i (omega arith) in
          let f =
            free_contents-Freed t fuel (u.slots i) (view i) u
              (subst (λ s. SlotHolds A t s (view i)) (sym e) (h.slot i l)) (==→ne _ 0 taken) (m i)
              c.indirects in
          (
            set_slot i empty_slot (f.0),
            rw (taken, f.1) refl,
            record {
              bits = (f.2).bits ∙ c.bits;
              indirects = (f.2).indirects ∙ c.indirects;
              emptied = λ j k. elim (Bool-cases (i == j)) [
                | inl same ↦ rw same refl
                | inr other ↦ rw other (
                    ap (λ g. (g j).key_offset) (f.2).slots
                    ∙ c.emptied j (let n = ==→ne i j other in omega arith))
              ];
              ahead = λ j k.
                  set_at_other (f.0).slots i empty_slot j (λ z. omega arith)
                  ∙ ap (λ g. g j) (f.2).slots
                  ∙ c.ahead j (omega arith);
            },
          )
    ]

    clear_slots-Clearing :
        (n i : ℕ) (u : Table A.State)
        → i + n ≡ 2 ^ t.bits
        → Clearing t u i
        → (w : Table A.State) × (clear_slots A fuel n i u ≡ some w) × Clearing t w (2 ^ t.bits)
    unfolding clear_slots
    clear_slots-Clearing zero i u e c = (u, refl, subst (Clearing t u) (omega arith) c)
    clear_slots-Clearing (suc n) i u e c =
        let s = clear_slot-Clearing i u (omega arith) c in
        let r = clear_slots-Clearing n (i + 1) (s.0) (omega arith) (s.2) in
        (r.0, rw (s.1) (r.1), r.2)

    -- `clear` ends, for fuel beyond the length of each chain, and leaves a table of the same slots, all
    -- of them empty, with no items.
    pub clear-Held :
        (w : Table A.State) × (clear A fuel t ≡ ok tt w)
        × (w.bits ≡ t.bits)
        × (w.item_count ≡ 0)
        × Held A w (λ i. vacant)
    unfolding clear
    clear-Held =
        let r = clear_slots-Clearing (2 ^ t.bits) 0 t (omega arith) (record {
          bits = refl;
          indirects = refl;
          emptied = λ j l. absurd (omega arith);
          ahead = λ j l. refl;
        }) in
        (
          record (r.0) { item_count = 0 },
          rw (r.1) refl,
          (r.2).bits,
          refl,
          record {
            slot = λ i l. (r.2).emptied i (subst (λ b. i < 2 ^ b) (r.2).bits l);
            distinct = λ i l. tt;
            apart = λ i j l k d. tt;
          },
        )
