-- ===== src/HashTable/Chains.antt =====
-- A pair put into a chain: in place of the first one with its key, or behind the last node.
use sharedstructures.Base.{
  ◌%◌, ℕ, ◌≡◌, ◌≢◌, ◌⊎◌, inl, inr, refl, sym, ap, subst, ◌∙◌, List, [], ◌∷◌, map, Bool, true, false,
  Bool-cases, if◌then◌else◌,
}
use sharedstructures.Allocator.{Allocator}
use sharedstructures.HashTable.Memory.{Table}
use sharedstructures.HashTable.Contents.{Entry, Link, same_list, NodeAt, Chain}
use sharedstructures.HashTable.Lookup.{locate}
use sharedstructures.HashTable.Frame.{Same, NodeAt-Same}
use sharedstructures.HashTable.Held.{
  Each, Away, Distinct, Among, Each-map, Each-both, Each-Among, Each-self, link_blocks, LiveIn,
  Chain-LiveIn, Chain-Same,
}

abbrev pub put : Entry → List Entry → List Entry
put new [] = new ∷ []
put new (e ∷ es) = if same_list e.key new.key then new ∷ es else e ∷ put new es

abbrev pub entries : List Link → List Entry
entries ls = map (λ l. l.entry) ls

-- A block that is away from old blocks and from new ones is away from what is made of them.
Away-from :
    (Q : ℕ → Type 0) (b : ℕ) (old xs : List ℕ)
    → Away b old
    → ((x : ℕ) → Q x → b ≢ x)
    → Each (λ x. Among x old ⊎ Q x) xs
    → Away b xs
Away-from Q b old xs a q f = Each-map xs away f
  where
    away : (x : ℕ) → Among x old ⊎ Q x → b ≢ x
    away x (inl m) = Each-Among (λ y. b ≢ y) x old a m
    away x (inr h) = q x h

pub locate_here :
    (k : List ℕ) (prev : ℕ) (l : Link) (ls : List Link)
    → same_list l.entry.key k ≡ true
    → locate k prev (l ∷ ls) ≡ (prev, l.node)
locate_here k prev l ls e = rw e refl

pub locate_further :
    (k : List ℕ) (prev : ℕ) (l : Link) (ls : List Link)
    → same_list l.entry.key k ≡ false
    → locate k prev (l ∷ ls) ≡ locate k l.node ls
locate_further k prev l ls e = rw e refl

module _ (A : Allocator) (t w : Table A.State) (new : Entry)
    (newer : (b : ℕ) → LiveIn A t b → b ≢ new.offset) where
  pub locate-Among :
      (k : List ℕ) (prev o : ℕ) (ls : List Link)
      → Chain A t o ls
      → (locate k prev ls).1 ≢ 0
      → Among ((locate k prev ls).1) (link_blocks ls)
        × Among (t.indirects ((locate k prev ls).1)).key_offset (link_blocks ls)
  locate-Among k prev o [] c n = absurd (n refl)
  locate-Among k prev o (l ∷ ls) c n = elim (Bool-cases (same_list l.entry.key k)) [
    | inl same ↦ subst Found (sym (locate_here k prev l ls same)) (inl refl, inr (inl (c.1).offset))
    | inr other ↦
        let e = locate_further k prev l ls other in
        let below =
          locate-Among k l.node (t.indirects l.node).next ls (c.2) (subst (λ p. p.1 ≢ 0) e n) in
        subst Found (sym e) (inr (inr (below.0)), inr (inr (below.1)))
  ]
    where
      Found : ℕ × ℕ → Type 0
      Found p =
          Among (p.1) (link_blocks (l ∷ ls))
          × Among (t.indirects (p.1)).key_offset (link_blocks (l ∷ ls))

  pub locate_apart :
      (k : List ℕ) (prev o : ℕ) (ls : List Link)
      → Chain A t o ls
      → Distinct (link_blocks ls)
      → (locate k prev ls).1 ≢ 0
      → (locate k prev ls).1 ≢ (t.indirects ((locate k prev ls).1)).key_offset
  locate_apart k prev o [] c d n = absurd (n refl)
  locate_apart k prev o (l ∷ ls) c d n = elim (Bool-cases (same_list l.entry.key k)) [
    | inl same ↦
        subst OwnPair (sym (locate_here k prev l ls same)) (λ e. (d.0).0 (e ∙ (c.1).offset))
    | inr other ↦
        let e = locate_further k prev l ls other in
        subst OwnPair (sym e) (
          locate_apart k l.node (t.indirects l.node).next ls (c.2) ((d.1).1)
            (subst (λ p. p.1 ≢ 0) e n))
  ]
    where
      OwnPair : ℕ × ℕ → Type 0
      OwnPair p = p.1 ≢ (t.indirects (p.1)).key_offset

  pub Chain-aligned :
      (o : ℕ) (ls : List Link) → Chain A t o ls → Each (λ b. b % 8 ≡ 0) (link_blocks ls)
  Chain-aligned o [] c = tt
  Chain-aligned o (l ∷ ls) c =
      ((c.1).aligned, ((c.1).pair.aligned, Chain-aligned (t.indirects l.node).next ls (c.2)))

  -- The node `n` gets the new pair.
  pub record Replaced (n off : ℕ) : Type 0 where
    pub kept : (b : ℕ) → LiveIn A t b → b ≢ n → b ≢ off → Same A t w b
    pub node : NodeAt A w (record { node = n; entry = new })
    pub next : (w.indirects n).next ≡ (t.indirects n).next

  -- A chain `ls` became one with the entries `es`, of its blocks and those of which Q holds.
  pub record Becomes (Q : ℕ → Type 0) (o : ℕ) (ls : List Link) (es : List Entry) : Type 0 where
    pub links : List Link
    pub chain : Chain A w o links
    pub spells : entries links ≡ es
    pub distinct : Distinct (link_blocks links)
    pub from : Each (λ b. Among b (link_blocks ls) ⊎ Q b) (link_blocks links)

  -- The first node stays.
  pub Becomes-cons :
      (Q : ℕ → Type 0) (l : Link) (ls : List Link) (es : List Entry) {o : ℕ}
      → o ≡ l.node
      → NodeAt A w l
      → ((x : ℕ) → Q x → (l.node ≢ x) × (l.entry.offset ≢ x))
      → Distinct (link_blocks (l ∷ ls))
      → Becomes Q (w.indirects l.node).next ls es
      → Becomes Q o (l ∷ ls) (l.entry ∷ es)
  Becomes-cons Q l ls es e n q d r = record {
    links = l ∷ r.links;
    chain = (e, n, r.chain);
    spells = ap (λ xs. l.entry ∷ xs) r.spells;
    distinct = (
      (
        (d.0).0,
        Away-from Q l.node (link_blocks ls) (link_blocks r.links) ((d.0).1) (λ x h. (q x h).0)
            r.from,
      ),
      (
        Away-from Q l.entry.offset (link_blocks ls) (link_blocks r.links) ((d.1).0)
            (λ x h. (q x h).1) r.from,
        r.distinct,
      ),
    );
    from = (inl (inl refl), (inl (inr (inl refl)), Each-map (link_blocks r.links) deeper r.from));
  }
    where
      deeper : (x : ℕ) → Among x (link_blocks ls) ⊎ Q x → Among x (link_blocks (l ∷ ls)) ⊎ Q x
      deeper x (inl m) = inl (inr (inr m))
      deeper x (inr h) = inr h

  module _ (n off : ℕ) (r : Replaced n off) where
    replaced-head :
        (l : Link) (ls : List Link) {o : ℕ}
        → Chain A t o (l ∷ ls)
        → Distinct (link_blocks (l ∷ ls))
        → l.node ≡ n
        → l.entry.offset ≡ off
        → Becomes (λ x. x ≡ new.offset) o (l ∷ ls) (new ∷ entries ls)
    replaced-head l ls c d e f = record {
      links = record { node = n; entry = new } ∷ ls;
      chain = (
        c.0 ∙ e,
        r.node,
        subst (λ x. Chain A w x ls) (ap (λ x. (t.indirects x).next) e ∙ sym r.next)
            (Chain-Same A t w (t.indirects l.node).next ls (c.2) same),
      );
      spells = refl;
      distinct = (
        (
          subst (λ x. x ≢ new.offset) e (newer l.node (c.1).live),
          subst (λ x. Away x (link_blocks ls)) e ((d.0).1),
        ),
        (Each-map (link_blocks ls) (λ b v z. newer b v (sym z)) live, (d.1).1),
      );
      from = (
        inl (inl (sym e)),
        (
          inr refl,
          Each-map (link_blocks ls) (λ b m. inl (inr (inr m))) (Each-self (link_blocks ls)),
        ),
      );
    }
      where
        live : Each (LiveIn A t) (link_blocks ls)
        live = Chain-LiveIn A t (t.indirects l.node).next ls (c.2)

        same : Each (Same A t w) (link_blocks ls)
        same =
            Each-map (link_blocks ls)
              (λ b p. r.kept b (p.0) (λ z. (p.1).0 (e ∙ sym z)) (λ z. (p.1).1 (f ∙ sym z)))
              (Each-both (LiveIn A t) (λ b. (l.node ≢ b) × (l.entry.offset ≢ b)) (link_blocks ls)
                live
                (Each-both (λ b. l.node ≢ b) (λ b. l.entry.offset ≢ b) (link_blocks ls) ((d.0).1)
                  ((d.1).0)))

    pub Replaced-Becomes :
        (prev o : ℕ) (ls : List Link)
        → Chain A t o ls
        → Distinct (link_blocks ls)
        → (locate new.key prev ls).1 ≡ n
        → n ≢ 0
        → (t.indirects n).key_offset ≡ off
        → Becomes (λ x. x ≡ new.offset) o ls (put new (entries ls))
    Replaced-Becomes prev o [] c d e z f = absurd (z (sym e))
    Replaced-Becomes prev o (l ∷ ls) c d e z f = elim (Bool-cases (same_list l.entry.key new.key)) [
      | inl same ↦
          let e₁ : l.node ≡ n = sym (ap found_of same) ∙ e in
          rw same (
            replaced-head l ls c d e₁
              (sym (c.1).offset ∙ ap (λ x. (t.indirects x).key_offset) e₁ ∙ f))
      | inr other ↦
          let e₂ : (locate new.key l.node ls).1 ≡ n = sym (ap found_of other) ∙ e in
          rw other (
            further e₂
              (Replaced-Becomes l.node (t.indirects l.node).next ls (c.2) ((d.1).1) e₂ z f))
    ]
      where
        found_of : Bool → ℕ
        found_of b = (if b then (prev, l.node) else locate new.key l.node ls).1

        further :
            (locate new.key l.node ls).1 ≡ n
            → Becomes (λ x. x ≡ new.offset) (t.indirects l.node).next ls (put new (entries ls))
            → Becomes (λ x. x ≡ new.offset) o (l ∷ ls) (l.entry ∷ put new (entries ls))
        further e₂ b =
            let m =
              locate-Among new.key l.node (t.indirects l.node).next ls (c.2)
                (λ x. z (sym e₂ ∙ x)) in
            let n_in : Among n (link_blocks ls) = subst (λ x. Among x (link_blocks ls)) e₂ (m.0) in
            let off_in : Among off (link_blocks ls) =
              subst (λ x. Among x (link_blocks ls)) (ap (λ x. (t.indirects x).key_offset) e₂ ∙ f)
                (m.1) in
            let s =
              r.kept l.node (c.1).live
                (Each-Among (λ x. l.node ≢ x) n (link_blocks ls) ((d.0).1) n_in)
                (Each-Among (λ x. l.node ≢ x) off (link_blocks ls) ((d.0).1) off_in) in
            let s' =
              r.kept l.entry.offset (c.1).pair.live
                (Each-Among (λ x. l.entry.offset ≢ x) n (link_blocks ls) ((d.1).0) n_in)
                (Each-Among (λ x. l.entry.offset ≢ x) off (link_blocks ls) ((d.1).0) off_in) in
            Becomes-cons (λ x. x ≡ new.offset) l ls (put new (entries ls)) (c.0)
              (NodeAt-Same A (c.1) s s')
              (λ x h. (
                (λ q. newer l.node (c.1).live (q ∙ h)),
                (λ q. newer l.entry.offset (c.1).pair.live (q ∙ h)),
              ))
              d
              (subst (λ x. Becomes (λ x. x ≡ new.offset) x ls (put new (entries ls)))
                (ap (λ v. v.next) (sym s.node)) b)
