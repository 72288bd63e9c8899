-- ===== src/HashTable/Appended.antt =====
-- A pair put behind the last node of a chain.
use sharedstructures.Base.{
  ℕ, ◌≡◌, ◌≢◌, ◌⊎◌, inl, inr, refl, sym, ap, subst, ◌∙◌, List, [], ◌∷◌, Bool-cases,
}
use sharedstructures.Allocator.{Allocator}
use sharedstructures.HashTable.Memory.{Table}
use sharedstructures.HashTable.Contents.{Entry, Link, same_list, NodeAt, Chain}
use sharedstructures.HashTable.Lookup.{locate}
use sharedstructures.HashTable.Frame.{Same, PairAt-Same, NodeAt-Same}
use sharedstructures.HashTable.Held.{Distinct, Among, Each-Among, link_blocks, LiveIn}
use sharedstructures.HashTable.Chains.{
  put, entries, locate_here, locate_further, Becomes, Becomes-cons,
}

module _ (A : Allocator) (t w : Table A.State) (new : Entry)
    (newer : (b : ℕ) → LiveIn A t b → b ≢ new.offset) where
  -- The last node is linked to a new one, which has the new pair.
  pub record Appended (last created : ℕ) : Type 0 where
    pub kept : (b : ℕ) → LiveIn A t b → b ≢ last → Same A t w b
    pub lives : LiveIn A t last → LiveIn A w last
    pub offset : (w.indirects last).key_offset ≡ (t.indirects last).key_offset
    pub size : (w.indirects last).key_size ≡ (t.indirects last).key_size
    pub next : (w.indirects last).next ≡ created
    pub node : NodeAt A w (record { node = created; entry = new })
    pub end_of : (w.indirects created).next ≡ 0
    pub unused : (b : ℕ) → LiveIn A t b → b ≢ created
    pub own : created ≢ new.offset

  last-Among :
      (k : List ℕ) (prev o : ℕ) (ls : List Link)
      → Chain A t o ls
      → (locate k prev ls).1 ≡ 0
      → ((locate k prev ls).0 ≡ prev) ⊎ Among ((locate k prev ls).0) (link_blocks ls)
  last-Among k prev o [] c e = inl refl
  last-Among k prev o (l ∷ ls) c e = elim (Bool-cases (same_list l.entry.key k)) [
    | inl same ↦ absurd ((c.1).not_null (sym (ap (λ p. p.1) (locate_here k prev l ls same)) ∙ e))
    | inr other ↦
        let f = locate_further k prev l ls other in
        subst (λ p. (p.0 ≡ prev) ⊎ Among (p.0) (link_blocks (l ∷ ls))) (sym f)
          (deeper
            (last-Among k l.node (t.indirects l.node).next ls (c.2) (sym (ap (λ p. p.1) f) ∙ e)))
  ]
    where
      deeper :
          {x : ℕ}
          → (x ≡ l.node) ⊎ Among x (link_blocks ls)
          → (x ≡ prev) ⊎ Among x (link_blocks (l ∷ ls))
      deeper (inl h) = inr (inl h)
      deeper (inr m) = inr (inr (inr m))

  pub last_in-Chain :
      (k : List ℕ) (prev o : ℕ) (l : Link) (ls : List Link)
      → Chain A t o (l ∷ ls)
      → (locate k prev (l ∷ ls)).1 ≡ 0
      → Among ((locate k prev (l ∷ ls)).0) (link_blocks (l ∷ ls))
  last_in-Chain k prev o l ls c e = elim (Bool-cases (same_list l.entry.key k)) [
    | inl same ↦ absurd ((c.1).not_null (sym (ap (λ p. p.1) (locate_here k prev l ls same)) ∙ e))
    | inr other ↦
        let f = locate_further k prev l ls other in
        subst (λ p. Among (p.0) (link_blocks (l ∷ ls))) (sym f)
          (deeper
            (last-Among k l.node (t.indirects l.node).next ls (c.2) (sym (ap (λ p. p.1) f) ∙ e)))
  ]
    where
      deeper : {x : ℕ} → (x ≡ l.node) ⊎ Among x (link_blocks ls) → Among x (link_blocks (l ∷ ls))
      deeper (inl h) = inl h
      deeper (inr m) = inr (inr m)

  module _ (last created : ℕ) (a : Appended last created) where
    abbrev IsNew : ℕ → Type 0
    IsNew x = (x ≡ new.offset) ⊎ (x ≡ created)

    old-IsNew : (b : ℕ) → LiveIn A t b → (x : ℕ) → IsNew x → b ≢ x
    old-IsNew b v x (inl h) e = newer b v (e ∙ h)
    old-IsNew b v x (inr h) e = a.unused b v (e ∙ h)

    appended-last :
        (l : Link) {o : ℕ}
        → Chain A t o (l ∷ [])
        → Distinct (link_blocks (l ∷ []))
        → l.node ≡ last
        → Becomes A t w new newer IsNew o (l ∷ []) (l.entry ∷ new ∷ [])
    appended-last l c d e = record {
      links = l ∷ record { node = created; entry = new } ∷ [];
      chain = (
        c.0,
        record {
          not_null = (c.1).not_null;
          aligned = (c.1).aligned;
          live = subst (λ x. LiveIn A t x → LiveIn A w x) (sym e) a.lives (c.1).live;
          offset =
              at_last (λ x. (w.indirects x).key_offset ≡ (t.indirects x).key_offset) a.offset
              ∙ (c.1).offset;
          size =
              at_last (λ x. (w.indirects x).key_size ≡ (t.indirects x).key_size) a.size
              ∙ (c.1).size;
          pair =
              PairAt-Same A (c.1).pair
                (a.kept l.entry.offset (c.1).pair.live (λ z. (d.0).0 (e ∙ sym z)));
        },
        (at_last (λ x. (w.indirects x).next ≡ created) a.next, a.node, a.end_of),
      );
      spells = refl;
      distinct = (
        ((d.0).0, (a.unused l.node (c.1).live, (newer l.node (c.1).live, tt))),
        (
          (a.unused l.entry.offset (c.1).pair.live, (newer l.entry.offset (c.1).pair.live, tt)),
          ((a.own, tt), (tt, tt)),
        ),
      );
      from = (inl (inl refl), (inl (inr (inl refl)), (inr (inr refl), (inr (inl refl), tt))));
    }
      where
        at_last : (P : ℕ → Type 0) → P last → P l.node
        at_last P p = subst P (sym e) p

    pub Appended-Becomes :
        (prev o : ℕ) (l : Link) (ls : List Link)
        → Chain A t o (l ∷ ls)
        → Distinct (link_blocks (l ∷ ls))
        → locate new.key prev (l ∷ ls) ≡ (last, 0)
        → Becomes A t w new newer IsNew o (l ∷ ls) (put new (entries (l ∷ ls)))
    Appended-Becomes prev o l [] c d e = elim (Bool-cases (same_list l.entry.key new.key)) [
      | inl same ↦
          absurd ((c.1).not_null (ap (λ p. p.1) (sym (locate_here new.key prev l [] same) ∙ e)))
      | inr other ↦
          rw other
            (appended-last l c d (ap (λ p. p.0) (sym (locate_further new.key prev l [] other) ∙ e)))
    ]
    Appended-Becomes prev o l (y ∷ ys) c d e = elim (Bool-cases (same_list l.entry.key new.key)) [
      | inl same ↦
          absurd
            ((c.1).not_null (ap (λ p. p.1) (sym (locate_here new.key prev l (y ∷ ys) same) ∙ e)))
      | inr other ↦
          let e₂ = sym (locate_further new.key prev l (y ∷ ys) other) ∙ e in
          rw other
            (further (Appended-Becomes l.node (t.indirects l.node).next y ys (c.2) ((d.1).1) e₂) e₂)
    ]
      where
        last_in : locate new.key l.node (y ∷ ys) ≡ (last, 0) → Among last (link_blocks (y ∷ ys))
        last_in e₂ =
            subst (λ x. Among x (link_blocks (y ∷ ys))) (ap (λ p. p.0) e₂)
              (last_in-Chain new.key l.node (t.indirects l.node).next y ys (c.2) (ap (λ p. p.1) e₂))

        further :
            Becomes A t w new newer IsNew
              (t.indirects l.node).next
              (y ∷ ys)
              (put new (entries (y ∷ ys)))
            → locate new.key l.node (y ∷ ys) ≡ (last, 0)
            → Becomes A t w new newer IsNew o (l ∷ y ∷ ys) (l.entry ∷ put new (entries (y ∷ ys)))
        further b e₂ =
            let s =
              a.kept l.node (c.1).live
                (Each-Among (λ x. l.node ≢ x) last (link_blocks (y ∷ ys)) ((d.0).1) (last_in e₂)) in
            let s' = a.kept l.entry.offset (c.1).pair.live (
              Each-Among (λ x. l.entry.offset ≢ x) last (link_blocks (y ∷ ys)) ((d.1).0)
                (last_in e₂)) in
            Becomes-cons A t w new newer IsNew l (y ∷ ys) (put new (entries (y ∷ ys))) (c.0)
              (NodeAt-Same A (c.1) s s')
              (λ x h.
                (old-IsNew l.node (c.1).live x h, old-IsNew l.entry.offset (c.1).pair.live x h))
              d
              (subst (λ x. Becomes A t w new newer IsNew x (y ∷ ys) (put new (entries (y ∷ ys))))
                (ap (λ v. v.next) (sym s.node)) b)
