-- ===== src/HashTable/Held.antt =====
-- A table whose slots hold given contents, in blocks of their own, and a change at one slot.
use sharedstructures.Base.{
  ℕ, ◌^◌, ◌<◌, ◌≡◌, ◌≢◌, ◌⊎◌, inl, inr, refl, sym, ap, subst, List, [], ◌∷◌, set_at_all, set_at,
  set_at_other,
}
use sharedstructures.Allocator.{Allocator}
use sharedstructures.HashTable.Memory.{Slot, Table}
use sharedstructures.HashTable.Contents.{Link, Contents, vacant, direct, chained, Chain, SlotHolds}
use sharedstructures.HashTable.Frame.{Same, PairAt-Same, NodeAt-Same}
pub use sharedstructures.Base.{Each, Away, Distinct}

abbrev pub Apart : List ℕ → List ℕ → Type 0
Apart xs ys = Each (λ x. Away x ys) xs

abbrev pub Among : ℕ → List ℕ → Type 0
Among b [] = ⊥
Among b (x ∷ xs) = (b ≡ x) ⊎ Among b xs

pub Each-map : {P Q : ℕ → Type 0} (xs : List ℕ) → ((b : ℕ) → P b → Q b) → Each P xs → Each Q xs
Each-map [] f h = tt
Each-map (x ∷ xs) f h = (f x (h.0), Each-map xs f (h.1))

pub Each-both : (P Q : ℕ → Type 0) (xs : List ℕ) → Each P xs → Each Q xs → Each (λ b. P b × Q b) xs
Each-both P Q [] h k = tt
Each-both P Q (x ∷ xs) h k = ((h.0, k.0), Each-both P Q xs (h.1) (k.1))

pub Each-Among : (P : ℕ → Type 0) (b : ℕ) (xs : List ℕ) → Each P xs → Among b xs → P b
Each-Among P b (x ∷ xs) h (inl e) = subst P (sym e) (h.0)
Each-Among P b (x ∷ xs) h (inr m) = Each-Among P b xs (h.1) m
Each-Among P b [] h m = absurd m

pub Each-self : (xs : List ℕ) → Each (λ b. Among b xs) xs
Each-self [] = tt
Each-self (x ∷ xs) = (inl refl, Each-map xs (λ b m. inr m) (Each-self xs))

pub Away-sym : (b : ℕ) (xs : List ℕ) → Away b xs → Each (λ x. x ≢ b) xs
Away-sym b xs h = Each-map xs (λ x n e. n (sym e)) h

pub Apart-sym : (xs ys : List ℕ) → Apart xs ys → Apart ys xs
Apart-sym [] [] h = tt
Apart-sym [] (y ∷ ys) h = (tt, Apart-sym [] ys tt)
Apart-sym (x ∷ xs) ys h =
    Each-map ys (λ y p. (p.0, p.1))
      (Each-both (λ y. y ≢ x) (λ y. Away y xs) ys (Away-sym x ys (h.0)) (Apart-sym xs ys (h.1)))

abbrev pub link_blocks : List Link → List ℕ
link_blocks [] = []
link_blocks (l ∷ ls) = l.node ∷ l.entry.offset ∷ link_blocks ls

abbrev pub blocks_of : Contents → List ℕ
blocks_of vacant = []
blocks_of (direct e) = e.offset ∷ []
blocks_of (chained ls) = link_blocks ls

module _ (A : Allocator) where
  abbrev pub LiveIn : Table A.State → ℕ → Type 0
  LiveIn t b = A.In t.alloc b b

  pub Chain-LiveIn :
      (t : Table A.State) (o : ℕ) (ls : List Link)
      → Chain A t o ls
      → Each (LiveIn t) (link_blocks ls)
  Chain-LiveIn t o [] c = tt
  Chain-LiveIn t o (l ∷ ls) c =
      ((c.1).live, ((c.1).pair.live, Chain-LiveIn t (t.indirects l.node).next ls (c.2)))

  pub Chain-Same :
      (t u : Table A.State) (o : ℕ) (ls : List Link)
      → Chain A t o ls
      → Each (Same A t u) (link_blocks ls)
      → Chain A u o ls
  Chain-Same t u o [] c s = c
  Chain-Same t u o (l ∷ ls) c s = (
    c.0,
    NodeAt-Same A (c.1) (s.0) (s.1.0),
    subst (λ x. Chain A u x ls) (ap (λ v. v.next) (sym (s.0).node))
        (Chain-Same t u (t.indirects l.node).next ls (c.2) (s.1.1)),
  )

  pub SlotHolds-LiveIn :
      (t : Table A.State) (s : Slot) (c : Contents)
      → SlotHolds A t s c
      → Each (LiveIn t) (blocks_of c)
  SlotHolds-LiveIn t s vacant h = tt
  SlotHolds-LiveIn t s (direct e) h = ((h.2).live, tt)
  SlotHolds-LiveIn t s (chained []) h = tt
  SlotHolds-LiveIn t s (chained (l ∷ ls)) h = Chain-LiveIn t l.node (l ∷ ls) (h.1)

  pub SlotHolds-Same :
      (t u : Table A.State) (s : Slot) (c : Contents)
      → SlotHolds A t s c
      → Each (Same A t u) (blocks_of c)
      → SlotHolds A u s c
  SlotHolds-Same t u s vacant h k = h
  SlotHolds-Same t u s (direct e) h k = (h.0, h.1, PairAt-Same A (h.2) (k.0))
  SlotHolds-Same t u s (chained []) h k = h
  SlotHolds-Same t u s (chained (l ∷ ls)) h k = (h.0, Chain-Same t u l.node (l ∷ ls) (h.1) k)

  -- Each slot holds its contents, and no block serves twice.
  pub record Held (t : Table A.State) (view : ℕ → Contents) : Type 0 where
    pub slot : (i : ℕ) → i < 2 ^ t.bits → SlotHolds A t (t.slots i) (view i)
    pub distinct : (i : ℕ) → i < 2 ^ t.bits → Distinct (blocks_of (view i))
    pub apart :
        (i j : ℕ)
        → i < 2 ^ t.bits
        → j < 2 ^ t.bits
        → i ≢ j
        → Apart (blocks_of (view i)) (blocks_of (view j))

  -- From `t` to `u` the slot `i` comes to hold `c` in place of `old`, in blocks of it and new ones,
  -- and other blocks stay.
  pub record Changed (t u : Table A.State) (i : ℕ) (old c : Contents) : Type 0 where
    pub bits : u.bits ≡ t.bits
    pub others : (j : ℕ) → i ≢ j → u.slots j ≡ t.slots j
    pub slot : SlotHolds A u (u.slots i) c
    pub distinct : Distinct (blocks_of c)
    pub from : Each (λ b. Among b (blocks_of old) ⊎ ¬ LiveIn t b) (blocks_of c)
    pub kept : (b : ℕ) → LiveIn t b → Away b (blocks_of old) → Same A t u b

  module _ {t u : Table A.State} {view : ℕ → Contents} (h : Held t view) (i : ℕ)
      (l : i < 2 ^ t.bits) {c : Contents} (k : Changed t u i (view i) c) where
    fits : {j : ℕ} → j < 2 ^ u.bits → j < 2 ^ t.bits
    fits {j} m = subst (λ b. j < 2 ^ b) k.bits m

    new-Apart : (j : ℕ) → j < 2 ^ t.bits → i ≢ j → Apart (blocks_of c) (blocks_of (view j))
    new-Apart j m d = Each-map (blocks_of c) (λ b f. away b f) k.from
      where
        away : (b : ℕ) → Among b (blocks_of (view i)) ⊎ ¬ LiveIn t b → Away b (blocks_of (view j))
        away b (inl a) =
            Each-Among (λ b. Away b (blocks_of (view j))) b (blocks_of (view i)) (h.apart i j l m d)
              a
        away b (inr n) =
            Each-map (blocks_of (view j)) (λ x v e. n (subst (LiveIn t) (sym e) v))
              (SlotHolds-LiveIn t (t.slots j) (view j) (h.slot j m))

    other-Same : (j : ℕ) → j < 2 ^ t.bits → i ≢ j → Each (Same A t u) (blocks_of (view j))
    other-Same j m d =
        Each-map (blocks_of (view j)) (λ b p. k.kept b (p.0) (p.1))
          (Each-both (LiveIn t) (λ b. Away b (blocks_of (view i))) (blocks_of (view j))
            (SlotHolds-LiveIn t (t.slots j) (view j) (h.slot j m))
            (h.apart j i m l (λ e. d (sym e))))

    pub Held-Changed : Held u (set_at view i c)
    Held-Changed = record {
      slot =
          set_at_all (λ j x. j < 2 ^ u.bits → SlotHolds A u (u.slots j) x) view i c (λ m. k.slot)
            (λ j d m. rw (k.others j d) (
              SlotHolds-Same t u (t.slots j) (view j) (h.slot j (fits m))
                (other-Same j (fits m) d)));
      distinct =
          set_at_all (λ j x. j < 2 ^ u.bits → Distinct (blocks_of x)) view i c (λ m. k.distinct)
            (λ j d m. h.distinct j (fits m));
      apart = λ a b m n d.
          set_at_all
            (λ a x. a < 2 ^ u.bits → a ≢ b → Apart (blocks_of x) (blocks_of (set_at view i c b)))
            view i c (λ _ e. rw (set_at_other view i c b e) (new-Apart b (fits n) e))
            (λ a e m ab.
              set_at_all (λ b x. b < 2 ^ u.bits → a ≢ b → Apart (blocks_of (view a)) (blocks_of x))
                view i c
                (λ _ _. Apart-sym (blocks_of c) (blocks_of (view a)) (new-Apart a (fits m) e))
                (λ b f n ab. h.apart a b (fits m) (fits n) ab) b n ab)
            a m d;
    }

  -- A step that changes no slot and no block in use.
  pub Held-Same :
      {t u : Table A.State} {view : ℕ → Contents}
      → Held t view
      → u.bits ≡ t.bits
      → u.slots ≡ t.slots
      → ((b : ℕ) → Same A t u b)
      → Held u view
  Held-Same {t} {u} {view} h b s k = record {
    slot = λ i m.
        let l = subst (λ x. i < 2 ^ x) b m in
        subst (λ x. SlotHolds A u (x i) (view i)) (sym s)
          (SlotHolds-Same t u (t.slots i) (view i) (h.slot i l)
            (Each-map (blocks_of (view i)) (λ b _. k b) (Each-self (blocks_of (view i)))));
    distinct = λ i m. h.distinct i (subst (λ x. i < 2 ^ x) b m);
    apart = λ i j m n. h.apart i j (subst (λ x. i < 2 ^ x) b m) (subst (λ x. j < 2 ^ x) b n);
  }
