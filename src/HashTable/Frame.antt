-- ===== src/HashTable/Frame.antt =====
-- What a step leaves of the blocks that a table stands in.
use sharedstructures.Base.{
  word_mod, ℕ, suc, ◌+◌, ◌<◌, ◌≤◌, ◌≡◌, ◌≢◌, refl, sym, ap, subst, ◌∙◌, arith, List, [], ◌∷◌, ◌++◌,
  length, length-append, Option, none, some, set_at, set_at_same, set_at_other,
}
use sharedstructures.Outcome.{Outcome, ok, fail, and_then, bad_alloc}
use sharedstructures.Allocator.{Allocator, Fresh}
use sharedstructures.HashTable.Memory.{
  IndirectValue, Table, allocate_block, free_block, set_indirect, put_bytes, write_bytes,
  block_outcome,
}
use sharedstructures.HashTable.Contents.{Entry, Link, Spells, PairAt, NodeAt}

-- The bytes outside the range written stay, and those within it are the ones written.
pub write_bytes_outside :
    (bytes : ℕ → ℕ) (o : ℕ) (bs : List ℕ) (x : ℕ)
    → (o ≤ x → x < o + length bs → ⊥)
    → write_bytes bytes o bs x ≡ bytes x
unfolding write_bytes
write_bytes_outside bytes o [] x h = refl
write_bytes_outside bytes o (b ∷ bs) x h =
    write_bytes_outside (set_at bytes o b) (o + 1) bs x (λ p q. h (omega arith) (omega arith))
    ∙ set_at_other bytes o b x (λ e. h (omega arith) (omega arith))

pub Spells-same :
    (f g : ℕ → ℕ) (o : ℕ) (bs : List ℕ)
    → ((x : ℕ) → o ≤ x → x < o + length bs → g x ≡ f x)
    → Spells f o bs
    → Spells g o bs
Spells-same f g o [] e h = tt
Spells-same f g o (b ∷ bs) e h = (
  e o (omega arith) (omega arith) ∙ h.0,
  Spells-same f g (o + 1) bs (λ x p q. e x (omega arith) (omega arith)) (h.1),
)

write_bytes-Spells : (f : ℕ → ℕ) (o : ℕ) (bs : List ℕ) → Spells (write_bytes f o bs) o bs
unfolding write_bytes
write_bytes-Spells f o [] = tt
write_bytes-Spells f o (b ∷ bs) = (
  write_bytes_outside (set_at f o b) (o + 1) bs o (λ p q. omega arith) ∙ set_at_same f o b,
  write_bytes-Spells (set_at f o b) (o + 1) bs,
)

Spells-joined :
    (f : ℕ → ℕ) (o : ℕ) (xs bs : List ℕ)
    → Spells f o xs
    → Spells f (o + length xs) bs
    → Spells f o (xs ++ bs)
Spells-joined f o [] bs h k = let e : o + 0 ≡ o = omega arith in subst (λ x. Spells f x bs) e k
Spells-joined f o (x ∷ xs) bs h k =
    let e : o + suc (length xs) ≡ o + 1 + length xs = omega arith in
    (h.0, Spells-joined f (o + 1) xs bs (h.1) (subst (λ x. Spells f x bs) e k))

-- The two memcpys of a pair.
pub pair_written :
    (f : ℕ → ℕ) (o : ℕ) (k v : List ℕ)
    → Spells (write_bytes (write_bytes f o k) (o + length k) v) o (k ++ v)
pair_written f o k v =
    Spells-joined _ o k v
      (Spells-same (write_bytes f o k) _ o k
        (λ x p q. write_bytes_outside (write_bytes f o k) (o + length k) v x (λ r s. omega arith))
        (write_bytes-Spells f o k))
      (write_bytes-Spells (write_bytes f o k) (o + length k) v)

module _ (A : Allocator) where
  -- The block at `b`, what it holds and what is read there as a node stay.
  pub record Same (t u : Table A.State) (b : ℕ) : Type 0 where
    pub live : (x : ℕ) → A.In t.alloc b x → A.In u.alloc b x
    pub size : A.In t.alloc b b → A.block_size b u.alloc ≡ A.block_size b t.alloc
    pub node : u.indirects b ≡ t.indirects b
    pub content : (x : ℕ) → A.In t.alloc b x → u.bytes x ≡ t.bytes x

  pub Same-trans :
      {t u w : Table A.State} {b : ℕ} → A.In t.alloc b b → Same t u b → Same u w b → Same t w b
  Same-trans {b} h s r = record {
    live = λ x i. r.live x (s.live x i);
    size = λ i. r.size (s.live b i) ∙ s.size i;
    node = r.node ∙ s.node;
    content = λ x i. r.content x (s.live x i) ∙ s.content x i;
  }

  pub PairAt-Same :
      {t u : Table A.State} {e : Entry} → PairAt A t e → Same t u e.offset → PairAt A u e
  PairAt-Same {t} {u} {e} p s = record {
    not_null = p.not_null;
    aligned = p.aligned;
    spelled =
        Spells-same t.bytes u.bytes e.offset (e.key ++ e.value)
          (λ x l h. s.content x (p.inside x l (omega (arith, h, length-append e.key e.value))))
          p.spelled;
    small = p.small;
    sized = s.size p.live ∙ p.sized;
    live = s.live e.offset p.live;
    inside = λ x l h. s.live x (p.inside x l h);
  }

  pub NodeAt-Same :
      {t u : Table A.State} {l : Link}
      → NodeAt A t l
      → Same t u l.node
      → Same t u l.entry.offset
      → NodeAt A u l
  NodeAt-Same {t} {u} {l} n s r = record {
    not_null = n.not_null;
    aligned = n.aligned;
    live = s.live l.node n.live;
    offset = ap (λ v. v.key_offset) s.node ∙ n.offset;
    size = ap (λ v. v.key_size) s.node ∙ n.size;
    pair = PairAt-Same n.pair r;
  }

  pub free_block-Same : (r : ℕ) (t : Table A.State) (b : ℕ) → b ≢ r → Same t (free_block A r t) b
  free_block-Same r t b n = record {
    live = λ x i. (A.free_keeps r n i).0;
    size = λ i. (A.free_keeps r n i).1;
    node = refl;
    content = λ x i. refl;
  }

  pub set_indirect-Same :
      (n : ℕ) (v : IndirectValue) (t : Table A.State) (b : ℕ)
      → b ≢ n
      → Same t (set_indirect n v t) b
  set_indirect-Same n v t b d = record {
    live = λ x i. i;
    size = λ i. refl;
    node = set_at_other t.indirects n v b (λ e. d (sym e));
    content = λ x i. refl;
  }

  -- What an allocation gives: a new block, and all others as they were.
  pub record Allocated (n r : ℕ) (t u : Table A.State) : Type 0 where
    pub fresh : Fresh A.In A.block_size n r t.alloc u.alloc
    pub same : (b : ℕ) → Same t u b
    pub rest : u ≡ record t { alloc = u.alloc }

  abbrev pub AllocatedOr : ℕ → Table A.State → Outcome (Table A.State) ℕ → Type 0
  AllocatedOr n t (ok r u) = Allocated n r t u
  AllocatedOr n t (fail e u) = (e ≡ bad_alloc) × (u ≡ t)

  block_outcome-AllocatedOr :
      (n : ℕ) (t : Table A.State) (o : Option (ℕ × A.State))
      → A.allocate n t.alloc ≡ o
      → AllocatedOr n t (block_outcome A t o)
  block_outcome-AllocatedOr n t none h = (refl, refl)
  block_outcome-AllocatedOr n t (some (r, a)) h = record {
    fresh = A.allocate_fresh h;
    same = λ b. record {
      live = λ x i. (A.allocate_keeps h i).0;
      size = λ i. (A.allocate_keeps h i).1;
      node = refl;
      content = λ x i. refl;
    };
    rest = refl;
  }

  pub allocate_block-AllocatedOr :
      (n : ℕ) (t : Table A.State) → AllocatedOr n t (allocate_block A n t)
  unfolding allocate_block
  allocate_block-AllocatedOr n t = block_outcome-AllocatedOr n t (A.allocate n t.alloc) refl

  -- A block that was there before is another one than the new one.
  pub Allocated-other :
      {n r : ℕ} {t u : Table A.State} (b : ℕ) → Allocated n r t u → A.In t.alloc b b → b ≢ r
  Allocated-other {t = t} b f h e = f.fresh.was_free b (subst (A.In t.alloc b) e h)

  -- A pair in a new block.
  abbrev pub with_pair : ℕ → (k v : List ℕ) → Table A.State → Table A.State
  with_pair r k v t = put_bytes (r + length k) v (put_bytes r k t)

  pub with_pair-PairAt :
      {r : ℕ} {t u : Table A.State} (k v : List ℕ)
      → length k + length v < word_mod
      → Allocated (length k + length v) r t u
      → PairAt A (with_pair r k v u) (record { offset = r; key = k; value = v })
  with_pair-PairAt {r} {t} {u} k v l f = record {
    not_null = f.fresh.not_null;
    aligned = f.fresh.aligned;
    spelled = pair_written u.bytes r k v;
    small = l;
    sized = f.fresh.sized;
    live = f.fresh.live;
    inside = f.fresh.range_live;
  }

  pub with_pair-Same :
      {r : ℕ} {t u : Table A.State} (k v : List ℕ) (b : ℕ)
      → Allocated (length k + length v) r t u
      → Same t (with_pair r k v u) b
  with_pair-Same {r} {t} {u} k v b f = record {
    live = (f.same b).live;
    size = (f.same b).size;
    node = (f.same b).node;
    content = λ x i.
        write_bytes_outside (write_bytes u.bytes r k) (r + length k) v x
          (λ p q. f.fresh.range_free b x (omega arith) (omega arith) i)
        ∙ write_bytes_outside u.bytes r k x
            (λ p q. f.fresh.range_free b x (omega arith) (omega arith) i)
        ∙ (f.same b).content x i;
  }

  -- What follows an allocation, whichever way it ends.
  pub allocated_then :
      {B : Type 0} (P : Outcome (Table A.State) B → Type 0) (n : ℕ) (t : Table A.State)
      (k : ℕ → Table A.State → Outcome (Table A.State) B)
      → P (fail bad_alloc t)
      → ((r : ℕ) (u : Table A.State) → Allocated n r t u → P (k r u))
      → P (and_then (allocate_block A n t) k)
  allocated_then P n t k f g = ended (allocate_block A n t) (allocate_block-AllocatedOr n t)
    where
      ended : (o : Outcome (Table A.State) ℕ) → AllocatedOr n t o → P (and_then o k)
      ended (ok r u) a = g r u a
      ended (fail e u) (x, y) =
          subst (λ z. P (fail e z)) (sym y) (subst (λ z. P (fail z t)) (sym x) f)
