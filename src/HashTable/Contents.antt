-- ===== src/HashTable/Contents.antt =====
-- What a slot holds: keys with their values, and the blocks that these stand in.
use sharedstructures.Base.{
  ℕ, suc, ◌+◌, ◌%◌, ◌<◌, ◌≤◌, ◌≡◌, ◌≢◌, refl, arith, Bool, true, false, ◌&&◌, ◌==◌, if◌then◌else◌,
  subst, word_mod, List, [], ◌∷◌, ◌++◌, length, Option, none, some, map,
}
use sharedstructures.Allocator.{Allocator}
use sharedstructures.HashTable.Memory.{Slot, Table, read_bytes, same_bytes, key_matches}

pub record Entry : Type 0 where
  pub offset : ℕ
  pub key : List ℕ
  pub value : List ℕ

-- A node of a chain.
pub record Link : Type 0 where
  pub node : ℕ
  pub entry : Entry

pub data Contents : Type 0 where
  vacant : Contents
  direct : Entry → Contents
  chained : List Link → Contents

abbrev pub entries_of : Contents → List Entry
entries_of vacant = []
entries_of (direct e) = e ∷ []
entries_of (chained ls) = map (λ l. l.entry) ls

abbrev pub same_list : List ℕ → List ℕ → Bool
same_list [] [] = true
same_list [] (b ∷ bs) = false
same_list (a ∷ xs) [] = false
same_list (a ∷ xs) (b ∷ bs) = (a == b) && same_list xs bs

-- The value of the first entry with the key.
abbrev pub find : List ℕ → List Entry → Option (List ℕ)
find k [] = none
find k (e ∷ es) = if same_list e.key k then some e.value else find k es

-- The bytes from an offset on.
abbrev pub Spells : (ℕ → ℕ) → ℕ → List ℕ → Type 0
Spells bytes o [] = Unit
Spells bytes o (b ∷ bs) = (bytes o ≡ b) × Spells bytes (o + 1) bs

module _ (A : Allocator) where
  pub record PairAt (t : Table A.State) (e : Entry) : Type 0 where
    pub not_null : e.offset ≢ 0
    pub aligned : e.offset % 8 ≡ 0
    pub spelled : Spells t.bytes e.offset (e.key ++ e.value)
    pub small : length e.key + length e.value < word_mod
    pub sized : A.block_size e.offset t.alloc ≡ length e.key + length e.value
    pub live : A.In t.alloc e.offset e.offset
    pub inside :
        (x : ℕ)
        → e.offset ≤ x
        → x < e.offset + (length e.key + length e.value)
        → A.In t.alloc e.offset x

  pub record NodeAt (t : Table A.State) (l : Link) : Type 0 where
    pub not_null : l.node ≢ 0
    pub aligned : l.node % 8 ≡ 0
    pub live : A.In t.alloc l.node l.node
    pub offset : (t.indirects l.node).key_offset ≡ l.entry.offset
    pub size : (t.indirects l.node).key_size ≡ length l.entry.key
    pub pair : PairAt t l.entry

  -- The chain that starts at an offset.
  abbrev pub Chain : Table A.State → ℕ → List Link → Type 0
  Chain t o [] = o ≡ 0
  Chain t o (l ∷ ls) = (o ≡ l.node) × NodeAt t l × Chain t (t.indirects l.node).next ls

  abbrev pub SlotHolds : Table A.State → Slot → Contents → Type 0
  SlotHolds t s vacant = s.key_offset ≡ 0
  SlotHolds t s (direct e) = (s.key_offset ≡ e.offset) × (s.key_size ≡ length e.key) × PairAt t e
  SlotHolds t s (chained []) = ⊥
  SlotHolds t s (chained (l ∷ ls)) = (s.key_offset ≡ l.node + 1) × Chain t l.node (l ∷ ls)

abbrev pub links_of : Contents → List Link
links_of (chained ls) = ls
links_of _ = []

pub Spells-append :
    (bytes : ℕ → ℕ) (o : ℕ) (xs bs : List ℕ)
    → Spells bytes o (xs ++ bs)
    → Spells bytes o xs × Spells bytes (o + length xs) bs
Spells-append bytes o [] bs h =
    let e : o ≡ o + 0 = omega arith in (tt, subst (λ x. Spells bytes x bs) e h)
Spells-append bytes o (a ∷ xs) bs h =
    let r = Spells-append bytes (o + 1) xs bs (h.1) in
    let e : o + 1 + length xs ≡ o + suc (length xs) = omega arith in
    ((h.0, r.0), subst (λ x. Spells bytes x bs) e (r.1))

pub read_bytes-Spells :
    (bytes : ℕ → ℕ) (o : ℕ) (bs : List ℕ) → Spells bytes o bs → read_bytes bytes (length bs) o ≡ bs
unfolding read_bytes
read_bytes-Spells bytes o [] h = refl
read_bytes-Spells bytes o (b ∷ bs) h = rw (h.0, read_bytes-Spells bytes (o + 1) bs (h.1)) refl

same_bytes-Spells :
    (bytes : ℕ → ℕ) (o : ℕ) (xs k : List ℕ)
    → Spells bytes o xs
    → (length xs == length k) && same_bytes bytes o k ≡ same_list xs k
unfolding same_bytes
same_bytes-Spells bytes o [] [] h = refl
same_bytes-Spells bytes o [] (c ∷ k) h = ground arith
same_bytes-Spells bytes o (a ∷ xs) [] h = ground arith
same_bytes-Spells bytes o (a ∷ xs) (c ∷ k) h =
    let r = same_bytes-Spells bytes (o + 1) xs k (h.1) in ground (arith, h.0, r)

pub key_matches-Spells :
    (bytes : ℕ → ℕ) (o n : ℕ) (xs k : List ℕ)
    → n ≡ length xs
    → Spells bytes o xs
    → key_matches bytes o n k ≡ same_list xs k
unfolding key_matches
key_matches-Spells bytes o n xs k e h = rw e (same_bytes-Spells bytes o xs k h)
