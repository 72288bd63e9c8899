-- ===== src/LogarithmicAllocator/Span.antt =====
-- LogarithmicAllocator: blocks that are linked in both directions, and a change of one of them.
use sharedstructures.Base.{
  ℕ, ◌^◌, ◌<◌, ◌≡◌, ◌≢◌, ◌∙◌, ap, refl, sym, List, [], ◌∷◌, ◌++◌, Each, Away, Distinct, set_at,
  set_at_same, set_at_other,
}
use sharedstructures.LogarithmicAllocator.Blocks.{
  Block, block_order, free_word, block_order-free_word,
}

abbrev with_next : ℕ → Block → Block
with_next r c = record c { next = r }

abbrev with_word : ℕ → Block → Block
with_word r c = record c { prev_order_allocated = r }

abbrev pub first_of : List ℕ → (default : ℕ) → ℕ
first_of [] q = q
first_of (x ∷ xs) q = x

abbrev pub last_of : (default : ℕ) → List ℕ → ℕ
last_of p [] = p
last_of p (x ∷ xs) = last_of x xs

-- The blocks of an order at given places, one behind the other, between those at `p` and `q`.
abbrev pub Span : (ℕ → Block) → (order p : ℕ) → List ℕ → (q : ℕ) → Type 0
Span b order p [] q = Unit
Span b order p (x ∷ xs) q =
    ((b x ≡ record { prev_order_allocated = free_word order p; next = first_of xs q })
      × Span b order x xs q)

-- A place that a link can name.
abbrev pub Linkable : ℕ → Type 0
Linkable x = (x ≢ 0) × (x < 2 ^ 57)

pub Away-last_of : (k x : ℕ) (xs : List ℕ) → k ≢ x → Away k xs → k ≢ last_of x xs
Away-last_of k x [] n a = n
Away-last_of k x (y ∷ ys) n a = Away-last_of k y ys (a.0) (a.1)

pub Each-last_of : (P : ℕ → Type 0) (x : ℕ) (xs : List ℕ) → P x → Each P xs → P (last_of x xs)
Each-last_of P x [] h a = h
Each-last_of P x (y ∷ ys) h a = Each-last_of P y ys (a.0) (a.1)

pub last_of-append : (p x : ℕ) (xs ys : List ℕ) → last_of p (xs ++ (x ∷ ys)) ≡ last_of x ys
last_of-append p x [] ys = refl
last_of-append p x (z ∷ zs) ys = last_of-append z x zs ys

pub last_of-joined : (p : ℕ) (xs ys : List ℕ) → last_of p (xs ++ ys) ≡ last_of (last_of p xs) ys
last_of-joined p [] ys = refl
last_of-joined p (x ∷ xs) ys = last_of-joined x xs ys

pub Span-other :
    (b : ℕ → Block) (order p : ℕ) (xs : List ℕ) (q k : ℕ) (v : Block)
    → Away k xs
    → Span b order p xs q
    → Span (set_at b k v) order p xs q
Span-other b order p [] q k v a h = tt
Span-other b order p (x ∷ xs) q k v a h =
    (set_at_other b k v x (a.0) ∙ h.0, Span-other b order x xs q k v (a.1) (h.1))

pub Span-append :
    (b : ℕ → Block) (order p : ℕ) (xs : List ℕ) (q : ℕ) (ys : List ℕ)
    → Span b order p xs (first_of ys q)
    → Span b order (last_of p xs) ys q
    → Span b order p (xs ++ ys) q
Span-append b order p [] q ys h k = k
Span-append b order p (x ∷ []) q ys h k = (h.0, k)
Span-append b order p (x ∷ y ∷ xs) q ys h k = (h.0, Span-append b order x (y ∷ xs) q ys (h.1) k)

pub Span-front :
    (b : ℕ → Block) (order p : ℕ) (xs : List ℕ) (q : ℕ) (ys : List ℕ)
    → Span b order p (xs ++ ys) q
    → Span b order p xs (first_of ys q)
Span-front b order p [] q ys h = tt
Span-front b order p (x ∷ []) q ys h = (h.0, tt)
Span-front b order p (x ∷ y ∷ xs) q ys h = (h.0, Span-front b order x (y ∷ xs) q ys (h.1))

pub Span-back :
    (b : ℕ → Block) (order p : ℕ) (xs : List ℕ) (q : ℕ) (ys : List ℕ)
    → Span b order p (xs ++ ys) q
    → Span b order (last_of p xs) ys q
Span-back b order p [] q ys h = h
Span-back b order p (x ∷ xs) q ys h = Span-back b order x xs q ys (h.1)

-- The last block links to another one.
pub Span-next :
    (b : ℕ → Block) (order p x : ℕ) (xs : List ℕ) (q r : ℕ)
    → Distinct (x ∷ xs)
    → Span b order p (x ∷ xs) q
    → Span (set_at b (last_of x xs) (record (b (last_of x xs)) { next = r })) order p (x ∷ xs) r
Span-next b order p x [] q r d h =
    (set_at_same b x (record (b x) { next = r }) ∙ ap (with_next r) (h.0), tt)
Span-next b order p x (y ∷ ys) q r d h =
    let n = Away-last_of x y ys (d.0.0) (d.0.1) in
    let t = last_of y ys in
    (
      set_at_other b t (record (b t) { next = r }) x (λ e. n (sym e)) ∙ h.0,
      Span-next b order x y ys q r (d.1) (h.1),
    )

-- The first block links back to another one.
pub Span-prev :
    (b : ℕ → Block) (order p x : ℕ) (xs : List ℕ) (q r : ℕ)
    → Away x xs
    → Span b order p (x ∷ xs) q
    → Span
        (set_at b x (record (b x) { prev_order_allocated = free_word order r }))
        order
        r
        (x ∷ xs)
        q
Span-prev b order p x xs q r a h =
    let v = record (b x) { prev_order_allocated = free_word order r } in
    (
      set_at_same b x v ∙ ap (with_word (free_word order r)) (h.0),
      Span-other b order x xs q x v a (h.1),
    )

-- A block of another order is not among them.
pub Span-foreign :
    (b : ℕ → Block) (order p : ℕ) (xs : List ℕ) (q k : ℕ)
    → order < 64
    → p < 2 ^ 57
    → Each Linkable xs
    → Span b order p xs q
    → block_order ((b k).prev_order_allocated) ≢ order
    → Away k xs
Span-foreign b order p [] q k few low l h n = tt
Span-foreign b order p (x ∷ xs) q k few low l h n = (
  λ e. n (
      ap (λ c. block_order ((b c).prev_order_allocated)) e
      ∙ ap (λ c. block_order (c.prev_order_allocated)) (h.0)
      ∙ block_order-free_word order p few low),
  Span-foreign b order x xs q k few (l.0.1) (l.1) (h.1) n,
)

-- The last block is of the order, and nothing comes behind it.
pub Span-last :
    (b : ℕ → Block) (order p x : ℕ) (xs : List ℕ) (q : ℕ)
    → order < 64
    → p < 2 ^ 57
    → Each Linkable (x ∷ xs)
    → Span b order p (x ∷ xs) q
    → (block_order ((b (last_of x xs)).prev_order_allocated) ≡ order)
      × ((b (last_of x xs)).next ≡ q)
Span-last b order p x [] q few low l h = (
  ap (λ c. block_order (c.prev_order_allocated)) (h.0) ∙ block_order-free_word order p few low,
  ap (λ c. c.next) (h.0),
)
Span-last b order p x (y ∷ ys) q few low l h = Span-last b order x y ys q few (l.0.1) (l.1) (h.1)

-- Each of them is of the order.
pub Span-orders :
    (b : ℕ → Block) (order p : ℕ) (xs : List ℕ) (q : ℕ)
    → order < 64
    → p < 2 ^ 57
    → Each Linkable xs
    → Span b order p xs q
    → Each (λ k. block_order ((b k).prev_order_allocated) ≡ order) xs
Span-orders b order p [] q few low l h = tt
Span-orders b order p (x ∷ xs) q few low l h = (
  ap (λ c. block_order (c.prev_order_allocated)) (h.0) ∙ block_order-free_word order p few low,
  Span-orders b order x xs q few (l.0.1) (l.1) (h.1),
)
