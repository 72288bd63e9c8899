-- ===== src/SimpleAllocator/Layout.antt =====
-- What an allocator state stands for: the offsets and sizes of its blocks, in address order.
use sharedstructures.Base.{
  ℕ, ◌+◌, ◌*◌, ◌/◌, ◌%◌, ◌≤◌, ◌≡◌, refl, List, [], ◌∷◌, ◌++◌, arith, length,
}
use sharedstructures.Pool.Expand.{InSync}
use sharedstructures.SimpleAllocator.{State, Blocks, sizeof_data, sizeof_block}

-- The offset of a block's struct and the size that was asked for.
abbrev pub Entry : Type 0
Entry = ℕ × ℕ

abbrev pub ceil8 : ℕ → ℕ
ceil8 n = (n + 7) / 8 * 8

-- The offset behind a block.
abbrev pub past : ℕ → ℕ → ℕ
past o n = o + (sizeof_block + ceil8 n)

abbrev pub end_of : ℕ → List Entry → ℕ
end_of lo [] = lo
end_of lo ((o, n) ∷ xs) = end_of (past o n) xs

abbrev pub last_of : ℕ → List Entry → ℕ
last_of p [] = p
last_of p ((o, n) ∷ xs) = last_of o xs

abbrev pub start_of : List Entry → ℕ → ℕ
start_of [] hi = hi
start_of ((o, n) ∷ xs) hi = o

-- The blocks are aligned, lie apart, and lie between `lo` and `hi`.
abbrev pub Fits : ℕ → List Entry → ℕ → Type 0
Fits lo [] hi = lo ≤ hi
Fits lo ((o, n) ∷ xs) hi = (lo ≤ o) × (o % 8 ≡ 0) × Fits (past o n) xs hi

-- From `cur`, behind the block `prev`, the links run through `xs` to the block `last`, whose
-- successor is `stop`.
abbrev pub Links : Blocks → ℕ → ℕ → List Entry → ℕ → ℕ → Type 0
Links b prev cur [] last stop = (cur ≡ stop) × (prev ≡ last)
Links b prev cur ((o, n) ∷ xs) last stop =
    (cur ≡ o) × ((b o).prev ≡ prev) × ((b o).size ≡ n) × Links b o (b o).next xs last stop

abbrev pub sum_sizes : List Entry → ℕ
sum_sizes [] = 0
sum_sizes ((o, n) ∷ xs) = n + sum_sizes xs

abbrev pub sum_spans : List Entry → ℕ
sum_spans [] = 0
sum_spans ((o, n) ∷ xs) = sizeof_block + ceil8 n + sum_spans xs

-- The state holds the blocks `xs`, and its counters are right.
pub record Holds (s : State) (xs : List Entry) : Type 0 where
  pub sync : InSync s.pool
  pub chain : Links s.blocks 0 s.head xs s.tail 0
  pub fits : Fits sizeof_data xs s.size
  pub allocated : s.bytes_allocated ≡ sum_sizes xs
  pub committed : s.bytes_committed ≡ sizeof_data + sum_spans xs

pub Fits-split :
    (lo : ℕ) (ys zs : List Entry) (hi : ℕ)
    → Fits lo (ys ++ zs) hi
    → Fits lo ys (end_of lo ys) × Fits (end_of lo ys) zs hi
Fits-split lo [] zs hi f = (omega arith, f)
Fits-split lo ((o, n) ∷ ys) zs hi (a, m, f) =
    let (g, k) = Fits-split (past o n) ys zs hi f in ((a, m, g), k)

pub Fits-join :
    (lo : ℕ) (ys zs : List Entry) (hi : ℕ)
    → Fits lo ys (end_of lo ys)
    → Fits (end_of lo ys) zs hi
    → Fits lo (ys ++ zs) hi
Fits-join lo [] zs hi f g = g
Fits-join lo ((o, n) ∷ ys) zs hi (a, m, f) g = (a, m, Fits-join (past o n) ys zs hi f g)

pub Fits-le : (lo : ℕ) (xs : List Entry) (hi : ℕ) → Fits lo xs hi → lo + sum_spans xs ≤ hi
Fits-le lo [] hi f = omega arith
Fits-le lo ((o, n) ∷ xs) hi (a, m, f) = omega (arith, Fits-le (past o n) xs hi f)

-- The block at the end of a layout may be followed by more space, or stand further down.
pub Fits-mono :
    (lo lo' : ℕ) (xs : List Entry) (hi hi' : ℕ)
    → Fits lo xs hi
    → lo' ≤ lo
    → hi ≤ hi'
    → Fits lo' xs hi'
Fits-mono lo lo' [] hi hi' f a b = omega arith
Fits-mono lo lo' ((o, n) ∷ xs) hi hi' (c, m, f) a b =
    (omega arith, m, Fits-mono (past o n) (past o n) xs hi hi' f (omega arith) b)

pub end_of-le :
    (lo : ℕ) (xs : List Entry) (hi : ℕ) → Fits lo xs hi → (lo ≤ end_of lo xs) × (end_of lo xs ≤ hi)
end_of-le lo [] hi f = omega arith
end_of-le lo ((o, n) ∷ xs) hi (a, m, f) = omega (arith, end_of-le (past o n) xs hi f)

pub start_of-ge : (lo : ℕ) (xs : List Entry) (hi : ℕ) → Fits lo xs hi → lo ≤ start_of xs hi
start_of-ge lo [] hi f = f
start_of-ge lo ((o, n) ∷ xs) hi (a, m, f) = a

pub start_of-le : (lo : ℕ) (xs : List Entry) (hi : ℕ) → Fits lo xs hi → start_of xs hi ≤ hi
start_of-le lo [] hi f = omega arith
start_of-le lo ((o, n) ∷ xs) hi (a, m, f) = omega (arith, Fits-le (past o n) xs hi f)

-- Below the end of a layout lies its last block, whole.
pub last_of_bounds :
    (lo p : ℕ) (e : Entry) (xs : List Entry) (hi : ℕ)
    → Fits lo (e ∷ xs) hi
    → (lo ≤ last_of p (e ∷ xs)) × (last_of p (e ∷ xs) + sizeof_block ≤ end_of lo (e ∷ xs))
last_of_bounds lo p (o, n) [] hi (a, m, f) = omega arith
last_of_bounds lo p (o, n) (e ∷ xs) hi (a, m, f) =
    omega (arith, last_of_bounds (past o n) o e xs hi f)

pub last_of-snoc : (p : ℕ) (xs : List Entry) (o n : ℕ) → last_of p (xs ++ (o, n) ∷ []) ≡ o
last_of-snoc p [] o n = refl
last_of-snoc p ((q, m) ∷ xs) o n = last_of-snoc q xs o n

pub last_of-append :
    (p : ℕ) (xs : List Entry) (o n : ℕ) (ys : List Entry)
    → last_of p (xs ++ (o, n) ∷ ys) ≡ last_of o ys
last_of-append p [] o n ys = refl
last_of-append p ((q, m) ∷ xs) o n ys = last_of-append q xs o n ys

pub end_of-snoc : (lo : ℕ) (xs : List Entry) (o n : ℕ) → end_of lo (xs ++ (o, n) ∷ []) ≡ past o n
end_of-snoc lo [] o n = refl
end_of-snoc lo ((q, m) ∷ xs) o n = end_of-snoc (past q m) xs o n

pub sums-append :
    (xs ys : List Entry)
    → (sum_sizes (xs ++ ys) ≡ sum_sizes xs + sum_sizes ys)
      × (sum_spans (xs ++ ys) ≡ sum_spans xs + sum_spans ys)
sums-append [] ys = omega arith
sums-append ((o, n) ∷ xs) ys = omega (arith, sums-append xs ys)

pub sum_sizes-le : (xs : List Entry) → sum_sizes xs + 24 * length xs ≤ sum_spans xs
sum_sizes-le [] = omega arith
sum_sizes-le ((o, n) ∷ xs) = omega (arith, sum_sizes-le xs)

pub end_of_aligned :
    (lo : ℕ) (xs : List Entry) (hi : ℕ) → lo % 8 ≡ 0 → Fits lo xs hi → end_of lo xs % 8 ≡ 0
end_of_aligned lo [] hi a f = a
end_of_aligned lo ((o, n) ∷ xs) hi a (b, m, f) = end_of_aligned (past o n) xs hi (omega arith) f

-- The first block may be given more room, down to the end of what comes before it.
pub Fits-raise :
    (lo lo' : ℕ) (xs : List Entry) (hi : ℕ) → Fits lo xs hi → lo' ≤ start_of xs hi → Fits lo' xs hi
Fits-raise lo lo' [] hi f h = h
Fits-raise lo lo' ((o, n) ∷ xs) hi (a, m, f) h = (h, m, f)

pub sums-insert :
    (ys zs : List Entry) (o n : ℕ)
    → (sum_sizes (ys ++ (o, n) ∷ zs) ≡ n + sum_sizes (ys ++ zs))
      × (sum_spans (ys ++ (o, n) ∷ zs) ≡ sizeof_block + ceil8 n + sum_spans (ys ++ zs))
sums-insert [] zs o n = (refl, refl)
sums-insert ((q, m) ∷ ys) zs o n = omega (arith, sums-insert ys zs o n)

pub Fits-insert :
    (lo : ℕ) (ys zs : List Entry) (o n hi : ℕ)
    → Fits lo ys o
    → o % 8 ≡ 0
    → Fits (past o n) zs hi
    → Fits lo (ys ++ (o, n) ∷ zs) hi
Fits-insert lo [] zs o n hi f m g = (f, m, g)
Fits-insert lo ((q, k) ∷ ys) zs o n hi (a, b, f) m g =
    (a, b, Fits-insert (past q k) ys zs o n hi f m g)
