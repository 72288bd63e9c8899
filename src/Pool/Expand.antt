-- ===== src/Pool/Expand.antt =====
-- Pool::expand and Pool::check_size_and_remap
use sharedstructures.Base.{
  ℕ, ◌%◌, ◌^◌, ◌≤◌, ◌<◌, ◌≡◌, ◌≢◌, true, false, Option, some, none, arith, Bool-cases, inl, inr,
  refl, ltb, round_up,
}
use sharedstructures.Outcome.{Outcome, ok, fail, pool_too_large, resize_failed, mmap_failed}
use sharedstructures.Pool.{Pool, Os, Segment, page_size, expand, check_size_and_remap}

-- The whole segment is mapped, and is a positive number of pages.
pub record InSync (p : Pool) : Type 0 where
  pub mapped : p.mapped ≡ true
  pub whole : p.pool_size ≡ p.size
  pub length : p.st_size ≡ p.size
  pub pages : p.size % page_size ≡ 0
  pub nonempty : 0 < p.size
  pub bounded : p.size < 2 ^ 63

-- How `expand` to `n` bytes may end.
abbrev pub Expanded : Os → ℕ → Pool → Outcome Pool (Unit {0}) → Type 0
Expanded os n p (ok _ q) = InSync q × (n ≤ q.size) × (p.size ≤ q.size) × (q.max_size ≡ p.max_size)
Expanded os n p (fail pool_too_large q) = (q ≡ p) × (p.max_size ≢ 0) × (p.max_size < round_up 12 n)
Expanded os n p (fail resize_failed q) = (q ≡ p) × (os.ftruncate (round_up 12 n) ≡ false)
Expanded os n p (fail mmap_failed q) =
    (q.mapped ≡ false) × (n ≤ q.size) × (q.pool_size ≡ q.size) × (os.mmap q.size ≡ false)
Expanded os n p (fail _ q) = ⊥

module _ (os : Os) (n : ℕ) {p : Pool} (v : InSync p) (h : n < 2 ^ 62) where
  pub expand-Expanded : Expanded os n p (expand os n p)
  unfolding expand
  expand-Expanded = ground arith

  pub expand-InSync :
      {q : Pool} → expand os n p ≡ ok tt q → InSync q × (n ≤ q.size) × (p.size ≤ q.size)
  expand-InSync e = ground (arith, expand-Expanded)

-- Without a limit, and with an operating system that grants the request, the pool grows.
pub expand_ok :
    (os : Os) (n : ℕ) {p : Pool}
    → InSync p
    → n < 2 ^ 62
    → os.ftruncate (round_up 12 n) ≡ true
    → os.mmap (round_up 12 n) ≡ true
    → p.max_size ≡ 0
    → (q : Pool) × (expand os n p ≡ ok tt q)
unfolding expand
expand_ok os n {p} v h f m z = elim (Bool-cases (ltb n p.pool_size)) [
  | inl small ↦ (p, rw small refl)
  | inr large ↦ (
    record p {
      segment = record { st_size = round_up 12 n; size = round_up 12 n };
      pool_size = round_up 12 n;
    },
    ground arith,
  )
]

-- Where another process has expanded the segment, check_size_and_remap maps the whole of it again.
pub check_size_and_remap-InSync :
    (os : Os) (p : Pool)
    → p.mapped ≡ true
    → p.st_size ≡ p.size
    → p.size % page_size ≡ 0
    → 0 < p.size
    → 0 < p.pool_size
    → p.size < 2 ^ 63
    → os.mmap p.size ≡ true
    → (q : Pool) × (check_size_and_remap os p ≡ ok tt q) × InSync q × (q.segment ≡ p.segment)
unfolding check_size_and_remap
check_size_and_remap-InSync os p m l g n k b o = (
  record p { pool_size = p.size; mapped = true },
  ground arith,
  record { mapped = refl; whole = refl; length = l; pages = g; nonempty = n; bounded = b },
  refl,
)

-- A segment that was left in order: whole pages, and its length recorded.
abbrev pub InOrder : Option Segment → Type 0
InOrder none = Unit {0}
InOrder (some g) = (g.st_size ≡ g.size) × (g.size % page_size ≡ 0) × (g.size < 2 ^ 63)

-- How opening may end: with the whole segment mapped, or with an exception and, where the segment
-- was created, no segment.
abbrev pub Opened : Os → ℕ → Option Segment → Outcome (Option Segment) Pool → Type 0
Opened os m old (ok p new) = InSync p × (new ≡ some p.segment) × (p.max_size ≡ m)
Opened os m old (fail e new) = new ≡ old
