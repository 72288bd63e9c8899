-- ===== src/PrefixTree/Bump.antt =====
-- An allocator for the examples, which only counts up.
use sharedstructures.Base.{
  ℕ, ◌+◌, ◌*◌, ◌/◌, ◌^◌, ◌<◌, ◌≤◌, ◌≡◌, refl, ap, arith, sym, ◌∙◌, true, false, Bool, ne→==, eq→==,
  ltb, if◌then◌else◌, Option, none, some,
}
use sharedstructures.Allocator.{Allocator, Fresh}
use sharedstructures.PrefixTree.Node.{update}

-- The blocks up to `count` eights of bytes are taken.
pub record Bump : Type 0 where
  pub count : ℕ
  pub sizes : ℕ → ℕ

abbrev pub next_block : Bump → ℕ
next_block a = a.count * 8 + 8

abbrev pub after_block : ℕ → Bump → Bump
after_block n a = record { count = a.count + 1 + n / 8; sizes = update a.sizes (next_block a) n }

abbrev pub bump_allocate : ℕ → Bump → Option (ℕ × Bump)
bump_allocate n a =
    if ltb (next_block a) (2 ^ 63) then some (next_block a, after_block n a) else none

abbrev pub Taken : Bump → ℕ → ℕ → Type 0
Taken a b x = b ≤ x × x < next_block a

pub record Allocated (n r : ℕ) (a a' : Bump) : Type 0 where
  pub room : next_block a < 2 ^ 63
  pub offset : next_block a ≡ r
  pub state : after_block n a ≡ a'

when_some :
    {B : Type 0} {p q : B} (b : Bool) → (if b then some p else none) ≡ some q → (b ≡ true) × (p ≡ q)
when_some {p = p} true h = (refl, ap (λ o. elim o [ none ↦ p | some x ↦ x ]) h)
when_some false h = absurd cc

pub bump_allocate-Allocated :
    (n r : ℕ) (a a' : Bump) → bump_allocate n a ≡ some (r, a') → Allocated n r a a'
bump_allocate-Allocated n r a a' h =
    let (room, same) = when_some (ltb (next_block a) (2 ^ 63)) h in
    record { room = ground arith; offset = ap (λ p. p.0) same; state = ap (λ p. p.1) same }

module _ (n r : ℕ) (a a' : Bump) (e : Allocated n r a a') where
  bump_size : (x v : ℕ) → update a.sizes (next_block a) n x ≡ v → a'.sizes x ≡ v
  bump_size x v h = sym (ap (λ s. Bump.sizes s x) e.state) ∙ h

  bump_count : next_block a < next_block a'
  bump_count = omega (arith, ap Bump.count e.state)

  pub bump-Fresh : Fresh Taken (λ x s. s.sizes x) n r a a'
  unfolding update
  bump-Fresh = record {
    was_free = λ b l. omega (arith, l.1, e.offset);
    live = (omega arith, omega (arith, e.offset, bump_count));
    range_free = λ b x g h l. omega (arith, l.1, e.offset);
    range_live = λ x g h. (g, omega (arith, e.offset, ap Bump.count e.state));
    not_null = λ z. omega (arith, z, e.offset);
    aligned = omega (arith, e.offset);
    small = omega (arith, e.offset, e.room);
    sized = bump_size r n (rw (eq→== r (next_block a) (sym e.offset)) refl);
  }

  pub bump_keeps : (b x : ℕ) → Taken a b x → Taken a' b x × (a'.sizes b ≡ a.sizes b)
  unfolding update
  bump_keeps b x (p, l) = (
    (p, omega (arith, l, bump_count)),
    bump_size b (a.sizes b) (rw (ne→== b (next_block a) (λ z. omega (arith, p, l, z))) refl),
  )

abbrev pub bump : Allocator
bump = record {
  State = Bump;
  In = Taken;
  allocate = bump_allocate;
  free = λ r a. a;
  block_size = λ x a. a.sizes x;
  allocate_fresh = λ {n} {r} {a} {a'} h. bump-Fresh n r a a' (bump_allocate-Allocated n r a a' h);
  allocate_keeps =
      λ {n} {r} {b} {x} {a} {a'} h. bump_keeps n r a a' (bump_allocate-Allocated n r a a' h) b x;
  free_keeps = λ r ne l. (l, refl);
}
