-- ===== src/PrefixTree/Widen.antt =====
-- The slots of the node that PrefixTree::traverse makes to widen a range.
use sharedstructures.Base.{
  ℕ, ◌+◌, ◌-◌, ◌≡◌, ◌<◌, ◌≤◌, refl, ap, arith, ◌∙◌, ◌⊎◌, inl, inr, true, false, not, ◌||◌,
  if◌then◌else◌, Bool-cases, ltb, leb,
}
use sharedstructures.PrefixTree.Node.{Node, in_range}
use sharedstructures.PrefixTree.Traverse.{widened}
use sharedstructures.PrefixTree.Links.{child_at}
use sharedstructures.PrefixTree.Move.{Wider}

pub bounds : (c : ℕ) (n : Node) → in_range c n ≡ true → (n.start ≤ c) × (c ≤ n.end)
bounds c n h = ground arith

beyond : (c : ℕ) (n : Node) → in_range c n ≡ false → (c < n.start) ⊎ (n.end < c)
beyond c n h = ground arith

pub in_bounds : (c s e : ℕ) → s ≤ c → c ≤ e → not (ltb c s || ltb e c) ≡ true
in_bounds c s e p q = ground arith

below_bounds : (c s e : ℕ) → c < s → not (ltb c s || ltb e c) ≡ false
below_bounds c s e p = ground arith

above_bounds : (c s e : ℕ) → e < c → not (ltb c s || ltb e c) ≡ false
above_bounds c s e p = ground arith

ltb-true : (a b : ℕ) → a < b → ltb a b ≡ true
ltb-true a b h = ground arith

ltb-false : (a b : ℕ) → b ≤ a → ltb a b ≡ false
ltb-false a b h = ground arith

leb-true : (a b : ℕ) → a ≤ b → leb a b ≡ true
leb-true a b h = ground arith

leb-false : (a b : ℕ) → b < a → leb a b ≡ false
leb-false a b h = ground arith

module _ (n : Node) (c : ℕ) where
  -- A wider range at the low end, and at the high end.
  abbrev low : Node
  low = widened true c n.end n

  abbrev high : Node
  high = widened false n.start c n

  low_child :
      (e : ℕ) → c ≤ e → child_at low e ≡ (if ltb e n.start then 0 else n.children (e - n.start))
  unfolding widened
  low_child e p =
      let x : e - c + c ≡ e = omega arith in
      ap (λ x. if ltb x n.start then 0 else n.children (x - n.start)) x

  high_child :
      (e : ℕ)
      → n.start ≤ e
      → child_at high e ≡ (if leb e n.end then n.children (e - n.start) else 0)
  unfolding widened
  high_child e p =
      let x : e - n.start + n.start ≡ e = omega arith in
      ap (λ x. if leb x n.end then n.children (x - n.start) else 0) x

  low-Wider : c < n.start → Wider n low
  unfolding widened
  low-Wider h = record {
    same_value = refl;
    slots = λ e i.
        let (p, q) = bounds e n i in
        (
          in_bounds e c n.end (omega arith) q,
          low_child e (omega arith) ∙ rw (ltb-false e n.start p) refl,
        );
    gaps = λ e i. elim (beyond e n i) [
      | inr q ↦ inl (above_bounds e c n.end q)
      | inl q ↦ elim (Bool-cases (ltb e c)) [
        | inl z ↦ inl (below_bounds e c n.end (ground arith))
        | inr z ↦ inr (low_child e (ground arith) ∙ rw (ltb-true e n.start q) refl)
      ]
    ];
  }

  high-Wider : n.end < c → Wider n high
  unfolding widened
  high-Wider h = record {
    same_value = refl;
    slots = λ e i.
        let (p, q) = bounds e n i in
        (in_bounds e n.start c p (omega arith), high_child e p ∙ rw (leb-true e n.end q) refl);
    gaps = λ e i. elim (beyond e n i) [
      | inl q ↦ inl (below_bounds e n.start c q)
      | inr q ↦ elim (Bool-cases (ltb c e)) [
        | inl z ↦ inl (above_bounds e n.start c (ground arith))
        | inr z ↦ elim (Bool-cases (ltb e n.start)) [
          | inl y ↦ inl (below_bounds e n.start c (ground arith))
          | inr y ↦ inr (high_child e (ground arith) ∙ rw (leb-false e n.end q) refl)
        ]
      ]
    ];
  }

  pub widened-Wider :
      in_range c n ≡ false
      → Wider n (
          widened
            (ltb c n.start)
            (if ltb c n.start then c else n.start)
            (if not (ltb c n.start) then c else n.end)
            n)
  widened-Wider h = elim (Bool-cases (ltb c n.start)) [
    | inl z ↦ rw z (low-Wider (ground arith))
    | inr z ↦ rw z (high-Wider (ground arith))
  ]

  pub widened_unused :
      in_range c n ≡ false
      → child_at
          (widened
            (ltb c n.start)
            (if ltb c n.start then c else n.start)
            (if not (ltb c n.start) then c else n.end)
            n)
          c
        ≡ 0
  widened_unused h = elim (Bool-cases (ltb c n.start)) [
    | inl z ↦ rw z (low_child c (omega arith) ∙ rw z refl)
    | inr z ↦ rw z (high_child c (ground arith) ∙ rw (leb-false c n.end (ground arith)) refl)
  ]
