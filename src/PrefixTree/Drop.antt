-- ===== src/PrefixTree/Drop.antt =====
-- An empty node that PrefixTree::erase unlinks, and the lookups.
use sharedstructures.Base.{
  ℕ, zero, suc, ◌+◌, ◌-◌, ◌≡◌, ◌≢◌, ◌<◌, ◌≤◌, refl, ap, arith, sym, ◌∙◌, inl, inr, Bool, true,
  false, not, ◌||◌, ◌==◌, ==→eq, ==→ne, if◌then◌else◌, Bool-cases, List, [], ◌∷◌, subst,
}
use sharedstructures.PrefixTree.Contents.{is_sub_node}
use sharedstructures.PrefixTree.Node.{
  Node, Tree, update, set_child, in_range, any_child, has_children,
}
use sharedstructures.PrefixTree.Reading.{look, at_end}
use sharedstructures.PrefixTree.Links.{
  slot_look, slot_look-below, slot_look-link, slot_look-unused, when, child_at, Closed, SameBelow,
  look-same_node, IsUnused, empty, value,
}
use sharedstructures.PrefixTree.Move.{Link}
use sharedstructures.PrefixTree.Widen.{bounds}
use sharedstructures.PrefixTree.Shape.{true≢false}

-- No slot of the node holds anything.
pub HasNone : Node → Type 0
HasNone n = (c : ℕ) → in_range c n ≡ true → child_at n c ≡ 0

or_false : (a b : Bool) → (not a || b) ≡ false → (a ≡ true) × (b ≡ false)
or_false true b h = (refl, h)
or_false false b h = absurd (true≢false h)

any_child-none :
    (count x : ℕ) (n : Node)
    → any_child count x n ≡ false
    → (i : ℕ) → x ≤ i
    → i < x + count
    → n.children i ≡ 0
unfolding any_child
any_child-none zero x n h i p q = absurd (omega (arith, p, q))
any_child-none (suc count) x n h i p q =
    let (z, rest) = or_false (n.children x == 0) (any_child count (x + 1) n) h in
    elim (Bool-cases (i == x)) [
      | inl e ↦ ap n.children (==→eq i x e) ∙ ==→eq (n.children x) 0 z
      | inr e ↦
          any_child-none count (x + 1) n rest i (omega (arith, p, ==→ne i x e)) (omega (arith, q))
    ]

pub has_children-none : (n : Node) → has_children n ≡ false → HasNone n
unfolding has_children HasNone
has_children-none n h c i =
    let (p, q) = bounds c n i in
    any_child-none (n.end + 1 - n.start) 0 n h (c - n.start) (omega arith) (omega (arith, p, q))

-- A node without children gave its value to the slot that linked to it.
pub record Dropped {S T : Type 0} (t : Tree S) (t' : Tree T) (parent via node : ℕ) : Type 0 where
  pub link : Link t parent via node
  pub childless : HasNone (t.nodes node)
  pub plain : IsUnused (t.nodes node).value
  pub at_parent :
      t'.nodes parent
      ≡ set_child (t.nodes parent) (via - (t.nodes parent).start) (t.nodes node).value
  pub elsewhere : (x : ℕ) → x ≢ parent → t'.nodes x ≡ t.nodes x

module _ {S T : Type 0} (t : Tree S) (t' : Tree T) (P : ℕ → Type 0) (closed : Closed t P)
    (parent via node : ℕ) (m : Dropped t t' parent via node) where
  abbrev step_of : Node → ℕ → List ℕ → ℕ
  step_of n e k = slot_look (in_range e n) (child_at n e) k (look t' (child_at n e) k)

  look-dropped : (k : List ℕ) → look t node k ≡ at_end k (t.nodes node).value
  unfolding look HasNone
  look-dropped [] = refl
  look-dropped (e ∷ k) =
      let n = t.nodes node in
      elim (Bool-cases (in_range e n)) [
        | inl i ↦ rw i (rw (m.childless e i) refl)
        | inr i ↦ rw i refl
      ]

  dropped_hit :
      (inside : Bool) (v : ℕ) (k : List ℕ) (p : ℕ)
      → v ≡ node
      → slot_look inside (t.nodes node).value k p ≡ slot_look inside v k (look t v k)
  dropped_hit inside v k p e =
      slot_look-unused inside (t.nodes node).value k p m.plain
      ∙ ap (when inside) (sym (look-dropped k))
      ∙ sym (
          slot_look-link inside node k (look t node k) (==→ne node 0 m.link.some_node)
            m.link.sub_node)
      ∙ ap (λ v. slot_look inside v k (look t v k)) (sym e)

  dropped_slot :
      (e : ℕ) (k : List ℕ)
      → P parent
      → SameBelow t t' P k
      → look t' parent (e ∷ k) ≡ look t parent (e ∷ k)
  unfolding look update
  dropped_slot e k pp ih =
      let n = t.nodes parent in
      let j = via - n.start in
      let v₀ = (t.nodes node).value in
      let inside = in_range e n in
      let step = λ (b : Bool).
        let v = if b then v₀ else child_at n e in slot_look inside v k (look t' v k) in
      ap (λ n. step_of n e k) m.at_parent ∙ elim (Bool-cases ((e - n.start) == j)) [
        | inl z ↦
            ap step z
            ∙ dropped_hit inside (child_at n e) k (look t' v₀ k)
                (ap n.children (==→eq (e - n.start) j z) ∙ m.link.there)
        | inr z ↦
            ap step z
            ∙ slot_look-below inside (child_at n e) k (look t' (child_at n e) k)
                (look t (child_at n e) k)
                λ i z s. ih (child_at n e) (closed.linked parent e pp i z s)
      ]

  pub dropped_value : (x : ℕ) → (t'.nodes x).value ≡ (t.nodes x).value
  dropped_value x = elim (Bool-cases (x == parent)) [
    | inl z ↦
        subst (λ y. (t'.nodes y).value ≡ (t.nodes y).value) (sym (==→eq x parent z))
          (ap Node.value m.at_parent)
    | inr z ↦ ap Node.value (m.elsewhere x (==→ne x parent z))
  ]

  pub Dropped-look : (k : List ℕ) → SameBelow t t' P k
  unfolding look
  Dropped-look [] x px = dropped_value x
  Dropped-look (e ∷ k) x px = elim (Bool-cases (x == parent)) [
    | inl z ↦
        let same = ==→eq x parent z in
        subst (λ y. look t' y (e ∷ k) ≡ look t y (e ∷ k)) (sym same)
          (dropped_slot e k (subst P same px) (Dropped-look k))
    | inr z ↦
        look-same_node t t' P x e k closed px (m.elsewhere x (==→ne x parent z)) (Dropped-look k)
  ]

  abbrev Leading : ℕ → Node → Type 0
  Leading e n =
      in_range e n ≡ true
      → (child_at n e == 0) ≡ false
      → is_sub_node (child_at n e) ≡ true
      → P (child_at n e)

  unused_onward : (v : ℕ) → IsUnused v → (v == 0) ≡ false → is_sub_node v ≡ true → P v
  unused_onward v (empty y) z s = absurd (true≢false (sym y ∙ z))
  unused_onward v (value y) z s = absurd (true≢false (sym s ∙ y))

  parent_onward :
      (e : ℕ)
      → P parent
      → Leading e (set_child (t.nodes parent) (via - (t.nodes parent).start) (t.nodes node).value)
  unfolding update
  parent_onward e pp i z s =
      let n = t.nodes parent in
      let j = via - n.start in
      let v = (t.nodes node).value in
      elim (Bool-cases ((e - n.start) == j)) [
        | inl q ↦
            let same : child_at (set_child n j v) e ≡ v = rw q refl in
            subst P (sym same) (
              unused_onward v m.plain (subst (λ v. (v == 0) ≡ false) same z)
                (subst (λ v. is_sub_node v ≡ true) same s))
        | inr q ↦
            let same : child_at (set_child n j v) e ≡ child_at n e = rw q refl in
            subst P (sym same) (
              closed.linked parent e pp i (subst (λ v. (v == 0) ≡ false) same z)
                (subst (λ v. is_sub_node v ≡ true) same s))
      ]

  onward : (x e : ℕ) → P x → Leading e (t'.nodes x)
  onward x e px = elim (Bool-cases (x == parent)) [
    | inl q ↦
        let same = ==→eq x parent q in
        subst (λ y. Leading e (t'.nodes y)) (sym same)
          (subst (Leading e) (sym m.at_parent) (parent_onward e (subst P same px)))
    | inr q ↦
        subst (Leading e) (sym (m.elsewhere x (==→ne x parent q)))
          λ i z s. closed.linked x e px i z s
  ]

  pub Dropped-Closed : Closed t' P
  Dropped-Closed = record { linked = λ x e px. onward x e px }

  pub dropped_slot_of : (x : ℕ) → (t'.nodes x).parent_slot ≡ (t.nodes x).parent_slot
  dropped_slot_of x = elim (Bool-cases (x == parent)) [
    | inl z ↦
        subst (λ y. (t'.nodes y).parent_slot ≡ (t.nodes y).parent_slot) (sym (==→eq x parent z))
          (ap Node.parent_slot m.at_parent)
    | inr z ↦ ap Node.parent_slot (m.elsewhere x (==→ne x parent z))
  ]
