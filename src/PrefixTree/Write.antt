-- ===== src/PrefixTree/Write.antt =====
-- Writing a value into a child slot of a node of PrefixTree.cc, and the lookups.
use sharedstructures.Base.{
  ℕ, ◌-◌, ◌≡◌, ◌≢◌, refl, ap, arith, sym, ◌∙◌, true, false, ◌==◌, ==→eq, ==→ne, eq→==, Bool-cases,
  inl, inr, List, [], ◌∷◌, ◌++◌, subst,
}
use sharedstructures.PrefixTree.Contents.{is_sub_node}
use sharedstructures.PrefixTree.Node.{Node, Tree, update, set_child, in_range}
use sharedstructures.Allocator.{Allocator}
use sharedstructures.PrefixTree.Reading.{look}
use sharedstructures.PrefixTree.Links.{
  slot_look, slot_look-below, slot_look-unused, slot_look-link, when, child_at, IsUnused, empty,
  value,
}
use sharedstructures.PrefixTree.Move.{Link}
use sharedstructures.PrefixTree.Widen.{bounds}
use sharedstructures.PrefixTree.Shape.{true≢false}
use sharedstructures.PrefixTree.Keys.{Reaches, here, down}

-- The slot for `c` of the node, which linked to no node, now holds the value `v`.
pub record Wrote {S T : Type 0} (t : Tree S) (t' : Tree T) (node c v : ℕ) : Type 0 where
  pub inside : in_range c (t.nodes node) ≡ true
  pub unused : IsUnused (child_at (t.nodes node) c)
  pub filled : (v == 0) ≡ false
  pub plain : is_sub_node v ≡ false
  pub at_node : t'.nodes node ≡ set_child (t.nodes node) (c - (t.nodes node).start) v
  pub elsewhere : (x : ℕ) → x ≢ node → t'.nodes x ≡ t.nodes x

module _ {S T : Type 0} (t : Tree S) (t' : Tree T) (node c v : ℕ) (m : Wrote t t' node c v) where
  abbrev step_of : Node → ℕ → List ℕ → ℕ
  step_of n e k = slot_look (in_range e n) (child_at n e) k (look t' (child_at n e) k)

  abbrev written : Node
  written = set_child (t.nodes node) (c - (t.nodes node).start) v

  written_hit :
      (e : ℕ)
      → ((e - (t.nodes node).start) == (c - (t.nodes node).start)) ≡ true
      → child_at written e ≡ v
  unfolding update
  written_hit e h = rw h refl

  written_miss :
      (e : ℕ)
      → ((e - (t.nodes node).start) == (c - (t.nodes node).start)) ≡ false
      → child_at written e ≡ child_at (t.nodes node) e
  unfolding update
  written_miss e h = rw h refl

  same_char :
      (e : ℕ)
      → in_range e (t.nodes node) ≡ true
      → ((e - (t.nodes node).start) == (c - (t.nodes node).start)) ≡ true
      → e ≡ c
  same_char e i h =
      let (p, _) = bounds e (t.nodes node) i in
      let (q, _) = bounds c (t.nodes node) m.inside in
      omega (arith, p, q, ==→eq (e - (t.nodes node).start) (c - (t.nodes node).start) h)

  at_value : look t' node (c ∷ []) ≡ v
  unfolding look
  at_value =
      let hit = written_hit c (eq→== _ _ refl) in
      ap (λ n. step_of n c []) m.at_node
      ∙ ap (λ x. slot_look (in_range c (t.nodes node)) x [] (look t' x [])) hit
      ∙ rw m.inside (rw m.filled (rw m.plain refl))

  not_unused : {x e y : ℕ} → IsUnused y → ¬ Link t x e y
  not_unused (empty u) l = true≢false (sym u ∙ l.some_node)
  not_unused (value s) l = true≢false (sym l.sub_node ∙ s)

  node_miss : (e y : ℕ) → Link t node e y → child_at written e ≡ child_at (t.nodes node) e
  node_miss e y l =
      let n = t.nodes node in
      elim (Bool-cases ((e - n.start) == (c - n.start))) [
        | inl h ↦ absurd (
            not_unused
              (subst IsUnused (ap (child_at n) (sym (same_char e l.inside h)) ∙ l.there) m.unused)
              l)
        | inr h ↦ written_miss e h
      ]

  node-Link : (e y : ℕ) → Link t node e y → Link t' node e y
  node-Link e y l = record {
    inside = ap (in_range e) m.at_node ∙ l.inside;
    there = ap (λ n. child_at n e) m.at_node ∙ node_miss e y l ∙ l.there;
    some_node = l.some_node;
    sub_node = l.sub_node;
  }

  -- A link of the old tree is one of the new tree.
  kept-Link : (x e y : ℕ) → Link t x e y → Link t' x e y
  kept-Link x e y l = elim (Bool-cases (x == node)) [
    | inl z ↦
        let same = ==→eq x node z in
        subst (λ x. Link t' x e y) (sym same) (node-Link e y (subst (λ x. Link t x e y) same l))
    | inr z ↦
        let n = m.elsewhere x (==→ne x node z) in
        record {
          inside = ap (in_range e) n ∙ l.inside;
          there = ap (λ n. child_at n e) n ∙ l.there;
          some_node = l.some_node;
          sub_node = l.sub_node;
        }
  ]

  look-Link : (x e y : ℕ) (k : List ℕ) → Link t' x e y → look t' x (e ∷ k) ≡ look t' y k
  unfolding look
  look-Link x e y k l =
      let inside = in_range e (t'.nodes x) in
      ap (λ v. slot_look inside v k (look t' v k)) l.there
      ∙ slot_look-link inside y k (look t' y k) (==→ne y 0 l.some_node) l.sub_node
      ∙ ap (λ b. when b (look t' y k)) l.inside

  pub look-written : (x : ℕ) (k : List ℕ) → Reaches t x k node → look t' x (k ++ c ∷ []) ≡ v
  look-written x [] here = at_value
  look-written x (e ∷ k) (down {y = y} l p) =
      look-Link x e y (k ++ c ∷ []) (kept-Link x e y l) ∙ look-written y k p

  value_kept : (x : ℕ) → (t'.nodes x).value ≡ (t.nodes x).value
  value_kept x = elim (Bool-cases (x == node)) [
    | inl z ↦
        subst (λ y. (t'.nodes y).value ≡ (t.nodes y).value) (sym (==→eq x node z))
          (ap Node.value m.at_node)
    | inr z ↦ ap Node.value (m.elsewhere x (==→ne x node z))
  ]

  -- No key that leads on to the slot is `q`.
  pub Apart : ℕ → List ℕ → Type 0
  Apart x q = (k : List ℕ) → Reaches t x k node → q ≢ k ++ c ∷ []

  abbrev Same : List ℕ → Type 0
  Same q = (y : ℕ) → Apart y q → look t' y q ≡ look t y q

  others_below :
      (x e : ℕ) (q : List ℕ)
      → Apart x (e ∷ q)
      → Same q
      → slot_look
          (in_range e (t.nodes x))
          (child_at (t.nodes x) e)
          q
          (look t' (child_at (t.nodes x) e) q)
        ≡ look t x (e ∷ q)
  unfolding look Apart
  others_below x e q other ih =
      let n = t.nodes x in
      slot_look-below (in_range e n) (child_at n e) q (look t' (child_at n e) q)
        (look t (child_at n e) q)
        λ i z s.
          let link : Link t x e (child_at n e) = record {
            inside = i;
            there = refl;
            some_node = z;
            sub_node = s;
          } in
          ih (child_at n e) λ k p h. other (e ∷ k) (down link p) (ap (λ l. e ∷ l) h)

  others_hit :
      (e : ℕ) (q : List ℕ)
      → e ≡ c
      → Apart node (e ∷ q)
      → slot_look (in_range e (t.nodes node)) v q (look t' v q) ≡ look t node (e ∷ q)
  unfolding look Apart
  others_hit e [] same other = absurd (other [] here (ap (λ e. e ∷ []) same))
  others_hit e (a ∷ q) same other =
      let n = t.nodes node in
      let inside = in_range e n in
      slot_look-unused inside v (a ∷ q) (look t' v (a ∷ q)) (value m.plain)
      ∙ sym (
          slot_look-unused inside (child_at n e) (a ∷ q) (look t (child_at n e) (a ∷ q))
            (subst IsUnused (ap (child_at n) (sym same)) m.unused))

  others_node :
      (e : ℕ) (q : List ℕ)
      → Apart node (e ∷ q)
      → Same q
      → look t' node (e ∷ q) ≡ look t node (e ∷ q)
  unfolding look
  others_node e q other ih =
      let n = t.nodes node in
      let inside = in_range e n in
      let step = λ (x : ℕ). slot_look inside x q (look t' x q) in
      ap (λ n. step_of n e q) m.at_node ∙ elim (Bool-cases ((e - n.start) == (c - n.start))) [
        | inr h ↦ ap step (written_miss e h) ∙ others_below node e q other ih
        | inl h ↦ elim (Bool-cases inside) [
          | inl i ↦ ap step (written_hit e h) ∙ others_hit e q (same_char e i h) other
          | inr i ↦ rw i refl
        ]
      ]

  pub look-others : (q : List ℕ) → Same q
  unfolding look
  look-others [] x other = value_kept x
  look-others (e ∷ q) x other = elim (Bool-cases (x == node)) [
    | inl z ↦
        let same = ==→eq x node z in
        subst (λ x. look t' x (e ∷ q) ≡ look t x (e ∷ q)) (sym same)
          (others_node e q (subst (λ x. Apart x (e ∷ q)) same other) (look-others q))
    | inr z ↦
        ap (λ n. step_of n e q) (m.elsewhere x (==→ne x node z))
        ∙ others_below x e q other (look-others q)
  ]
