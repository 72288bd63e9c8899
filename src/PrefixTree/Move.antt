-- ===== src/PrefixTree/Move.antt =====
-- A node of PrefixTree.cc that takes another one's place, with a wider range, and the lookups.
use sharedstructures.Base.{
  ℕ, ◌-◌, ◌≡◌, ◌≢◌, refl, ap, sym, ◌∙◌, ◌⊎◌, inl, inr, Bool, true, false, ◌==◌, if◌then◌else◌,
  Bool-cases, List, [], ◌∷◌, ==→eq, ==→ne, eq→==, subst,
}
use sharedstructures.PrefixTree.Contents.{is_sub_node}
use sharedstructures.PrefixTree.Node.{Node, Tree, update, set_child, in_range}
use sharedstructures.PrefixTree.Reading.{look}
use sharedstructures.PrefixTree.Links.{
  slot_look, slot_look-below, slot_look-link, when, child_at, Closed, SameBelow, look-same_node,
}

-- A link from the slot for `c` of the node `x` to the node `y`.
pub record Link {S : Type 0} (t : Tree S) (x c y : ℕ) : Type 0 where
  pub inside : in_range c (t.nodes x) ≡ true
  pub there : child_at (t.nodes x) c ≡ y
  pub some_node : (y == 0) ≡ false
  pub sub_node : is_sub_node y ≡ true

-- A node with the slots of another one, and others that are empty.
pub record Wider (n w : Node) : Type 0 where
  pub same_value : w.value ≡ n.value
  pub slots : (c : ℕ) → in_range c n ≡ true → (in_range c w ≡ true) × (child_at w c ≡ child_at n c)
  pub gaps : (c : ℕ) → in_range c n ≡ false → (in_range c w ≡ false) ⊎ (child_at w c ≡ 0)

pub record Moved {S T : Type 0} (t : Tree S) (t' : Tree T) (parent via node r : ℕ) : Type 0 where
  pub link : Link t parent via node
  pub at_parent : t'.nodes parent ≡ set_child (t.nodes parent) (via - (t.nodes parent).start) r
  pub at_new : Wider (t.nodes node) (t'.nodes r)
  pub elsewhere : (x : ℕ) → x ≢ parent → x ≢ r → t'.nodes x ≡ t.nodes x

no_matter : (b : Bool) → when b 0 ≡ 0
no_matter true = refl
no_matter false = refl

slot_look-gap :
    (inside : Bool) (v : ℕ) (k : List ℕ) (p : ℕ)
    → (inside ≡ false) ⊎ (v ≡ 0)
    → slot_look inside v k p ≡ 0
slot_look-gap inside v k p (inl e) = rw e refl
slot_look-gap inside v k p (inr e) = rw (eq→== v 0 e) (no_matter inside)

module _ {S T : Type 0} (t : Tree S) (t' : Tree T) (P : ℕ → Type 0) (closed : Closed t P)
    (parent via node r : ℕ) (m : Moved t t' parent via node r) (pn : P node)
    (fresh : (x : ℕ) → P x → x ≢ r) (nonzero : r ≢ 0) (link : is_sub_node r ≡ true) where
  abbrev step_of : Node → ℕ → List ℕ → ℕ
  step_of n e k = slot_look (in_range e n) (child_at n e) k (look t' (child_at n e) k)

  -- At the new node, given that the lookups below are the same.
  look-moved : (k : List ℕ) (e : ℕ) → SameBelow t t' P k → look t' r (e ∷ k) ≡ look t node (e ∷ k)
  unfolding look
  look-moved k e ih =
      let n = t.nodes node in
      let w = t'.nodes r in
      elim (Bool-cases (in_range e n)) [
        | inl i ↦
            let (j, same) = m.at_new.slots e i in
            ap (λ b. slot_look b (child_at w e) k (look t' (child_at w e) k)) (j ∙ sym i)
            ∙ ap (λ v. slot_look (in_range e n) v k (look t' v k)) same
            ∙ slot_look-below (in_range e n) (child_at n e) k (look t' (child_at n e) k)
                (look t (child_at n e) k) λ i z s. ih (child_at n e) (closed.linked node e pn i z s)
        | inr i ↦
            slot_look-gap (in_range e w) (child_at w e) k (look t' (child_at w e) k)
              (m.at_new.gaps e i)
            ∙ sym (slot_look-gap (in_range e n) (child_at n e) k (look t (child_at n e) k) (inl i))
      ]

  SameNew : List ℕ → Type 0
  SameNew k = look t' r k ≡ look t node k

  moved_hit :
      (inside : Bool) (v : ℕ) (k : List ℕ)
      → v ≡ node
      → look t' r k ≡ look t node k
      → slot_look inside r k (look t' r k) ≡ slot_look inside v k (look t v k)
  moved_hit inside v k e new =
      slot_look-link inside r k (look t' r k) nonzero link
      ∙ ap (when inside) new
      ∙ sym (
          slot_look-link inside node k (look t node k) (==→ne node 0 m.link.some_node)
            m.link.sub_node)
      ∙ ap (λ v. slot_look inside v k (look t v k)) (sym e)

  moved_slot :
      (e : ℕ) (k : List ℕ)
      → P parent
      → SameBelow t t' P k
      → look t' r k ≡ look t node k
      → look t' parent (e ∷ k) ≡ look t parent (e ∷ k)
  unfolding look update
  moved_slot e k pp ih new =
      let n = t.nodes parent in
      let j = via - n.start in
      let inside = in_range e n in
      let step =
        λ (b : Bool). let v = if b then r else child_at n e in slot_look inside v k (look t' v k) in
      ap (λ n. step_of n e k) m.at_parent ∙ elim (Bool-cases ((e - n.start) == j)) [
        | inl z ↦
            ap step z
            ∙ moved_hit inside (child_at n e) k
                (ap n.children (==→eq (e - n.start) j z) ∙ m.link.there) new
        | inr z ↦
            ap step z
            ∙ slot_look-below inside (child_at n e) k (look t' (child_at n e) k)
                (look t (child_at n e) k)
                λ i z s. ih (child_at n e) (closed.linked parent e pp i z s)
      ]

  moved_value : (x : ℕ) → P x → (t'.nodes x).value ≡ (t.nodes x).value
  moved_value x px = elim (Bool-cases (x == parent)) [
    | inl z ↦
        subst (λ y. (t'.nodes y).value ≡ (t.nodes y).value) (sym (==→eq x parent z))
          (ap Node.value m.at_parent)
    | inr z ↦ ap Node.value (m.elsewhere x (==→ne x parent z) (fresh x px))
  ]

  pub Moved-look : (k : List ℕ) → SameBelow t t' P k × (look t' r k ≡ look t node k)
  unfolding look
  Moved-look [] = (moved_value, m.at_new.same_value)
  Moved-look (e ∷ k) =
      let (ih, new) = Moved-look k in
      (
        (λ x px. elim (Bool-cases (x == parent)) [
          | inl z ↦
              let same = ==→eq x parent z in
              subst (λ y. look t' y (e ∷ k) ≡ look t y (e ∷ k)) (sym same)
                (moved_slot e k (subst P same px) ih new)
          | inr z ↦
              look-same_node t t' P x e k closed px (m.elsewhere x (==→ne x parent z) (fresh x px))
                ih
        ]),
        look-moved k e ih,
      )
