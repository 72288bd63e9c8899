-- ===== src/PrefixTree/Links.antt =====
-- How a lookup in the tree of PrefixTree.cc depends on the nodes, slot by slot.
use sharedstructures.Base.{
  ℕ, ◌-◌, ◌≡◌, ◌≢◌, refl, ap, sym, ◌∙◌, ◌⊎◌, inl, inr, Bool, true, false, not, ◌==◌, if◌then◌else◌,
  Bool-cases, List, [], ◌∷◌, ==→eq, ==→ne, ne→==, subst,
}
use sharedstructures.PrefixTree.Contents.{is_sub_node}
use sharedstructures.PrefixTree.Node.{Node, Tree, update, set_child, in_range}
use sharedstructures.PrefixTree.Traverse.{single}
use sharedstructures.PrefixTree.Reading.{look, at_end}

-- One step of `look`: what the slot says, or what is found below it.
abbrev pub slot_look : Bool → ℕ → List ℕ → ℕ → ℕ
slot_look inside next k below =
    if not inside
    then 0
    else if next == 0
    then 0
    else if not (is_sub_node next)
    then at_end k next
    else below

abbrev pub child_at : Node → ℕ → ℕ
child_at n c = n.children (c - n.start)

-- The slot does not link to a node.
pub data IsUnused : ℕ → Type 0 where
  empty : {v : ℕ} → (v == 0) ≡ true → IsUnused v
  value : {v : ℕ} → is_sub_node v ≡ false → IsUnused v

pub slot_look-below :
    (inside : Bool) (next : ℕ) (k : List ℕ) (p q : ℕ)
    → (inside ≡ true → (next == 0) ≡ false → is_sub_node next ≡ true → p ≡ q)
    → slot_look inside next k p ≡ slot_look inside next k q
slot_look-below false next k p q h = refl
slot_look-below true next k p q h = elim (Bool-cases (next == 0)) [
  | inl z ↦ rw z refl
  | inr z ↦ elim (Bool-cases (is_sub_node next)) [
    | inl s ↦ rw z (rw s (h refl z s))
    | inr s ↦ rw z (rw s refl)
  ]
]

abbrev pub when : Bool → ℕ → ℕ
when inside v = if not inside then 0 else v

pub at_end-zero : (k : List ℕ) (v : ℕ) → (v == 0) ≡ true → 0 ≡ at_end k v
at_end-zero [] v z = sym (==→eq v 0 z)
at_end-zero (_ ∷ _) v z = refl

pub when-zero : (inside : Bool) (k : List ℕ) → when inside (at_end k 0) ≡ 0
when-zero false k = refl
when-zero true k = sym (at_end-zero k 0 refl)

pub slot_look-unused :
    (inside : Bool) (v : ℕ) (k : List ℕ) (p : ℕ)
    → IsUnused v
    → slot_look inside v k p ≡ when inside (at_end k v)
slot_look-unused false v k p u = refl
slot_look-unused true v k p (empty z) = rw z (at_end-zero k v z)
slot_look-unused true v k p (value s) = elim (Bool-cases (v == 0)) [
  | inl z ↦ rw z (at_end-zero k v z)
  | inr z ↦ rw z (rw s refl)
]

pub slot_look-link :
    (inside : Bool) (r : ℕ) (k : List ℕ) (p : ℕ)
    → r ≢ 0
    → is_sub_node r ≡ true
    → slot_look inside r k p ≡ when inside p
slot_look-link false r k p z s = refl
slot_look-link true r k p z s = rw (ne→== r 0 z) (rw s refl)

-- The nodes that links lead to from nodes of `P` are in `P`.
pub record Closed {S : Type 0} (t : Tree S) (P : ℕ → Type 0) : Type 0 where
  pub linked :
      (x c : ℕ)
      → P x
      → in_range c (t.nodes x) ≡ true
      → (child_at (t.nodes x) c == 0) ≡ false
      → is_sub_node (child_at (t.nodes x) c) ≡ true
      → P (child_at (t.nodes x) c)

module _ {S T : Type 0} (t : Tree S) (t' : Tree T) (P : ℕ → Type 0) where
  abbrev pub SameBelow : List ℕ → Type 0
  SameBelow k = (x : ℕ) → P x → look t' x k ≡ look t x k

  pub look-same_node :
      (x c : ℕ) (k : List ℕ)
      → Closed t P
      → P x
      → t'.nodes x ≡ t.nodes x
      → SameBelow k
      → look t' x (c ∷ k) ≡ look t x (c ∷ k)
  unfolding look
  look-same_node x c k closed px e ih =
      let n = t.nodes x in
      ap (λ n. slot_look (in_range c n) (child_at n c) k (look t' (child_at n c) k)) e
      ∙ slot_look-below (in_range c n) (child_at n c) k (look t' (child_at n c) k)
          (look t (child_at n c) k) λ i z s. ih (child_at n c) (closed.linked x c px i z s)

-- A new node under a slot that linked to none, which takes over what the slot held.
pub record Grown {S T : Type 0} (t : Tree S) (t' : Tree T) (node i r d c : ℕ) : Type 0 where
  pub at_node : t'.nodes node ≡ set_child (t.nodes node) i r
  pub at_new : t'.nodes r ≡ single d c ((t.nodes node).children i)
  pub elsewhere : (x : ℕ) → x ≢ node → x ≢ r → t'.nodes x ≡ t.nodes x

module _ {S T : Type 0} (t : Tree S) (t' : Tree T) (P : ℕ → Type 0) (closed : Closed t P)
    (node i r d c : ℕ) (g : Grown t t' node i r d c) (fresh : (x : ℕ) → P x → x ≢ r)
    (nonzero : r ≢ 0) (link : is_sub_node r ≡ true)
    (unused : IsUnused ((t.nodes node).children i)) where
  abbrev step_of : Node → ℕ → List ℕ → ℕ
  step_of n e k = slot_look (in_range e n) (child_at n e) k (look t' (child_at n e) k)

  look-new : (k : List ℕ) → look t' r k ≡ at_end k ((t.nodes node).children i)
  unfolding look
  look-new [] = ap Node.value g.at_new
  look-new (e ∷ k) =
      let new = single d c ((t.nodes node).children i) in
      ap (λ n. step_of n e k) g.at_new
      ∙ slot_look-unused (in_range e new) 0 k (look t' 0 k) (empty refl)
      ∙ when-zero (in_range e new) k

  grown_hit :
      (inside : Bool) (v : ℕ) (k : List ℕ)
      → v ≡ (t.nodes node).children i
      → slot_look inside r k (look t' r k) ≡ slot_look inside v k (look t v k)
  grown_hit inside v k e =
      slot_look-link inside r k (look t' r k) nonzero link
      ∙ ap (when inside) (look-new k ∙ ap (at_end k) (sym e))
      ∙ sym (slot_look-unused inside v k (look t v k) (subst IsUnused (sym e) unused))

  grown_slot :
      (e : ℕ) (k : List ℕ)
      → P node
      → SameBelow t t' P k
      → look t' node (e ∷ k) ≡ look t node (e ∷ k)
  unfolding look update
  grown_slot e k pn ih =
      let n = t.nodes node in
      let inside = in_range e n in
      ap (λ n. step_of n e k) g.at_node ∙ elim (Bool-cases ((e - n.start) == i)) [
        | inl z ↦
            ap
              (λ b.
                slot_look inside (if b then r else child_at n e) k
                  (look t' (if b then r else child_at n e) k))
              z
            ∙ grown_hit inside (child_at n e) k (ap n.children (==→eq (e - n.start) i z))
        | inr z ↦
            ap
              (λ b.
                slot_look inside (if b then r else child_at n e) k
                  (look t' (if b then r else child_at n e) k))
              z
            ∙ slot_look-below inside (child_at n e) k (look t' (child_at n e) k)
                (look t (child_at n e) k) λ i z s. ih (child_at n e) (closed.linked node e pn i z s)
      ]

  same_value : (x : ℕ) → P x → (t'.nodes x).value ≡ (t.nodes x).value
  same_value x px = elim (Bool-cases (x == node)) [
    | inl z ↦
        subst (λ y. (t'.nodes y).value ≡ (t.nodes y).value) (sym (==→eq x node z))
          (ap Node.value g.at_node)
    | inr z ↦ ap Node.value (g.elsewhere x (==→ne x node z) (fresh x px))
  ]

  pub Grown-look : (k : List ℕ) → SameBelow t t' P k
  unfolding look
  Grown-look [] x px = same_value x px
  Grown-look (e ∷ k) x px = elim (Bool-cases (x == node)) [
    | inl z ↦
        let same = ==→eq x node z in
        subst (λ y. look t' y (e ∷ k) ≡ look t y (e ∷ k)) (sym same)
          (grown_slot e k (subst P same px) (Grown-look k))
    | inr z ↦
        look-same_node t t' P x e k closed px (g.elsewhere x (==→ne x node z) (fresh x px))
          (Grown-look k)
  ]

  abbrev Leading : ℕ → Node → Type 0
  Leading e n =
      in_range e n ≡ true
      → (child_at n e == 0) ≡ false
      → is_sub_node (child_at n e) ≡ true
      → P (child_at n e) ⊎ (child_at n e ≡ r)

  grown_leads : (e : ℕ) → P node → Leading e (set_child (t.nodes node) i r)
  unfolding update
  grown_leads e pn inside some_child sub = elim (Bool-cases ((e - (t.nodes node).start) == i)) [
    | inl z ↦ inr (rw z refl)
    | inr z ↦
        let old = child_at (t.nodes node) e in
        let same : child_at (set_child (t.nodes node) i r) e ≡ old = rw z refl in
        inl (
          subst P (sym same) (
            closed.linked node e pn inside (subst (λ v. (v == 0) ≡ false) same some_child)
              (subst (λ v. is_sub_node v ≡ true) same sub)))
  ]

  no_leads : (e : ℕ) → Leading e (single d c ((t.nodes node).children i))
  no_leads e inside some_child sub = absurd cc

  leads_of : (x e : ℕ) → P node → P x ⊎ (x ≡ r) → Leading e (t'.nodes x)
  leads_of x e pn (inr same) =
      subst (λ y. Leading e (t'.nodes y)) (sym same) (subst (Leading e) (sym g.at_new) (no_leads e))
  leads_of x e pn (inl px) = elim (Bool-cases (x == node)) [
    | inl z ↦
        subst (λ y. Leading e (t'.nodes y)) (sym (==→eq x node z))
          (subst (Leading e) (sym g.at_node) (grown_leads e pn))
    | inr z ↦
        subst (Leading e) (sym (g.elsewhere x (==→ne x node z) (fresh x px)))
          λ inside some_child sub. inl (closed.linked x e px inside some_child sub)
  ]

  pub Grown-Closed : P node → Closed t' (λ x. P x ⊎ (x ≡ r))
  Grown-Closed pn = record { linked = λ x e px. leads_of x e pn px }
