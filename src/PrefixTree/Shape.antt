-- ===== src/PrefixTree/Shape.antt =====
-- The shape of a tree in order, and where the traversal stops in it.
use sharedstructures.Base.{
  ℕ, ◌+◌, ◌-◌, ◌≡◌, ◌≢◌, ◌<◌, refl, ap, arith, sym, ◌∙◌, ◌⊎◌, inl, inr, true, false, ◌==◌,
  Bool-cases, List, [], ◌∷◌, ==→eq, ==→ne, eq→==, subst,
}
use sharedstructures.Allocator.{Allocator}
use sharedstructures.PrefixTree.Contents.{is_sub_node}
use sharedstructures.PrefixTree.Node.{Node, Tree, update, set_child, in_range}
use sharedstructures.PrefixTree.Traverse.{Stop, at_value, at_node, at_last, follow}
use sharedstructures.PrefixTree.ShortString.{AreBytes, byte}
use sharedstructures.PrefixTree.Links.{Closed, child_at, IsUnused, empty, value}
use sharedstructures.PrefixTree.Move.{Link, Moved}
use sharedstructures.PrefixTree.Widen.{in_bounds}

-- `P` holds for the nodes of the tree, `rank` is their depth, `home` the block that a node stands in:
-- its own, but for the root, which stands in the TreeBase.
pub record WellFormed (A : Allocator) (t : Tree A.State) (P : ℕ → Type 0) : Type 0 where
  pub closed : Closed t P
  pub root_in : P t.root
  pub root_start : (t.nodes t.root).start ≡ 0
  pub root_end : (t.nodes t.root).end ≡ 255
  pub rank : ℕ → ℕ
  pub home : ℕ → ℕ
  pub deeper : (x c y : ℕ) → P x → Link t x c y → rank y ≡ rank x + 1
  pub one_link :
      (x c x' c' y : ℕ) → P x → P x' → Link t x c y → Link t x' c' y → (x ≡ x') × (c ≡ c')
  pub parent_slot : (x c y : ℕ) → P x → Link t x c y → (t.nodes y).parent_slot ≡ c
  pub not_root : (x c y : ℕ) → P x → Link t x c y → y ≢ t.root
  pub held : (x : ℕ) → P x → A.In t.alloc (home x) x
  pub own_home : (x : ℕ) → P x → x ≢ t.root → home x ≡ x
  pub root_home : (x : ℕ) → P x → x ≢ t.root → home t.root ≢ x

module _ (A : Allocator) (t : Tree A.State) (P : ℕ → Type 0) (w : WellFormed A t P) where
  -- How the traversal came to a node.
  unfoldable pub Came : ℕ → ℕ → ℕ → Type 0
  Came parent via node = (node ≡ t.root) ⊎ (P parent × Link t parent via node)

  pub data Stopped : Stop → Type 0 where
    stopped_value : {node i : ℕ} → Stopped (at_value node i)
    stopped_end : {parent via node : ℕ} → Stopped (at_node parent via node [])
    stopped_here :
        {parent via node c : ℕ} {k : List ℕ}
        → P node
        → Came parent via node
        → c < 256
        → (in_range c (t.nodes node) ≡ false) ⊎ IsUnused (child_at (t.nodes node) c)
        → Stopped (at_node parent via node (c ∷ k))

  last-Stopped :
      (parent via node i c : ℕ) (k : List ℕ)
      → P node
      → Came parent via node
      → c < 256
      → IsUnused (child_at (t.nodes node) c)
      → Stopped (at_last parent via node k i (c ∷ k))
  last-Stopped parent via node i c [] pn came l u = stopped_value
  last-Stopped parent via node i c (_ ∷ _) pn came l u = stopped_here pn came l (inr u)

  pub follow-Stopped :
      (parent via node : ℕ) (k path : List ℕ)
      → P node
      → Came parent via node
      → AreBytes k
      → Stopped (follow t parent via node path k).stop
  unfolding follow Came
  follow-Stopped parent via node [] path pn came bytes = stopped_end
  follow-Stopped parent via node (c ∷ k) path pn came (byte l bytes) =
      let n = t.nodes node in
      let next = child_at n c in
      elim (Bool-cases (in_range c n)) [
        | inr i ↦ rw i (stopped_here pn came l (inl i))
        | inl i ↦ elim (Bool-cases (next == 0)) [
          | inl z ↦ rw i (rw z (stopped_here pn came l (inr (empty z))))
          | inr z ↦ elim (Bool-cases (is_sub_node next)) [
            | inr s ↦
                rw i
                  (rw z (rw s (last-Stopped parent via node (c - n.start) c k pn came l (value s))))
            | inl s ↦
                let link : Link t node c next = record {
                  inside = i;
                  there = refl;
                  some_node = z;
                  sub_node = s;
                } in
                rw i (
                  rw z (
                    rw s (
                      follow-Stopped node c next k (next ∷ path) (w.closed.linked node c pn i z s)
                        (inr (pn, link)) bytes)))
          ]
        ]
      ]

  pub root_in_range : (c : ℕ) → c < 256 → in_range c (t.nodes t.root) ≡ true
  root_in_range c l = in_bounds c _ _ (omega (arith, w.root_start)) (omega (arith, w.root_end))

pub true≢false : true ≢ false
true≢false h = cc

module _ (A : Allocator) (t : Tree A.State) {T : Type 0} (t' : Tree T) (P : ℕ → Type 0)
    (w : WellFormed A t P) (parent via node r : ℕ) (m : Moved t t' parent via node r)
    (pp : P parent) (fresh : (x : ℕ) → P x → x ≢ r) where
  unfoldable pub Left : ℕ → Type 0
  Left x = (P x × (x ≢ node)) ⊎ (x ≡ r)

  abbrev LeadsTo : (ℕ → Type 0) → ℕ → Node → Type 0
  LeadsTo Q e n =
      in_range e n ≡ true
      → (child_at n e == 0) ≡ false
      → is_sub_node (child_at n e) ≡ true
      → Q (child_at n e)

  in_node : P node
  in_node = subst P m.link.there (
      w.closed.linked parent via pp m.link.inside
        (subst (λ v. (v == 0) ≡ false) (sym m.link.there) m.link.some_node)
        (subst (λ v. is_sub_node v ≡ true) (sym m.link.there) m.link.sub_node))

  -- A link from an old node leads to the moved node only from its parent.
  old_leads : (x e : ℕ) → P x → ¬ ((x ≡ parent) × (e ≡ via)) → LeadsTo Left e (t.nodes x)
  unfolding Left
  old_leads x e px other i z s = inl (
    w.closed.linked x e px i z s,
    λ same.
        let link : Link t x e node = record {
          inside = i;
          there = same;
          some_node = m.link.some_node;
          sub_node = m.link.sub_node;
        } in
        other (w.one_link x e parent via node px pp link m.link),
  )

  not_itself : (e : ℕ) → ¬ ((node ≡ parent) × (e ≡ via))
  not_itself e (same, _) = omega (arith, ap w.rank same, w.deeper parent via node pp m.link)

  new_leads : (e : ℕ) → LeadsTo Left e (t'.nodes r)
  new_leads e i z s = elim (Bool-cases (in_range e (t.nodes node))) [
    | inl k ↦
        let (_, same) = m.at_new.slots e k in
        subst Left (sym same) (
          old_leads node e in_node (not_itself e) k (subst (λ v. (v == 0) ≡ false) same z)
            (subst (λ v. is_sub_node v ≡ true) same s))
    | inr k ↦ elim (m.at_new.gaps e k) [
      | inl out ↦ absurd (true≢false (sym i ∙ out))
      | inr none ↦ absurd (true≢false (sym (eq→== (child_at (t'.nodes r) e) 0 none) ∙ z))
    ]
  ]

  parent_leads :
      (e : ℕ) → LeadsTo Left e (set_child (t.nodes parent) (via - (t.nodes parent).start) r)
  unfolding Left update
  parent_leads e i z s =
      let n = t.nodes parent in
      let j = via - n.start in
      elim (Bool-cases ((e - n.start) == j)) [
        | inl q ↦ inr (rw q refl)
        | inr q ↦
            let same : child_at (set_child n j r) e ≡ child_at n e = rw q refl in
            subst Left (sym same) (
              old_leads parent e pp (λ h. ==→ne (e - n.start) j q (ap (λ x. x - n.start) h.1)) i
                (subst (λ v. (v == 0) ≡ false) same z) (subst (λ v. is_sub_node v ≡ true) same s))
      ]

  leads : (x e : ℕ) → Left x → LeadsTo Left e (t'.nodes x)
  unfolding Left
  leads x e (inr same) = subst (λ y. LeadsTo Left e (t'.nodes y)) (sym same) (new_leads e)
  leads x e (inl (px, _)) = elim (Bool-cases (x == parent)) [
    | inl q ↦
        subst (λ y. LeadsTo Left e (t'.nodes y)) (sym (==→eq x parent q))
          (subst (LeadsTo Left e) (sym m.at_parent) (parent_leads e))
    | inr q ↦
        subst (LeadsTo Left e) (sym (m.elsewhere x (==→ne x parent q) (fresh x px)))
          (old_leads x e px λ h. ==→ne x parent q h.0)
  ]

  pub Moved-Closed : Closed t' Left
  Moved-Closed = record { linked = λ x e left. leads x e left }
