-- ===== src/PrefixTree/Create.antt =====
-- The last loop of PrefixTree::traverse, which creates nodes, and the lookups.
use sharedstructures.Base.{
  ℕ, ◌-◌, ◌%◌, ◌≡◌, ◌≢◌, refl, ap, sym, ◌∙◌, ◌⊎◌, inl, inr, true, List, [], ◌∷◌, Option, some,
  ne→==, Option-cases, subst,
}
use sharedstructures.Outcome.{Outcome, and_then, state_of}
use sharedstructures.Allocator.{Allocator}
use sharedstructures.PrefixTree.Contents.{
  is_sub_node, is_type_sub_node, type_for_contents, type_of_number,
}
use sharedstructures.PrefixTree.Node.{
  Tree, update, set_child, size_for_range, write_node, count_node, allocate_block, block_outcome,
}
use sharedstructures.PrefixTree.Traverse.{Traversal, single, create_nodes}
use sharedstructures.PrefixTree.Store.{update_same}
use sharedstructures.PrefixTree.Links.{
  Closed, Grown, Grown-look, Grown-Closed, IsUnused, empty, child_at, SameBelow,
}

pub update_other : {B : Type 0} (f : ℕ → B) (a : ℕ) (b : B) (x : ℕ) → x ≢ a → update f a b x ≡ f x
unfolding update
update_other f a b x h = rw (ne→== x a h) refl

pub aligned-sub_node : (r : ℕ) → r % 8 ≡ 0 → is_sub_node r ≡ true
unfolding is_sub_node type_for_contents
aligned-sub_node r h = ap (λ n. is_type_sub_node (type_of_number n)) h

-- The tree after one round of the loop: the node at `r` for `d`, below the slot for `c` of `node`.
module _ {S : Type 0} where
  abbrev slot_of : ℕ → ℕ → Tree S → ℕ
  slot_of node c t = c - (t.nodes node).start

  abbrev grown : (node r c d : ℕ) → S → Tree S → Tree S
  grown node r c d a t =
      let i = slot_of node c t in
      let t₂ = write_node r (single d c ((t.nodes node).children i)) (record t { alloc = a }) in
      count_node (write_node node (set_child (t₂.nodes node) i r) t₂)

  grown-Grown :
      (node r c d : ℕ) (a : S) (t : Tree S)
      → node ≢ r
      → Grown t (grown node r c d a t) node (slot_of node c t) r d c
  grown-Grown node r c d a t h =
      let i = slot_of node c t in
      let new = single d c ((t.nodes node).children i) in
      let f = update t.nodes r new in
      record {
        at_node =
            update_same f node (set_child (f node) i r)
            ∙ ap (λ n. set_child n i r) (update_other t.nodes r new node h);
        at_new =
            update_other f node (set_child (f node) i r) r (λ z. h (sym z))
            ∙ update_same t.nodes r new;
        elsewhere = λ x ne nr.
            update_other f node (set_child (f node) i r) x ne ∙ update_other t.nodes r new x nr;
      }

module _ (A : Allocator) where
  -- The nodes of `P` stand in blocks.
  unfoldable pub Held : Tree A.State → (ℕ → Type 0) → Type 0
  Held t P = (x : ℕ) → P x → (b : ℕ) × A.In t.alloc b x

  held_after :
      (P : ℕ → Type 0) (node r c d size : ℕ) (a : A.State) (t : Tree A.State)
      → A.allocate size t.alloc ≡ some (r, a)
      → Held t P
      → Held (grown node r c d a t) (λ x. P x ⊎ (x ≡ r))
  unfolding Held
  held_after P node r c d size a t e held x (inl px) =
      let (b, h) = held x px in (b, (A.allocate_keeps e h).0)
  held_after P node r c d size a t e held x (inr z) =
      (r, subst (A.In a r) (sym z) (A.allocate_fresh e).live)

  pub held_fresh :
      (P : ℕ → Type 0) (size r : ℕ) (a : A.State) (t : Tree A.State)
      → A.allocate size t.alloc ≡ some (r, a)
      → Held t P
      → (x : ℕ) → P x
      → x ≢ r
  unfolding Held
  held_fresh P size r a t e held x px z =
      let (b, h) = held x px in (A.allocate_fresh e).was_free b (subst (A.In t.alloc b) z h)

  pub create_nodes-same :
      (P : ℕ → Type 0) (node : ℕ) (path : List ℕ) (c : ℕ) (k : List ℕ) (t : Tree A.State)
      → Closed t P
      → Held t P
      → P node
      → IsUnused (child_at (t.nodes node) c)
      → (q : List ℕ) → SameBelow t (state_of (create_nodes A node path c k t)) P q
  unfolding create_nodes allocate_block Held
  create_nodes-same P node path c [] t closed held pn unused q = λ x px. refl
  create_nodes-same P node path c (d ∷ k) t closed held pn unused q =
      let rest : ℕ → Tree A.State → Outcome (Tree A.State) Traversal = λ r t₁.
        let i = slot_of node c t in
        let t₂ = write_node r (single d c ((t.nodes node).children i)) t₁ in
        let t₃ = write_node node (set_child (t₂.nodes node) i r) t₂ in
        create_nodes A r (r ∷ path) d k (count_node t₃) in
      let size = size_for_range c c in
      let Goal = λ (o : Option (ℕ × A.State)).
        SameBelow t (state_of (and_then (block_outcome A t o) rest)) P q in
      elim (Option-cases (A.allocate size t.alloc)) [
        | inl e ↦ subst Goal (sym e) (λ x px. refl)
        | inr ((r, a), e) ↦
            let f = A.allocate_fresh e in
            let t₃ = grown node r c d a t in
            let i = slot_of node c t in
            let fresh = held_fresh P size r a t e held in
            let link = aligned-sub_node r f.aligned in
            let g = grown-Grown node r c d a t (fresh node pn) in
            let closed' =
              Grown-Closed t t₃ P closed node i r d c g fresh f.not_null link unused pn in
            let below =
              create_nodes-same (λ x. P x ⊎ (x ≡ r)) r (r ∷ path) d k t₃ closed'
                (held_after P node r c d size a t e held) (inr refl)
                (subst (λ n. IsUnused (child_at n d)) (sym g.at_new) (empty refl)) q in
            subst Goal (sym e) λ x px.
              below x (inl px)
              ∙ Grown-look t t₃ P closed node i r d c g fresh f.not_null link unused q x px
      ]
