-- ===== src/PrefixTree/Keys.antt =====
-- The keys that lead to a node of the tree of PrefixTree.cc.
use sharedstructures.Base.{ℕ, ◌≡◌, refl, ap, sym, ◌∙◌, ◌==◌, List, [], ◌∷◌, ◌++◌, subst}
use mathlib.Core.List.{append-nil}
use sharedstructures.Allocator.{Allocator}
use sharedstructures.PrefixTree.Contents.{is_sub_node}
use sharedstructures.PrefixTree.Node.{Tree}
use sharedstructures.PrefixTree.Move.{Link}
use sharedstructures.PrefixTree.Shape.{WellFormed}

-- The links by the characters of a key lead from one node to another.
pub data Reaches {S : Type 0} (t : Tree S) : ℕ → List ℕ → ℕ → Type 0 where
  here : {x : ℕ} → Reaches t x [] x
  down : {x c y z : ℕ} {k : List ℕ} → Link t x c y → Reaches t y k z → Reaches t x (c ∷ k) z

onto : List ℕ → List ℕ → List ℕ
onto [] r = r
onto (c ∷ k) r = onto k (c ∷ r)

onto-onto : (k r s : List ℕ) → onto (onto k r) s ≡ onto r (k ++ s)
unfolding onto
onto-onto [] r s = refl
onto-onto (c ∷ k) r s = onto-onto k (c ∷ r) s

onto_injective : (k k' : List ℕ) → onto k [] ≡ onto k' [] → k ≡ k'
unfolding onto
onto_injective k k' e =
    sym (append-nil k)
    ∙ sym (onto-onto k [] [])
    ∙ ap (λ r. onto r []) e
    ∙ onto-onto k' [] []
    ∙ append-nil k'

module _ (A : Allocator) (t : Tree A.State) (P : ℕ → Type 0) (w : WellFormed A t P) where
  -- From the root, the key backwards.
  data Trail : List ℕ → ℕ → Type 0 where
    start : {x : ℕ} → x ≡ t.root → Trail [] x
    step : {r : List ℕ} {x c y : ℕ} → P x → Trail r x → Link t x c y → Trail (c ∷ r) y

  linked_in : {x c y : ℕ} → P x → Link t x c y → P y
  linked_in {x} {c} {y} px l = subst P l.there (
      w.closed.linked x c px l.inside (ap (λ v. v == 0) l.there ∙ l.some_node)
        (ap is_sub_node l.there ∙ l.sub_node))

  Trail-Reaches : {x z : ℕ} (r k : List ℕ) → P x → Trail r x → Reaches t x k z → Trail (onto k r) z
  unfolding onto
  Trail-Reaches r [] px p here = p
  Trail-Reaches r (c ∷ k) px p (down l q) = Trail-Reaches (c ∷ r) k (linked_in px l) (step px p l) q

  Trail-unique : {y : ℕ} (r r' : List ℕ) → Trail r y → Trail r' y → r ≡ r'
  Trail-unique [] [] (start e) (start e') = refl
  Trail-unique [] (c' ∷ r') (start e) (step {x = x'} px' p' l') =
      absurd (w.not_root x' c' _ px' l' e)
  Trail-unique (c ∷ r) [] (step {x = x} px p l) (start e) = absurd (w.not_root x c _ px l e)
  Trail-unique {y} (c ∷ r) (c' ∷ r') (step {x = x} px p l) (step {x = x'} px' p' l') =
      let (same, via) = w.one_link x c x' c' y px px' l l' in
      ap (λ c. c ∷ r) via ∙ ap (λ r. c' ∷ r) (Trail-unique r r' p (subst (Trail r') (sym same) p'))

  pub Reaches-unique :
      {z : ℕ} (k k' : List ℕ) → Reaches t t.root k z → Reaches t t.root k' z → k ≡ k'
  Reaches-unique k k' p q = onto_injective k k' (
      Trail-unique (onto k []) (onto k' []) (Trail-Reaches [] k w.root_in (start refl) p)
        (Trail-Reaches [] k' w.root_in (start refl) q))
