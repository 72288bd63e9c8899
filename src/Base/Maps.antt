-- ===== src/Base/Maps.antt =====
-- Families indexed by a number, and their change at one index.
use Prim.Native.Nat.{ℕ}
use mathlib.Core.Path.{◌≡◌, subst, fun_ext, ap, sym, refl, ◌∙◌}
use mathlib.Core.Logic.{◌≢◌, inl, inr}
use native.Mathlib.Omega.{arith}
use sharedstructures.Base.Tests.{if◌then◌else◌, ◌==◌, ==→eq, ==→ne, Bool-cases}

abbrev pub set_at {ℓ} : {A : Type ℓ} → (ℕ → A) → ℕ → A → ℕ → A
set_at f i a j = if i == j then a else f j

pub set_at_same {ℓ} : {A : Type ℓ} (f : ℕ → A) (i : ℕ) (a : A) → set_at f i a i ≡ a
set_at_same f i a = ground arith

pub set_at_other {ℓ} :
    {A : Type ℓ} (f : ℕ → A) (i : ℕ) (a : A) (j : ℕ) → i ≢ j → set_at f i a j ≡ f j
set_at_other f i a j n = ground arith

-- A fact about each index.
pub set_at_all {ℓ κ} :
    {A : Type ℓ} (P : ℕ → A → Type κ) (f : ℕ → A) (i : ℕ) (a : A)
    → P i a
    → ((j : ℕ) → i ≢ j → P j (f j))
    → (j : ℕ) → P j (set_at f i a j)
set_at_all P f i a h k j = elim (Bool-cases (i == j)) [
  | inl same ↦ subst (λ x. P x (set_at f i a x)) (==→eq i j same) (rw (set_at_same f i a) h)
  | inr other ↦ rw other (k j (==→ne i j other))
]

pub set_at_self {ℓ} : {A : Type ℓ} (f : ℕ → A) (i : ℕ) → set_at f i (f i) ≡ f
set_at_self f i = fun_ext (λ j. elim (Bool-cases (i == j)) [
  | inl same ↦
      ap (set_at f i (f i)) (sym (==→eq i j same)) ∙ set_at_same f i (f i) ∙ ap f (==→eq i j same)
  | inr other ↦ rw other refl
])
