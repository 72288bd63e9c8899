-- ===== src/ProcessLock/ReadWrite/Slots.antt =====
-- What the step of one process does to the reader slots, seen by the others.
use sharedstructures.Base.{
  ℕ, ◌≡◌, ◌≢◌, ◌⊎◌, inl, inr, sym, ap, ◌∙◌, Bool, true, Bool-cases, ◌==◌, ==→eq, ==→ne,
}
use sharedstructures.ProcessLock.Processes.{
  Processes, token_of, InOrder, Known, token_of-nonzero, token_of-injective,
}

-- The slots stay, one is emptied that holds 0, the token of a process that has ended or the
-- process' own, or an empty one is taken under the write lock.
pub data Slotting (p : Processes) (i : ℕ) (locked : Bool) (f f' : ℕ → ℕ) : Type 0 where
  untouched : ((y : ℕ) → f' y ≡ f y) → Slotting p i locked f f'
  emptied :
      (x : ℕ)
      → f' x ≡ 0
      → ((y : ℕ) → x ≢ y → f' y ≡ f y)
      → (f x ≡ 0) ⊎ (p.buried (f x) ≡ true) ⊎ (f x ≡ token_of p i)
      → Slotting p i locked f f'
  placed :
      (x : ℕ)
      → f' x ≡ token_of p i
      → ((y : ℕ) → x ≢ y → f' y ≡ f y)
      → f x ≡ 0
      → locked ≡ true
      → Slotting p i locked f f'

module _ {p : Processes} (o : InOrder p) {i : ℕ} (q : p.start i ≢ 0) {locked : Bool}
    {f f' : ℕ → ℕ} where
  pub Slotting-Known :
      Slotting p i locked f f'
      → ((x : ℕ) → f x ≢ 0 → Known p (f x))
      → (x : ℕ) → f' x ≢ 0
      → Known p (f' x)
  Slotting-Known (untouched e) k x n = rw (e x) (k x (λ z. n (e x ∙ z)))
  Slotting-Known (emptied y e d b) k x n = elim (Bool-cases (y == x)) [
    | inl same ↦ absurd (n (ap f' (sym (==→eq y x same)) ∙ e))
    | inr other ↦ let s = d x (==→ne y x other) in rw s (k x (λ z. n (s ∙ z)))
  ]
  Slotting-Known (placed y e d b l) k x n = elim (Bool-cases (y == x)) [
    | inl same ↦ inr (i, q, ap f' (sym (==→eq y x same)) ∙ e)
    | inr other ↦ let s = d x (==→ne y x other) in rw s (k x (λ z. n (s ∙ z)))
  ]

  -- Another process' slot stays its own.
  pub Slotting-own :
      Slotting p i locked f f'
      → (j : ℕ) → i ≢ j
      → p.start j ≢ 0
      → (x : ℕ) → f x ≡ token_of p j
      → f' x ≡ token_of p j
  Slotting-own (untouched e) j d r x h = e x ∙ h
  Slotting-own (emptied y e k b) j d r x h = elim (Bool-cases (y == x)) [
    | inl same ↦ absurd (own b (ap f (==→eq y x same) ∙ h))
    | inr other ↦ k x (==→ne y x other) ∙ h
  ]
    where
      own : (f y ≡ 0) ⊎ (p.buried (f y) ≡ true) ⊎ (f y ≡ token_of p i) → f y ≡ token_of p j → ⊥
      own (inl z) h = token_of-nonzero o j r (sym h ∙ z)
      own (inr (inl b)) h = let live = o.unburied j r in cc
      own (inr (inr m)) h = d (token_of-injective o i j q r (sym m ∙ h))
  Slotting-own (placed y e k b l) j d r x h = elim (Bool-cases (y == x)) [
    | inl same ↦ absurd (token_of-nonzero o j r (sym h ∙ ap f (sym (==→eq y x same)) ∙ b))
    | inr other ↦ k x (==→ne y x other) ∙ h
  ]

  -- Without the write lock no empty slot is taken.
  pub Slotting-empty : Slotting p i locked f f' → ¬ (locked ≡ true) → (x : ℕ) → f x ≡ 0 → f' x ≡ 0
  Slotting-empty (untouched e) n x h = e x ∙ h
  Slotting-empty (emptied y e k b) n x h = elim (Bool-cases (y == x)) [
    | inl same ↦ ap f' (sym (==→eq y x same)) ∙ e
    | inr other ↦ k x (==→ne y x other) ∙ h
  ]
  Slotting-empty (placed y e k b l) n x h = absurd (n l)

  pub Slotting-emptying :
      Slotting p i locked f f'
      → ¬ (locked ≡ true)
      → (x v : ℕ) → (f x ≡ 0) ⊎ (f x ≡ v)
      → (f' x ≡ 0) ⊎ (f' x ≡ v)
  Slotting-emptying t n x v (inl z) = inl (Slotting-empty t n x z)
  Slotting-emptying (untouched e) n x v (inr h) = inr (e x ∙ h)
  Slotting-emptying (emptied y e k b) n x v (inr h) = elim (Bool-cases (y == x)) [
    | inl same ↦ inl (ap f' (sym (==→eq y x same)) ∙ e)
    | inr other ↦ inr (k x (==→ne y x other) ∙ h)
  ]
  Slotting-emptying (placed y e k b l) n x v (inr h) = absurd (n l)
