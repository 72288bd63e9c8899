-- ===== src/ProcessLock/Progress.antt =====
-- acquire_process_lock on a lock that nobody else touches meanwhile.
use sharedstructures.Base.{
  Bool-cases, subst, ==→ne, ℕ, ◌≡◌, ◌≢◌, inl, inr, refl, sym, true, false, not, ◌==◌, eq→==, ne→==,
  List, [], ◌∷◌,
}
use sharedstructures.ProcessLock.Token.{process_for_token_is_running}
use sharedstructures.ProcessLock.Acquire.{
  FutexResult, succeeded, again, would_block, interrupted, timed_out, other_error, futex_wait,
  compare_exchange_strong, Acquiring, trying, waiting, asking, stealing, acquired, threw,
  acquire_step, has_acquired,
}

-- The steps that the system calls' results lead to; each result serves one step.
unfoldable pub acquire_steps :
    (start_of : ℕ → ℕ) (desired : ℕ) → List FutexResult → Acquiring × ℕ → Acquiring × ℕ
acquire_steps start_of desired [] t = t
acquire_steps start_of desired (r ∷ rs) t =
    acquire_steps start_of desired rs (acquire_step start_of desired r (t.0) (t.1))

module _ (start_of : ℕ → ℕ) (desired : ℕ) where
  -- A lock that is free, or whose holder does not run, is acquired within four steps, the wait
  -- timing out, and reported as stolen exactly if it was not free.
  pub acquire_steps-Stopped :
      (word : ℕ) (a b c : FutexResult)
      → (word ≢ 0 → process_for_token_is_running start_of word ≡ false)
      → acquire_steps start_of desired (a ∷ timed_out ∷ b ∷ c ∷ []) (trying, word)
        ≡ (acquired (not (word == 0)), desired)
  unfolding acquire_steps acquire_step futex_wait compare_exchange_strong
  acquire_steps-Stopped word a b c h = elim (Bool-cases (word == 0)) [
    | inl free ↦ rw free refl
    | inr held ↦ rw held (rw (h (==→ne word 0 held)) (rw (eq→== word word refl) refl))
  ]

  module _ (word : ℕ) (n : word ≢ 0)
      (runs : process_for_token_is_running start_of word ≡ true) where
    abbrev Standing : Acquiring → Type 0
    Standing trying = Unit
    Standing (waiting e) = e ≡ word
    Standing (asking e) = e ≡ word
    Standing (stealing e) = ⊥
    Standing (acquired b) = ⊥
    Standing threw = Unit

    acquire_step-Standing :
        (r : FutexResult) (s : Acquiring)
        → Standing s
        → Standing ((acquire_step start_of desired r s word).0)
          × ((acquire_step start_of desired r s word).1 ≡ word)
    unfolding acquire_step futex_wait compare_exchange_strong
    acquire_step-Standing r trying h = rw (ne→== word 0 n) (refl, refl)
    acquire_step-Standing succeeded (waiting e) h = (tt, refl)
    acquire_step-Standing again (waiting e) h = (tt, refl)
    acquire_step-Standing would_block (waiting e) h = (tt, refl)
    acquire_step-Standing interrupted (waiting e) h = (h, refl)
    acquire_step-Standing timed_out (waiting e) h = (h, refl)
    acquire_step-Standing other_error (waiting e) h = (tt, refl)
    acquire_step-Standing r (asking e) h = rw (h, runs) (tt, refl)
    acquire_step-Standing r (stealing e) h = absurd h
    acquire_step-Standing r (acquired b) h = absurd h
    acquire_step-Standing r threw h = (tt, refl)

    acquire_steps-Standing :
        (rs : List FutexResult) (s : Acquiring)
        → Standing s
        → Standing ((acquire_steps start_of desired rs (s, word)).0)
          × ((acquire_steps start_of desired rs (s, word)).1 ≡ word)
    unfolding acquire_steps
    acquire_steps-Standing [] s h = (h, refl)
    acquire_steps-Standing (r ∷ rs) s h =
        let t = acquire_step start_of desired r s word in
        let k = acquire_step-Standing r s h in
        subst
          (λ v.
            Standing ((acquire_steps start_of desired rs (t.0, v)).0)
            × ((acquire_steps start_of desired rs (t.0, v)).1 ≡ word))
          (sym (k.1)) (acquire_steps-Standing rs (t.0) (k.0))

    Standing-outside : (s : Acquiring) → Standing s → has_acquired s ≡ false
    Standing-outside trying h = refl
    Standing-outside (waiting e) h = refl
    Standing-outside (asking e) h = refl
    Standing-outside (stealing e) h = refl
    Standing-outside (acquired b) h = absurd h
    Standing-outside threw h = refl

    -- While the holder runs, the lock stays its own, whatever the system calls end with.
    pub acquire_steps-Running :
        (rs : List FutexResult)
        → (has_acquired ((acquire_steps start_of desired rs (trying, word)).0) ≡ false)
          × ((acquire_steps start_of desired rs (trying, word)).1 ≡ word)
    acquire_steps-Running rs =
        let k = acquire_steps-Standing rs trying tt in (Standing-outside _ (k.0), k.1)
