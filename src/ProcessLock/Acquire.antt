-- ===== src/ProcessLock/Acquire.antt =====
-- acquire_process_lock, one atomic access of the lock's word or one call at a time.
use sharedstructures.Base.{
  ℕ, ◌≡◌, ◌≢◌, ◌⊎◌, inl, inr, refl, Bool, true, false, Bool-cases, ◌==◌, ==→eq, ==→ne, sym, subst,
  if◌then◌else◌, Option, none, some,
}
use sharedstructures.ProcessLock.Token.{process_for_token_is_running}
use sharedstructures.ProcessLock.Processes.{Processes, token_of, InOrder, Known, stopped-buried}

-- What the system call for a wait ends with.
pub data FutexResult : Type 0 where
  succeeded again would_block interrupted timed_out other_error : FutexResult

-- `none` is the exception.
unfoldable pub futex_wait : FutexResult → Option Bool
futex_wait succeeded = some true
futex_wait again = some true
futex_wait would_block = some true
futex_wait interrupted = some false
futex_wait timed_out = some false
futex_wait other_error = none

-- Whether the exchange was made, the word after it, and what is left in the expected value.
pub record Exchange : Type 0 where
  pub success : Bool
  pub word : ℕ
  pub expected : ℕ

unfoldable pub compare_exchange_strong : (word expected desired : ℕ) → Exchange
compare_exchange_strong word expected desired =
    if word == expected
    then record { success = true; word = desired; expected = expected }
    else record { success = false; word = word; expected = word }

-- Where the function stands: before the exchange for a free lock, in the wait, before the question
-- whether the holder runs, before the exchange that steals; then what it returned or that it threw.
pub data Acquiring : Type 0 where
  trying : Acquiring
  waiting : (expected_value : ℕ) → Acquiring
  asking : (expected_value : ℕ) → Acquiring
  stealing : (expected_value : ℕ) → Acquiring
  acquired : (stolen : Bool) → Acquiring
  threw : Acquiring

abbrev pub after_wait : ℕ → Option Bool → Acquiring
after_wait e none = threw
after_wait e (some true) = trying
after_wait e (some false) = asking e

abbrev pub after_try : Exchange → Acquiring × ℕ
after_try x = (if x.success then acquired false else waiting x.expected, x.word)

abbrev pub after_steal : Exchange → Acquiring × ℕ
after_steal x = (if x.success then acquired true else trying, x.word)

-- One step of the process with the token `desired`, on the lock's word.
unfoldable pub acquire_step :
    (start_of : ℕ → ℕ) (desired : ℕ) → FutexResult → Acquiring → (word : ℕ) → Acquiring × ℕ
unfolding futex_wait compare_exchange_strong
acquire_step start_of desired r trying word = after_try (compare_exchange_strong word 0 desired)
acquire_step start_of desired r (waiting e) word = (after_wait e (futex_wait r), word)
acquire_step start_of desired r (asking e) word =
    (if process_for_token_is_running start_of e then trying else stealing e, word)
acquire_step start_of desired r (stealing e) word =
    after_steal (compare_exchange_strong word e desired)
acquire_step start_of desired r (acquired stolen) word = (acquired stolen, word)
acquire_step start_of desired r threw word = (threw, word)

abbrev pub has_acquired : Acquiring → Bool
has_acquired (acquired stolen) = true
has_acquired _ = false

-- The words that the function keeps are known, and one that it would steal from has ended.
abbrev pub Sound : Processes → Acquiring → Type 0
Sound p (waiting e) = Known p e
Sound p (asking e) = Known p e
Sound p (stealing e) = p.buried e ≡ true
Sound p _ = Unit

-- A step leaves the word, or takes the lock when it is free or its holder has ended.
pub data Taking (p : Processes) (i word : ℕ) (s s' : Acquiring) (word' : ℕ) : Type 0 where
  kept : word' ≡ word → has_acquired s' ≡ has_acquired s → Taking p i word s s' word'
  taken :
      word' ≡ token_of p i
      → has_acquired s' ≡ true
      → (word ≡ 0) ⊎ (p.buried word ≡ true)
      → Taking p i word s s' word'

module _ {p : Processes} (o : InOrder p) (i word : ℕ) (known : word ≢ 0 → Known p word) where
  pub acquire_step-Sound :
      (r : FutexResult) (s : Acquiring)
      → Sound p s
      → Sound p ((acquire_step p.start (token_of p i) r s word).0)
  unfolding acquire_step futex_wait compare_exchange_strong
  acquire_step-Sound r trying k = elim (Bool-cases (word == 0)) [
    | inl free ↦ rw free tt
    | inr held ↦ rw held (known (==→ne word 0 held))
  ]
  acquire_step-Sound succeeded (waiting e) k = tt
  acquire_step-Sound again (waiting e) k = tt
  acquire_step-Sound would_block (waiting e) k = tt
  acquire_step-Sound interrupted (waiting e) k = k
  acquire_step-Sound timed_out (waiting e) k = k
  acquire_step-Sound other_error (waiting e) k = tt
  acquire_step-Sound r (asking e) k = elim (Bool-cases (process_for_token_is_running p.start e)) [
    | inl runs ↦ rw runs tt
    | inr stopped ↦ rw stopped (stopped-buried o e k stopped)
  ]
  acquire_step-Sound r (stealing e) k = elim (Bool-cases (word == e)) [
    | inl same ↦ rw same tt
    | inr other ↦ rw other tt
  ]
  acquire_step-Sound r (acquired stolen) k = tt
  acquire_step-Sound r threw k = tt

  pub acquire_step-Taking :
      (r : FutexResult) (s : Acquiring)
      → Sound p s
      → Taking p i word s
          ((acquire_step p.start (token_of p i) r s word).0)
          ((acquire_step p.start (token_of p i) r s word).1)
  unfolding acquire_step futex_wait compare_exchange_strong
  acquire_step-Taking r trying k = elim (Bool-cases (word == 0)) [
    | inl free ↦ rw free (taken refl refl (inl (==→eq word 0 free)))
    | inr held ↦ rw held (kept refl refl)
  ]
  acquire_step-Taking succeeded (waiting e) k = kept refl refl
  acquire_step-Taking again (waiting e) k = kept refl refl
  acquire_step-Taking would_block (waiting e) k = kept refl refl
  acquire_step-Taking interrupted (waiting e) k = kept refl refl
  acquire_step-Taking timed_out (waiting e) k = kept refl refl
  acquire_step-Taking other_error (waiting e) k = kept refl refl
  acquire_step-Taking r (asking e) k = elim (Bool-cases (process_for_token_is_running p.start e)) [
    | inl runs ↦ rw runs (kept refl refl)
    | inr stopped ↦ rw stopped (kept refl refl)
  ]
  acquire_step-Taking r (stealing e) k = elim (Bool-cases (word == e)) [
    | inl same ↦
        rw same (taken refl refl (inr (subst (λ x. p.buried x ≡ true) (sym (==→eq word e same)) k)))
    | inr other ↦ rw other (kept refl refl)
  ]
  acquire_step-Taking r (acquired stolen) k = kept refl refl
  acquire_step-Taking r threw k = kept refl refl
