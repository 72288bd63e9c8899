-- ===== src/ProcessLock/Turning.antt =====
-- What the step of one process does to the word of a lock, seen by the others.
use sharedstructures.Base.{arith, ℕ, ◌≡◌, ◌≢◌, ◌⊎◌, inl, inr, sym, ◌∙◌, Bool, true, false}
use sharedstructures.ProcessLock.Processes.{
  Processes, token_of, InOrder, Known, token_of-nonzero, token_of-injective, Spawnable, spawn,
  crash, spawn-Known, crash-Known,
}
use sharedstructures.ProcessLock.Acquire.{
  Acquiring, trying, waiting, asking, stealing, acquired, threw, Sound, has_acquired, Taking, kept,
  taken,
}

-- The step leaves the word and takes no lock, takes the lock when it is free or its holder has
-- ended, or releases it.
pub data Turning (p : Processes) (i word : ℕ) (held held' : Bool) (word' : ℕ) : Type 0 where
  same : word' ≡ word → (held' ≡ true → held ≡ true) → Turning p i word held held' word'
  takes :
      word' ≡ token_of p i → (word ≡ 0) ⊎ (p.buried word ≡ true) → Turning p i word held held' word'
  releases : held ≡ true → word' ≡ 0 → held' ≡ false → Turning p i word held held' word'

pub Taking-Turning :
    {p : Processes} {i word word' : ℕ} {s s' : Acquiring}
    → Taking p i word s s' word'
    → Turning p i word (has_acquired s) (has_acquired s') word'
Taking-Turning (kept e h) = same e (λ k. sym h ∙ k)
Taking-Turning (taken e h f) = takes e f

module _ {p : Processes} (o : InOrder p) {i word : ℕ} (q : p.start i ≢ 0) where
  pub Turning-word :
      {held held' : Bool} {word' : ℕ}
      → (word ≢ 0 → Known p word)
      → Turning p i word held held' word'
      → word' ≢ 0
      → Known p word'
  Turning-word known (same e h) n = rw e (known (λ z. n (e ∙ z)))
  Turning-word known (takes e f) n = inr (i, q, e)
  Turning-word known (releases h e k) n = absurd (n e)

  module _ {held : Bool} (own : held ≡ true → word ≡ token_of p i) where
    pub Turning-own :
        {held' : Bool} {word' : ℕ}
        → Turning p i word held held' word'
        → held' ≡ true
        → word' ≡ token_of p i
    Turning-own (same e h) k = e ∙ own (h k)
    Turning-own (takes e f) k = e
    Turning-own (releases h e n) k = absurd cc

    pub Turning-others :
        {held' : Bool} {word' : ℕ}
        → Turning p i word held held' word'
        → (j : ℕ) → i ≢ j
        → p.start j ≢ 0
        → word ≡ token_of p j
        → word' ≡ token_of p j
    Turning-others (same e h) j d r k = e ∙ k
    Turning-others (takes e (inl free)) j d r k = absurd (token_of-nonzero o j r (sym k ∙ free))
    Turning-others (takes e (inr ended)) j d r k = let live = o.unburied j r in absurd cc
    Turning-others (releases h e n) j d r k =
        absurd (d (token_of-injective o i j q r (sym (own h) ∙ k)))

pub spawn-Sound :
    {p : Processes}
    → InOrder p
    → (i k : ℕ) → Spawnable i k p
    → (s : Acquiring) → Sound p s
    → Sound (spawn i k p) s
spawn-Sound o i k n trying h = tt
spawn-Sound o i k n (waiting e) h = spawn-Known o i k e n h
spawn-Sound o i k n (asking e) h = spawn-Known o i k e n h
spawn-Sound o i k n (stealing e) h = h
spawn-Sound o i k n (acquired b) h = tt
spawn-Sound o i k n threw h = tt

pub crash-Sound :
    {p : Processes}
    → InOrder p
    → (i : ℕ) → p.start i ≢ 0
    → (s : Acquiring) → Sound p s
    → Sound (crash i p) s
crash-Sound o i q trying h = tt
crash-Sound o i q (waiting e) h = crash-Known o i e q h
crash-Sound o i q (asking e) h = crash-Known o i e q h
crash-Sound o i q (stealing e) h = ground arith
crash-Sound o i q (acquired b) h = tt
crash-Sound o i q threw h = tt
