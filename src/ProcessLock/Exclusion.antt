-- ===== src/ProcessLock/Exclusion.antt =====
-- ProcessLockGuard: who holds the lock.
use sharedstructures.Base.{ℕ, set_at_all, ◌≡◌, ◌≢◌, refl, sym, ◌∙◌, arith, true}
use sharedstructures.ProcessLock.Processes.{
  Processes, token_of, spawn, crash, Spawnable, InOrder, Known, token_of-injective, spawn-InOrder,
  crash-InOrder, spawn-Known, crash-Known,
}
use sharedstructures.ProcessLock.Turning.{
  Turning, same, releases, Taking-Turning, Turning-word, Turning-own, Turning-others, spawn-Sound,
  crash-Sound,
}
use sharedstructures.ProcessLock.Acquire.{
  FutexResult, trying, waiting, asking, stealing, acquired, threw, Sound, acquire_step-Sound,
  acquire_step-Taking,
}
use sharedstructures.ProcessLock.Guard.{
  Stage, outside, waking, acquiring, guard_step, holds, World, moved_to, initial, Step, start, die,
  step, Reach, here, next,
}

abbrev SoundAt : Processes → Stage → Type 0
SoundAt p (acquiring s) = Sound p s
SoundAt p _ = Unit

pub record Inv (w : World) : Type 0 where
  order : InOrder w.processes
  word : w.lock ≢ 0 → Known w.processes w.lock
  sound : (i : ℕ) → w.processes.start i ≢ 0 → SoundAt w.processes (w.stage i)
  holder :
      (i : ℕ) → w.processes.start i ≢ 0 → holds (w.stage i) ≡ true → w.lock ≡ token_of w.processes i

spawn-SoundAt :
    {p : Processes}
    → InOrder p
    → (i k : ℕ) → Spawnable i k p
    → (s : Stage) → SoundAt p s
    → SoundAt (spawn i k p) s
spawn-SoundAt o i k n outside h = tt
spawn-SoundAt o i k n waking h = tt
spawn-SoundAt o i k n (acquiring s) h = spawn-Sound o i k n s h

crash-SoundAt :
    {p : Processes}
    → InOrder p
    → (i : ℕ) → p.start i ≢ 0
    → (s : Stage) → SoundAt p s
    → SoundAt (crash i p) s
crash-SoundAt o i q outside h = tt
crash-SoundAt o i q waking h = tt
crash-SoundAt o i q (acquiring s) h = crash-Sound o i q s h

module _ {w : World} (inv : Inv w) where
  guard_step-Turning :
      (i : ℕ) (r : FutexResult) (s : Stage)
      → SoundAt w.processes s
      → Turning w.processes i w.lock
          (holds s)
          (holds ((guard_step w.processes.start (token_of w.processes i) r s w.lock).0))
          ((guard_step w.processes.start (token_of w.processes i) r s w.lock).1)
  unfolding guard_step
  guard_step-Turning i r outside h = same refl (λ k. k)
  guard_step-Turning i r waking h = same refl (λ k. k)
  guard_step-Turning i r (acquiring (acquired b)) h = releases refl refl refl
  guard_step-Turning i r (acquiring threw) h = same refl (λ k. k)
  guard_step-Turning i r (acquiring trying) h =
      Taking-Turning (acquire_step-Taking inv.order i w.lock inv.word r trying h)
  guard_step-Turning i r (acquiring (waiting e)) h =
      Taking-Turning (acquire_step-Taking inv.order i w.lock inv.word r (waiting e) h)
  guard_step-Turning i r (acquiring (asking e)) h =
      Taking-Turning (acquire_step-Taking inv.order i w.lock inv.word r (asking e) h)
  guard_step-Turning i r (acquiring (stealing e)) h =
      Taking-Turning (acquire_step-Taking inv.order i w.lock inv.word r (stealing e) h)

  guard_step-SoundAt :
      (i : ℕ) (r : FutexResult) (s : Stage)
      → SoundAt w.processes s
      → SoundAt w.processes ((guard_step w.processes.start (token_of w.processes i) r s w.lock).0)
  unfolding guard_step
  guard_step-SoundAt i r outside h = tt
  guard_step-SoundAt i r waking h = tt
  guard_step-SoundAt i r (acquiring (acquired b)) h = tt
  guard_step-SoundAt i r (acquiring threw) h = tt
  guard_step-SoundAt i r (acquiring trying) h =
      acquire_step-Sound inv.order i w.lock inv.word r trying h
  guard_step-SoundAt i r (acquiring (waiting e)) h =
      acquire_step-Sound inv.order i w.lock inv.word r (waiting e) h
  guard_step-SoundAt i r (acquiring (asking e)) h =
      acquire_step-Sound inv.order i w.lock inv.word r (asking e) h
  guard_step-SoundAt i r (acquiring (stealing e)) h =
      acquire_step-Sound inv.order i w.lock inv.word r (stealing e) h

  Turning-Inv :
      (i word' : ℕ) (s' : Stage)
      → w.processes.start i ≢ 0
      → Turning w.processes i w.lock (holds (w.stage i)) (holds s') word'
      → SoundAt w.processes s'
      → Inv (moved_to w i (s', word'))
  Turning-Inv i word' s' q t h = record {
    order = inv.order;
    word = Turning-word inv.order q inv.word t;
    sound =
        set_at_all (λ j x. w.processes.start j ≢ 0 → SoundAt w.processes x) w.stage i s' (λ _. h)
          (λ j _. inv.sound j);
    holder =
        set_at_all
          (λ j x. w.processes.start j ≢ 0 → holds x ≡ true → word' ≡ token_of w.processes j) w.stage
          i s' (λ _. Turning-own inv.order q (inv.holder i q) t)
          (λ j d r k. Turning-others inv.order q (inv.holder i q) t j d r (inv.holder j r k));
  }

  Step-Inv : {v : World} → Step w v → Inv v
  Step-Inv (start {i} {s} n) = record {
    order = spawn-InOrder inv.order i s n;
    word = λ h. spawn-Known inv.order i s w.lock n (inv.word h);
    sound = λ j r.
        set_at_all (λ j x. (spawn i s w.processes).start j ≢ 0 → SoundAt (spawn i s w.processes) x)
          w.stage i outside (λ q. tt)
          (λ j d q. spawn-SoundAt inv.order i s n (w.stage j) (inv.sound j (ground arith))) j r;
    holder = λ j r h. ground (arith, inv.holder j);
  }
  Step-Inv (die {i} q) = record {
    order = crash-InOrder inv.order i q;
    word = λ h. crash-Known inv.order i w.lock q (inv.word h);
    sound = λ j r. crash-SoundAt inv.order i q (w.stage j) (inv.sound j (ground arith));
    holder = λ j r h. ground (arith, inv.holder j);
  }
  Step-Inv (step {i} r q) =
      Turning-Inv i _ _ q (guard_step-Turning i r (w.stage i) (inv.sound i q))
        (guard_step-SoundAt i r (w.stage i) (inv.sound i q))

initial-Inv : Inv initial
initial-Inv = record {
  order = record {
    positive = λ i r. absurd (r refl);
    small = λ i r. absurd (r refl);
    unburied = λ i r. refl;
  };
  word = λ h. absurd (h refl);
  sound = λ i r. tt;
  holder = λ i r h. absurd (r refl);
}

Reach-Inv : {w : World} → Reach w → Inv w
Reach-Inv here = initial-Inv
Reach-Inv (next r s) = Step-Inv (Reach-Inv r) s

-- Of the processes that run, one at most has the lock, whatever the interleaving and whichever died.
pub guard-Exclusive :
    {w : World}
    → Reach w
    → (i j : ℕ) → w.processes.start i ≢ 0
    → w.processes.start j ≢ 0
    → holds (w.stage i) ≡ true
    → holds (w.stage j) ≡ true
    → i ≡ j
guard-Exclusive r i j p q h k =
    let inv = Reach-Inv r in
    token_of-injective inv.order i j p q (sym (inv.holder i p h) ∙ inv.holder j q k)
