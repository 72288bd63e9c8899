-- ===== src/ProcessLock/Guard.antt =====
-- ProcessLockGuard: processes that take a ProcessLock and release it, in any interleaving, while
-- processes start and die.
use sharedstructures.Base.{ℕ, ◌≢◌, Bool, false, set_at}
use sharedstructures.ProcessLock.Processes.{Processes, token_of, spawn, crash, Spawnable}
use sharedstructures.ProcessLock.Acquire.{
  FutexResult, Acquiring, trying, acquired, threw, acquire_step, has_acquired,
}

-- Where a process stands: outside, in the constructor or with the guard, in the destructor behind
-- the store of 0.
pub data Stage : Type 0 where
  outside waking : Stage
  acquiring : Acquiring → Stage

abbrev pub acquiring_with : Acquiring × ℕ → Stage × ℕ
acquiring_with (s, word) = (acquiring s, word)

-- One step of a process. With the guard it is the destructor's, release_process_lock.
unfoldable pub guard_step :
    (start_of : ℕ → ℕ) (token : ℕ) → FutexResult → Stage → (word : ℕ) → Stage × ℕ
guard_step start_of token r outside word = (acquiring trying, word)
guard_step start_of token r waking word = (outside, word)
guard_step start_of token r (acquiring (acquired stolen)) word = (waking, 0)
guard_step start_of token r (acquiring threw) word = (outside, word)
guard_step start_of token r (acquiring s) word =
    acquiring_with (acquire_step start_of token r s word)

abbrev pub holds : Stage → Bool
holds (acquiring s) = has_acquired s
holds _ = false

pub record World : Type 0 where
  pub processes : Processes
  pub stage : ℕ → Stage
  pub lock : ℕ

abbrev pub moved_to : World → ℕ → Stage × ℕ → World
moved_to w i (s, word) = record w { stage = set_at w.stage i s; lock = word }

abbrev pub initial : World
initial = record {
  processes = record { start = λ i. 0; buried = λ v. false };
  stage = λ i. outside;
  lock = 0;
}

-- A process starts, dies wherever it stands, or takes one step.
pub data Step (w : World) : World → Type 0 where
  start :
      {i s : ℕ}
      → Spawnable i s (w.processes)
      → Step w (record w { processes = spawn i s w.processes; stage = set_at w.stage i outside })
  die : {i : ℕ} → w.processes.start i ≢ 0 → Step w (record w { processes = crash i w.processes })
  step :
      {i : ℕ} (r : FutexResult)
      → w.processes.start i ≢ 0
      → Step w (
          moved_to w i (guard_step w.processes.start (token_of w.processes i) r (w.stage i) w.lock))

pub data Reach : World → Type 0 where
  here : Reach initial
  next : {w v : World} → Reach w → Step w v → Reach v
