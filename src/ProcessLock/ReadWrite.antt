-- ===== src/ProcessLock/ReadWrite.antt =====
-- ProcessReadWriteLockGuard: processes that take a ProcessReadWriteLock for reading or writing and
-- release it, in any interleaving, while processes start and die.
mod Slots
mod Invariant
mod Moves
pub mod Exclusion
pub mod Observed
use sharedstructures.Base.{
  ℕ, ◌+◌, ◌%◌, ◌<◌, ◌≡◌, ◌≢◌, Bool, true, false, ◌==◌, if◌then◌else◌, Option, some, set_at,
}
use sharedstructures.ProcessLock.Processes.{Processes, token_of, spawn, crash, Spawnable}
use sharedstructures.ProcessLock.Acquire.{
  FutexResult, futex_wait, Acquiring, trying, waiting, asking, stealing, acquired, threw,
  acquire_step,
}
use sharedstructures.ProcessLock.Release.{Releasing, release_step}
use sharedstructures.ProcessLock.Release as Release

abbrev pub num_reader_slots : ℕ
num_reader_slots = 65

pub record Memory : Type 0 where
  pub write_lock : ℕ
  pub reader_tokens : ℕ → ℕ

-- Where a process stands. For writing: in acquire_process_lock, at a round of
-- wait_for_reader_drain, in its call of wait_for_reader_release, with the guard. For reading: in
-- acquire_process_lock, at a round of the loop over the slots, before the store into a slot, before
-- and after the store that releases the write lock, at a round of wait_for_reader_drain's loop,
-- before its load of an arbitrary slot, in its call of wait_for_reader_release, with the guard. The
-- slot `num_reader_slots` means that none was found.
pub data Point : Type 0 where
  outside waking : Point
  taking_write : Acquiring → Point
  draining : (slot : ℕ) → Point
  draining_slot : (slot : ℕ) → Releasing → Point
  writing : Point
  taking_read : Acquiring → Point
  searching placing unlocking unlocked : (slot : ℕ) → Point
  checking : (slot : ℕ) → Point
  choosing : Point
  awaiting_slot : Releasing → Point
  reading : (slot : ℕ) → Point

abbrev pub with_lock : Memory → (Acquiring → Point) → Acquiring × ℕ → Point × Memory
with_lock m at (s, word) = (at s, record m { write_lock = word })

abbrev pub with_slot : Memory → ℕ → (Releasing → Point) → Releasing × ℕ → Point × Memory
with_slot m slot at (s, word) =
    (at s, record m { reader_tokens = set_at m.reader_tokens slot word })

-- wait_for_reader_drain(data, true)
abbrev pub drain_round : ℕ → Memory → Point × Memory
drain_round x m = (
  if x == num_reader_slots
      then writing
      else if m.reader_tokens x == 0
      then draining (x + 1)
      else draining_slot x (Release.waiting (m.reader_tokens x)),
  m,
)

abbrev pub search_round : ℕ → Memory → Point × Memory
search_round x m = (
  if x == num_reader_slots
      then unlocking num_reader_slots
      else if m.reader_tokens x == 0
      then placing x
      else searching (x + 1),
  m,
)

-- wait_for_reader_drain(data, false)
abbrev pub check_round : ℕ → Memory → Point × Memory
check_round x m = (
  if x == num_reader_slots
      then choosing
      else if m.reader_tokens x == 0
      then taking_read trying
      else checking (x + 1),
  m,
)

abbrev pub arbitrary_slot : (pid : ℕ) → ℕ
arbitrary_slot pid = pid % num_reader_slots

-- One step of the process `pid`; a process outside starts to take the lock, for writing or reading.
unfoldable pub rw_step :
    (start_of : ℕ → ℕ) (token pid : ℕ) (for_writing : Bool)
    → FutexResult
    → Point
    → Memory
    → Point × Memory
rw_step start_of token pid for_writing r outside m =
    (if for_writing then taking_write trying else taking_read trying, m)
rw_step start_of token pid for_writing r waking m = (outside, m)
rw_step start_of token pid for_writing r (taking_write (acquired stolen)) m = (draining 0, m)
rw_step start_of token pid for_writing r (taking_write threw) m = (outside, m)
rw_step start_of token pid for_writing r (taking_write s) m =
    with_lock m taking_write (acquire_step start_of token r s m.write_lock)
rw_step start_of token pid for_writing r (draining x) m = drain_round x m
rw_step start_of token pid for_writing r (draining_slot x (Release.finished cleared)) m =
    (draining (x + 1), m)
rw_step start_of token pid for_writing r (draining_slot x Release.threw) m = (outside, m)
rw_step start_of token pid for_writing r (draining_slot x s) m =
    with_slot m x (draining_slot x) (release_step start_of r s (m.reader_tokens x))
rw_step start_of token pid for_writing r writing m = (waking, record m { write_lock = 0 })
rw_step start_of token pid for_writing r (taking_read (acquired stolen)) m = (searching 0, m)
rw_step start_of token pid for_writing r (taking_read threw) m = (outside, m)
rw_step start_of token pid for_writing r (taking_read s) m =
    with_lock m taking_read (acquire_step start_of token r s m.write_lock)
rw_step start_of token pid for_writing r (searching x) m = search_round x m
rw_step start_of token pid for_writing r (placing x) m =
    (unlocking x, record m { reader_tokens = set_at m.reader_tokens x token })
rw_step start_of token pid for_writing r (unlocking x) m = (unlocked x, record m { write_lock = 0 })
rw_step start_of token pid for_writing r (unlocked x) m =
    (if x == num_reader_slots then checking 0 else reading x, m)
rw_step start_of token pid for_writing r (checking x) m = check_round x m
rw_step start_of token pid for_writing r choosing m =
    (awaiting_slot (Release.waiting (m.reader_tokens (arbitrary_slot pid))), m)
rw_step start_of token pid for_writing r (awaiting_slot (Release.finished cleared)) m =
    (taking_read trying, m)
rw_step start_of token pid for_writing r (awaiting_slot Release.threw) m = (outside, m)
rw_step start_of token pid for_writing r (awaiting_slot s) m =
    with_slot m (arbitrary_slot pid) awaiting_slot
      (release_step start_of r s (m.reader_tokens (arbitrary_slot pid)))
rw_step start_of token pid for_writing r (reading x) m =
    (waking, record m { reader_tokens = set_at m.reader_tokens x 0 })

-- The guard's `stolen` behind the step.
unfoldable pub stolen_after : Point → Bool → Bool
stolen_after outside stolen = false
stolen_after (taking_write (acquired b)) stolen = b
stolen_after (taking_read (acquired b)) stolen = b
stolen_after _ stolen = stolen

pub record World : Type 0 where
  pub processes : Processes
  pub point : ℕ → Point
  pub stolen : ℕ → Bool
  pub memory : Memory

abbrev pub moved_to : World → ℕ → Point × Memory → World
moved_to w i (s, m) = record w {
  point = set_at w.point i s;
  stolen = set_at w.stolen i (stolen_after (w.point i) (w.stolen i));
  memory = m;
}

abbrev pub initial : World
initial = record {
  processes = record { start = λ i. 0; buried = λ v. false };
  point = λ i. outside;
  stolen = λ i. false;
  memory = record { write_lock = 0; reader_tokens = λ x. 0 };
}

-- A wait for a reader ends as woken, or at once, only where the slot's word is another one by then.
abbrev pub Answered : FutexResult → Point → Memory → Type 0
Answered r (draining_slot x (Release.waiting e)) m =
    futex_wait r ≡ some true → m.reader_tokens x ≢ e
Answered r _ m = Unit

pub data Step (w : World) : World → Type 0 where
  start :
      {i s : ℕ}
      → Spawnable i s (w.processes)
      → Step w (record w { processes = spawn i s w.processes; point = set_at w.point i outside })
  die : {i : ℕ} → w.processes.start i ≢ 0 → Step w (record w { processes = crash i w.processes })
  step :
      {i : ℕ} (for_writing : Bool) (r : FutexResult)
      → w.processes.start i ≢ 0
      → Answered r (w.point i) w.memory
      → Step w (
          moved_to w i (
            rw_step w.processes.start
              (token_of w.processes i)
              i
              for_writing
              r
              (w.point i)
              w.memory))

-- The process has found every slot taken by a reader.
abbrev pub found_full : Point → Bool
found_full (checking x) = true
found_full choosing = true
found_full (awaiting_slot s) = true
found_full _ = false

-- The worlds that are reached while no running process finds every slot taken.
pub data Reach : World → Type 0 where
  here : Reach initial
  next :
      {w v : World}
      → Reach w
      → ((i : ℕ) → w.processes.start i ≢ 0 → found_full (w.point i) ≡ false)
      → Step w v
      → Reach v
