-- ===== src/ProcessLock/ReadWrite/Observed.antt =====
-- ProcessReadWriteLock: what is_locked and reader_count say while guards are held, and the slot that
-- a reader waits for.
use sharedstructures.Base.{ℕ, true}
use sharedstructures.ProcessLock.Processes.{token_of}
use sharedstructures.ProcessLock.Acquire.{timed_out}
use sharedstructures.ProcessLock.Release as Release
use sharedstructures.ProcessLock.ReadWrite.{World, moved_to, rw_step}

abbrev after : World → ℕ → World
after w i =
    moved_to w i
      (rw_step w.processes.start (token_of w.processes i) i true timed_out (w.point i) w.memory)
