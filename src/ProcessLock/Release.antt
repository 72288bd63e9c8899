-- ===== src/ProcessLock/Release.antt =====
-- wait_for_reader_release, one call or store at a time, on the word of a reader slot.
use sharedstructures.Base.{ℕ, Bool, true, false, if◌then◌else◌, Option, none, some}
use sharedstructures.ProcessLock.Token.{process_for_token_is_running}
use sharedstructures.ProcessLock.Acquire.{FutexResult, futex_wait}

-- In the wait, before the question whether the reader runs, before the store of 0; then what the
-- function returned, whether it cleared the word, or that it threw.
pub data Releasing : Type 0 where
  waiting : (existing_token : ℕ) → Releasing
  asking : (existing_token : ℕ) → Releasing
  clearing : (existing_token : ℕ) → Releasing
  finished : (cleared : Bool) → Releasing
  threw : Releasing

abbrev pub after_reader_wait : ℕ → Option Bool → Releasing
after_reader_wait e none = threw
after_reader_wait e (some true) = finished false
after_reader_wait e (some false) = asking e

unfoldable pub release_step :
    (start_of : ℕ → ℕ) → FutexResult → Releasing → (word : ℕ) → Releasing × ℕ
unfolding futex_wait
release_step start_of r (waiting e) word = (after_reader_wait e (futex_wait r), word)
release_step start_of r (asking e) word =
    (if process_for_token_is_running start_of e then waiting e else clearing e, word)
release_step start_of r (clearing e) word = (finished true, 0)
release_step start_of r (finished cleared) word = (finished cleared, word)
release_step start_of r threw word = (threw, word)
