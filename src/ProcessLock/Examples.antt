-- ===== src/ProcessLock/Examples.antt =====
-- Runs of the locks: one process with a guard, and processes around a full lock.
use sharedstructures.Base.{
  ℕ, zero, suc, ◌+◌, ◌≤◌, ◌≡◌, ◌≢◌, ◌↔◌, refl, ap, ◌∙◌, arith, Bool, true, false, ne→==, eq→==,
  set_at, set_at_same, [], ◌∷◌, ◌%◌, ◌^◌,
}
use sharedstructures.ProcessLock.Token.{
  start_time_bits, process_token, process_for_token_is_running, pid_for_token,
  process_token-IsRunning, process_token-nonzero,
}
use sharedstructures.ProcessLock.Processes.{Processes, Spawnable, token_of}
use sharedstructures.ProcessLock.Acquire.{
  timed_out, succeeded, futex_wait, compare_exchange_strong, trying, acquired, acquire_step,
  has_acquired,
}
use sharedstructures.ProcessLock.Progress.{
  acquire_steps, acquire_steps-Stopped, acquire_steps-Running,
}
use sharedstructures.ProcessLock.Query.{is_locked, reader_count, reader_count-is_locked}
use sharedstructures.ProcessLock.Guard as Guard
use sharedstructures.ProcessLock.Guard.{guard_step}
use sharedstructures.ProcessLock.Exclusion.{guard-Exclusive}
use sharedstructures.ProcessLock.Release as Release
use sharedstructures.ProcessLock.ReadWrite.{
  num_reader_slots, Memory, Point, outside, taking_write, draining, draining_slot, writing, reading,
  awaiting_slot, World, initial, Reach, here, next, start, step, moved_to, rw_step, found_full,
  Answered,
}

-- The process 1 runs since 5.
abbrev starts : ℕ → ℕ
starts = set_at (λ i. 0) 1 5

spawnable : Spawnable 1 5 (record { start = λ i. 0; buried = λ v. false })
spawnable = record {
  positive = omega arith;
  small = omega arith;
  started = omega arith;
  idle = refl;
  fresh = refl;
}

process_token-IsRunning_example :
    (process_for_token_is_running starts (process_token 5 1) ≡ true)
    ↔ (starts 1 ≢ 0) × (starts 1 % 2 ^ start_time_bits ≡ 5 % 2 ^ start_time_bits)
process_token-IsRunning_example = process_token-IsRunning starts 5 1 (omega arith)

runs : process_for_token_is_running starts (process_token 5 1) ≡ true
runs = process_token-IsRunning_example.1 (omega arith, refl)

-- Another process finds the lock held by the process 1, or by one that has ended.
acquire_steps-Running_example :
    (has_acquired
        ((acquire_steps starts 7 (timed_out ∷ timed_out ∷ []) (trying, process_token 5 1)).0)
      ≡ false)
    × ((acquire_steps starts 7 (timed_out ∷ timed_out ∷ []) (trying, process_token 5 1)).1
        ≡ process_token 5 1)
acquire_steps-Running_example =
    acquire_steps-Running starts 7 (process_token 5 1)
      (process_token-nonzero 5 1 (omega arith) (omega arith)) runs (timed_out ∷ timed_out ∷ [])

two_stopped : process_for_token_is_running starts 2 ≡ false
unfolding process_for_token_is_running pid_for_token
two_stopped = refl

acquire_steps-Stopped_example :
    acquire_steps starts 7 (succeeded ∷ timed_out ∷ succeeded ∷ succeeded ∷ []) (trying, 2)
    ≡ (acquired true, 7)
acquire_steps-Stopped_example =
    acquire_steps-Stopped starts 7 2 succeeded succeeded succeeded (λ n. two_stopped)

reader_count_example :
    let m : Memory = record { write_lock = 0; reader_tokens = starts } in
    ((reader_count m ≡ 0) ↔ (is_locked false m ≡ false)) × (reader_count m ≤ num_reader_slots)
reader_count_example = reader_count-is_locked (record { write_lock = 0; reader_tokens = starts })

-- The process 1 takes a ProcessLock.
abbrev guarded : Guard.World
guarded =
    let one : Guard.World = record {
      processes = record { start = starts; buried = λ v. false };
      stage = set_at (λ i. Guard.outside) 1 Guard.outside;
      lock = 0;
    } in
    let go : Guard.World → Guard.World = λ w.
      Guard.moved_to w 1
        (guard_step w.processes.start (token_of w.processes 1) timed_out (w.stage 1) w.lock) in
    go (go one)

guarded-Reach : Guard.Reach guarded
guarded-Reach =
    Guard.next
      (Guard.next (Guard.next Guard.here (Guard.start spawnable))
        (Guard.step {i = 1} timed_out (omega arith)))
      (Guard.step {i = 1} timed_out (omega arith))

has_lock : Guard.holds (guarded.stage 1) ≡ true
unfolding guard_step acquire_step compare_exchange_strong
has_lock = refl

guard-Exclusive_example : ◌≡◌ {A = ℕ} 1 1
guard-Exclusive_example =
    guard-Exclusive guarded-Reach 1 1 (omega arith) (omega arith) has_lock has_lock

-- The process 1 takes a ProcessReadWriteLock: the worlds in which it alone has run.
abbrev one : Processes
one = record { start = starts; buried = λ v. false }

record Alone (w : World) (s : Point) (m : Memory) : Type 0 where
  reach : Reach w
  processes : w.processes ≡ one
  point : w.point 1 ≡ s
  memory : w.memory ≡ m

abbrev step_of : Bool → World → Point × Memory
step_of b w = rw_step w.processes.start (token_of w.processes 1) 1 b timed_out (w.point 1) w.memory

timed_out-Answered : (s : Point) (m : Memory) → Answered timed_out s m
unfolding futex_wait
timed_out-Answered (draining_slot x (Release.waiting e)) m = λ h. absurd cc
timed_out-Answered _ m = tt

alone-step :
    (b : Bool) (w : World) {s t : Point} {m m' : Memory}
    → Alone w s m
    → found_full s ≡ false
    → rw_step starts (process_token 5 1) 1 b timed_out s m ≡ (t, m')
    → Alone (moved_to w 1 (step_of b w)) t m'
alone-step b w {s} {t} {m} {m'} a f e = record {
  reach = next a.reach only (
      step {i = 1} b timed_out (ground (arith, ap (λ p. p.start 1) a.processes))
        (timed_out-Answered (w.point 1) w.memory));
  processes = a.processes;
  point = set_at_same w.point 1 ((step_of b w).0) ∙ ap (λ x. x.0) same;
  memory = ap (λ x. x.1) same;
}
  where
    only : (i : ℕ) → w.processes.start i ≢ 0 → found_full (w.point i) ≡ false
    only i r = ground (arith, ap (λ p. p.start i) a.processes, ap found_full a.point)

    same : step_of b w ≡ (t, m')
    same = rw (a.processes, a.point, a.memory) e

abbrev locked : Memory
locked = record { write_lock = process_token 5 1; reader_tokens = λ x. 0 }

alone_drained :
    (n x : ℕ) (w : World)
    → x + n ≡ num_reader_slots
    → Alone w (draining x) locked
    → (v : World) × Alone v writing locked
unfolding rw_step
alone_drained zero x w e a =
    (_, alone-step true w a refl (rw (eq→== x num_reader_slots (omega arith)) refl))
alone_drained (suc n) x w e a =
    alone_drained n (x + 1) (moved_to w 1 (step_of true w)) (omega arith)
      (alone-step true w a refl (rw (ne→== x num_reader_slots (omega arith)) refl))

abbrev started : World
started = record initial { processes = one; point = set_at (λ i. outside) 1 outside }

written : (v : World) × Alone v writing locked
unfolding rw_step acquire_step compare_exchange_strong
written =
    let a0 : Alone started outside initial.memory = record {
      reach = next here (λ i r. refl) (start spawnable);
      processes = refl;
      point = refl;
      memory = refl;
    } in
    let a1 : Alone (moved_to started 1 (step_of true started)) (taking_write trying)
        initial.memory =
      alone-step true started a0 refl refl in
    let a2 = alone-step true _ {t = taking_write (acquired false)} {m' = locked} a1 refl refl in
    let a3 = alone-step true _ {t = draining 0} {m' = locked} a2 refl refl in
    alone_drained 65 0 _ refl a3

abbrev written_world : World
written_world = written.0

-- The process 1 has seen the token 9, the process 2 reads in its slot and the process 3 is to write.
abbrev full : World
full = record {
  processes = record { start = λ i. 5; buried = λ v. false };
  point =
      set_at (set_at (set_at (λ i. outside) 1 (awaiting_slot (Release.clearing 9))) 2 (reading 1)) 3
        (draining 1);
  stolen = λ i. false;
  memory = record { write_lock = process_token 5 3; reader_tokens = λ x. process_token 5 (x + 1) };
}
