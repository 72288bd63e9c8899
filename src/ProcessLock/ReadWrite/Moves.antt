-- ===== src/ProcessLock/ReadWrite/Moves.antt =====
-- ProcessReadWriteLockGuard: one step of a process.
use sharedstructures.Base.{
  ℕ, ◌+◌, ◌<◌, ◌≤◌, ◌≡◌, ◌≢◌, ◌⊎◌, inl, inr, refl, sym, ap, subst, ◌∙◌, arith, Bool, true, false,
  Bool-cases, ◌==◌, ==→eq, ==→ne, set_at_same, set_at_other, set_at_self,
}
use sharedstructures.ProcessLock.Token.{process_for_token_is_running}
use sharedstructures.ProcessLock.Processes.{Processes, token_of, InOrder, Known, stopped-buried}
use sharedstructures.ProcessLock.Acquire.{
  FutexResult, succeeded, again, would_block, interrupted, timed_out, other_error, futex_wait,
  Acquiring, trying, waiting, asking, stealing, acquired, threw, acquire_step, Sound,
  acquire_step-Sound, acquire_step-Taking, Taking,
}
use sharedstructures.ProcessLock.Turning.{Turning, same, releases, Taking-Turning}
use sharedstructures.ProcessLock.Release.{Releasing, release_step}
use sharedstructures.ProcessLock.Release as Release
use sharedstructures.ProcessLock.ReadWrite.{
  num_reader_slots, Memory, Point, outside, waking, taking_write, draining, draining_slot, writing,
  taking_read, searching, placing, unlocking, unlocked, checking, choosing, awaiting_slot, reading,
  rw_step, Answered, found_full, with_slot, with_lock,
}
use sharedstructures.ProcessLock.ReadWrite.Slots.{Slotting, untouched, emptied, placed}
use sharedstructures.ProcessLock.ReadWrite.Invariant.{locks, Drained, Emptying, PointSound}

-- From the point `s` and the memory `m` to others.
pub record Moved (p : Processes) (i : ℕ) (m : Memory) (s : Point) (t : Point × Memory)
    : Type 0 where
  pub point_sound : PointSound p (t.1).reader_tokens i (t.0)
  pub turning : Turning p i m.write_lock (locks s) (locks (t.0)) (t.1).write_lock
  pub slotting : Slotting p i (locks s) m.reader_tokens (t.1).reader_tokens

module _ {p : Processes} (o : InOrder p) (i : ℕ) (q : p.start i ≢ 0) (m : Memory) where
  -- A step that changes no word.
  Moved_still :
      (s t : Point)
      → PointSound p m.reader_tokens i t
      → (locks t ≡ true → locks s ≡ true)
      → Moved p i m s (t, m)
  Moved_still s t h k = record {
    point_sound = h;
    turning = same refl k;
    slotting = untouched (λ y. refl);
  }

  Drained-next :
      (x : ℕ) → Drained m.reader_tokens x → m.reader_tokens x ≡ 0 → Drained m.reader_tokens (x + 1)
  Drained-next x h e y l = elim (Bool-cases (x == y)) [
    | inl here ↦ ap m.reader_tokens (sym (==→eq x y here)) ∙ e
    | inr other ↦ let ne = ==→ne x y other in h y (omega arith)
  ]

  drain_round-Moved :
      (b : Bool) (r : FutexResult) (x : ℕ)
      → ((y : ℕ) → m.reader_tokens y ≢ 0 → Known p (m.reader_tokens y))
      → (x ≤ num_reader_slots) × Drained m.reader_tokens x
      → Moved p i m (draining x) (rw_step p.start (token_of p i) i b r (draining x) m)
  unfolding rw_step
  drain_round-Moved b r x known h = elim (Bool-cases (x == num_reader_slots)) [
    | inl last ↦ rw last (
        Moved_still (draining x) writing
          (subst (Drained m.reader_tokens) (==→eq x num_reader_slots last) (h.1)) (λ k. k))
    | inr more ↦ rw more (elim (Bool-cases (m.reader_tokens x == 0)) [
      | inl empty ↦ rw empty (
          Moved_still (draining x) (draining (x + 1))
            (
              let ne = ==→ne x num_reader_slots more in omega arith,
              Drained-next x (h.1) (==→eq _ 0 empty),
            )
            (λ k. k))
      | inr taken ↦ rw taken (
          Moved_still (draining x) (draining_slot x (Release.waiting (m.reader_tokens x)))
            (
              let ne = ==→ne x num_reader_slots more in omega arith,
              h.1,
              (known x (==→ne _ 0 taken), inr refl),
            )
            (λ k. k))
    ])
  ]

  search_round-Moved :
      (b : Bool) (r : FutexResult) (x : ℕ)
      → x ≤ num_reader_slots
      → Moved p i m (searching x) (rw_step p.start (token_of p i) i b r (searching x) m)
  unfolding rw_step
  search_round-Moved b r x h = elim (Bool-cases (x == num_reader_slots)) [
    | inl last ↦ rw last (
        Moved_still (searching x) (unlocking num_reader_slots)
          (omega arith, λ l. absurd (omega arith)) (λ k. k))
    | inr more ↦ rw more (elim (Bool-cases (m.reader_tokens x == 0)) [
      | inl empty ↦ rw empty (
          Moved_still (searching x) (placing x)
            (let ne = ==→ne x num_reader_slots more in omega arith, ==→eq _ 0 empty) (λ k. k))
      | inr taken ↦ rw taken (
          Moved_still (searching x) (searching (x + 1))
            (let ne = ==→ne x num_reader_slots more in omega arith) (λ k. k))
    ])
  ]

  with_lock-Moved :
      (s : Acquiring) (t : Acquiring × ℕ)
      → Sound p (t.0)
      → Taking p i m.write_lock s (t.0) (t.1)
      → Moved p i m (taking_write s) (with_lock m taking_write t)
        × Moved p i m (taking_read s) (with_lock m taking_read t)
  with_lock-Moved s t h k = (
    record { point_sound = h; turning = Taking-Turning k; slotting = untouched (λ y. refl) },
    record { point_sound = h; turning = Taking-Turning k; slotting = untouched (λ y. refl) },
  )

  taking-Moved :
      (b : Bool) (r : FutexResult) (s : Acquiring)
      → (m.write_lock ≢ 0 → Known p m.write_lock)
      → Sound p s
      → Moved p i m (taking_write s) (rw_step p.start (token_of p i) i b r (taking_write s) m)
        × Moved p i m (taking_read s) (rw_step p.start (token_of p i) i b r (taking_read s) m)
  unfolding rw_step
  taking-Moved b r (acquired c) known h = (
    Moved_still (taking_write (acquired c)) (draining 0) (omega arith, λ y l. absurd (omega arith))
        (λ k. k),
    Moved_still (taking_read (acquired c)) (searching 0) (omega arith) (λ k. k),
  )
  taking-Moved b r threw known h = (
    Moved_still (taking_write threw) outside tt (λ k. k),
    Moved_still (taking_read threw) outside tt (λ k. k),
  )
  taking-Moved b r trying known h =
      with_lock-Moved trying (acquire_step p.start (token_of p i) r trying m.write_lock)
        (acquire_step-Sound o i m.write_lock known r trying h)
        (acquire_step-Taking o i m.write_lock known r trying h)
  taking-Moved b r (waiting e) known h =
      with_lock-Moved (waiting e) (acquire_step p.start (token_of p i) r (waiting e) m.write_lock)
        (acquire_step-Sound o i m.write_lock known r (waiting e) h)
        (acquire_step-Taking o i m.write_lock known r (waiting e) h)
  taking-Moved b r (asking e) known h =
      with_lock-Moved (asking e) (acquire_step p.start (token_of p i) r (asking e) m.write_lock)
        (acquire_step-Sound o i m.write_lock known r (asking e) h)
        (acquire_step-Taking o i m.write_lock known r (asking e) h)
  taking-Moved b r (stealing e) known h =
      with_lock-Moved (stealing e) (acquire_step p.start (token_of p i) r (stealing e) m.write_lock)
        (acquire_step-Sound o i m.write_lock known r (stealing e) h)
        (acquire_step-Taking o i m.write_lock known r (stealing e) h)

  -- A wait for the reader in the slot `x`, where its word stays.
  waited-Moved :
      (x : ℕ) (s t : Releasing)
      → PointSound p m.reader_tokens i (draining_slot x t)
      → Moved p i m (draining_slot x s) (with_slot m x (draining_slot x) (t, m.reader_tokens x))
  waited-Moved x s t h =
      rw (set_at_self m.reader_tokens x)
        (Moved_still (draining_slot x s) (draining_slot x t) h (λ k. k))

  not_token :
      (x e : ℕ) → Emptying m.reader_tokens x e → m.reader_tokens x ≢ e → m.reader_tokens x ≡ 0
  not_token x e (inl z) n = z
  not_token x e (inr t) n = absurd (n t)

  woken-Moved :
      (x e : ℕ)
      → PointSound p m.reader_tokens i (draining_slot x (Release.waiting e))
      → m.reader_tokens x ≢ e
      → Moved p i m
          (draining_slot x (Release.waiting e))
          (with_slot m x (draining_slot x) (Release.finished false, m.reader_tokens x))
  woken-Moved x e h n =
      waited-Moved x (Release.waiting e) (Release.finished false)
        (h.0, h.1, not_token x e (h.2.1) n)

  draining_slot-Moved :
      (b : Bool) (r : FutexResult) (x : ℕ) (s : Releasing)
      → PointSound p m.reader_tokens i (draining_slot x s)
      → Answered r (draining_slot x s) m
      → Moved p i m (draining_slot x s) (rw_step p.start (token_of p i) i b r (draining_slot x s) m)
  unfolding rw_step release_step futex_wait
  draining_slot-Moved b r x (Release.finished c) h a =
      Moved_still (draining_slot x (Release.finished c)) (draining (x + 1))
        (let l = h.0 in omega arith, Drained-next x (h.1) (h.2)) (λ k. k)
  draining_slot-Moved b r x Release.threw h a =
      Moved_still (draining_slot x Release.threw) outside tt (λ k. absurd cc)
  draining_slot-Moved b succeeded x (Release.waiting e) h a = woken-Moved x e h (a refl)
  draining_slot-Moved b again x (Release.waiting e) h a = woken-Moved x e h (a refl)
  draining_slot-Moved b would_block x (Release.waiting e) h a = woken-Moved x e h (a refl)
  draining_slot-Moved b interrupted x (Release.waiting e) h a =
      waited-Moved x (Release.waiting e) (Release.asking e) h
  draining_slot-Moved b timed_out x (Release.waiting e) h a =
      waited-Moved x (Release.waiting e) (Release.asking e) h
  draining_slot-Moved b other_error x (Release.waiting e) h a =
      waited-Moved x (Release.waiting e) Release.threw (h.0, h.1, tt)
  draining_slot-Moved b r x (Release.asking e) h a =
      elim (Bool-cases (process_for_token_is_running p.start e)) [
        | inl runs ↦ rw runs (waited-Moved x (Release.asking e) (Release.waiting e) h)
        | inr stopped ↦ rw stopped (
            waited-Moved x (Release.asking e) (Release.clearing e)
              (h.0, h.1, (stopped-buried o e (h.2.0) stopped, h.2.1)))
      ]
  draining_slot-Moved b r x (Release.clearing e) h a = record {
    point_sound = (
      h.0,
      λ y l. set_at_other m.reader_tokens x 0 y (omega arith) ∙ h.1 y l,
      set_at_same m.reader_tokens x 0,
    );
    turning = same refl (λ k. k);
    slotting =
        emptied x (set_at_same m.reader_tokens x 0) (set_at_other m.reader_tokens x 0)
          (ended (h.2.1));
  }
    where
      ended :
          Emptying m.reader_tokens x e
          → (m.reader_tokens x ≡ 0)
            ⊎ (p.buried (m.reader_tokens x) ≡ true)
            ⊎ (m.reader_tokens x ≡ token_of p i)
      ended (inl z) = inl z
      ended (inr t) = inr (inl (ap p.buried t ∙ h.2.0))

  pub rw_step-Moved :
      (b : Bool) (r : FutexResult) (s : Point)
      → (m.write_lock ≢ 0 → Known p m.write_lock)
      → ((y : ℕ) → m.reader_tokens y ≢ 0 → Known p (m.reader_tokens y))
      → PointSound p m.reader_tokens i s
      → found_full s ≡ false
      → Answered r s m
      → Moved p i m s (rw_step p.start (token_of p i) i b r s m)
  unfolding rw_step
  rw_step-Moved true r outside kl ks h n a = Moved_still outside (taking_write trying) tt (λ k. k)
  rw_step-Moved false r outside kl ks h n a = Moved_still outside (taking_read trying) tt (λ k. k)
  rw_step-Moved b r waking kl ks h n a = Moved_still waking outside tt (λ k. k)
  rw_step-Moved b r (taking_write s) kl ks h n a = (taking-Moved b r s kl h).0
  rw_step-Moved b r (draining x) kl ks h n a = drain_round-Moved b r x ks h
  rw_step-Moved b r (draining_slot x s) kl ks h n a = draining_slot-Moved b r x s h a
  rw_step-Moved b r writing kl ks h n a = record {
    point_sound = tt;
    turning = releases refl refl refl;
    slotting = untouched (λ y. refl);
  }
  rw_step-Moved b r (taking_read s) kl ks h n a = (taking-Moved b r s kl h).1
  rw_step-Moved b r (searching x) kl ks h n a = search_round-Moved b r x h
  rw_step-Moved b r (placing x) kl ks h n a = record {
    point_sound = (let l = h.0 in omega arith, λ l. set_at_same m.reader_tokens x (token_of p i));
    turning = same refl (λ k. k);
    slotting =
        placed x (set_at_same m.reader_tokens x (token_of p i))
          (set_at_other m.reader_tokens x (token_of p i)) (h.1) refl;
  }
  rw_step-Moved b r (unlocking x) kl ks h n a = record {
    point_sound = h;
    turning = releases refl refl refl;
    slotting = untouched (λ y. refl);
  }
  rw_step-Moved b r (unlocked x) kl ks h n a = elim (Bool-cases (x == num_reader_slots)) [
    | inl none_ ↦ rw none_ (Moved_still (unlocked x) (checking 0) tt (λ k. k))
    | inr found ↦
        rw found (Moved_still (unlocked x) (reading x) (below found, h.1 (below found)) (λ k. k))
  ]
    where
      below : (x == num_reader_slots) ≡ false → x < num_reader_slots
      below f = let ne = ==→ne x num_reader_slots f in let l = h.0 in omega arith
  rw_step-Moved b r (checking x) kl ks h n a = absurd cc
  rw_step-Moved b r choosing kl ks h n a = absurd cc
  rw_step-Moved b r (awaiting_slot s) kl ks h n a = absurd cc
  rw_step-Moved b r (reading x) kl ks h n a = record {
    point_sound = tt;
    turning = same refl (λ k. k);
    slotting =
        emptied x (set_at_same m.reader_tokens x 0) (set_at_other m.reader_tokens x 0)
          (inr (inr (h.1)));
  }
