-- ===== src/ProcessLock/ReadWrite/Exclusion.antt =====
-- ProcessReadWriteLockGuard: who is inside together.
use sharedstructures.Base.{ℕ, ◌≡◌, ◌≢◌, refl, sym, ◌∙◌, arith, Bool, true, false, set_at_all}
use sharedstructures.ProcessLock.Processes.{
  token_of, spawn, token_of-injective, spawn-InOrder, crash-InOrder, spawn-Known, crash-Known,
}
use sharedstructures.ProcessLock.Turning.{Turning-word, Turning-own, Turning-others}
use sharedstructures.ProcessLock.ReadWrite.{
  Memory, Point, outside, writing, reading, World, moved_to, initial, Step, start, die, step,
  rw_step, Reach, here, next, found_full,
}
use sharedstructures.ProcessLock.ReadWrite.Slots.{Slotting-Known}
use sharedstructures.ProcessLock.ReadWrite.Invariant.{
  locks, PointSound, Inv, spawn-PointSound, crash-PointSound, other-PointSound,
}
use sharedstructures.ProcessLock.ReadWrite.Moves.{Moved, rw_step-Moved}

module _ {w : World} (inv : Inv w) where
  -- Two processes that run have not both the write lock.
  locks-Exclusive :
      (i j : ℕ)
      → w.processes.start i ≢ 0
      → w.processes.start j ≢ 0
      → locks (w.point i) ≡ true
      → locks (w.point j) ≡ true
      → i ≡ j
  locks-Exclusive i j q r h k =
      token_of-injective inv.order i j q r (sym (inv.holder i q h) ∙ inv.holder j r k)

  Moved-Inv :
      (i : ℕ) (t : Point × Memory)
      → w.processes.start i ≢ 0
      → Moved w.processes i w.memory (w.point i) t
      → Inv (moved_to w i t)
  Moved-Inv i t q m = record {
    order = inv.order;
    lock_known = Turning-word inv.order q inv.lock_known m.turning;
    slots_known = Slotting-Known inv.order q m.slotting inv.slots_known;
    sound =
        set_at_all (λ j s. w.processes.start j ≢ 0 → PointSound w.processes (t.1).reader_tokens j s)
          w.point i (t.0) (λ _. m.point_sound)
          (λ j d r.
            other-PointSound inv.order q m.slotting j d r (w.point j)
              (λ k l. d (locks-Exclusive i j q r l k)) (inv.sound j r));
    holder =
        set_at_all
          (λ j s.
            w.processes.start j ≢ 0 → locks s ≡ true → (t.1).write_lock ≡ token_of w.processes j)
          w.point i (t.0) (λ _. Turning-own inv.order q (inv.holder i q) m.turning)
          (λ j d r k.
            Turning-others inv.order q (inv.holder i q) m.turning j d r (inv.holder j r k));
  }

  Step-Inv :
      {v : World}
      → ((i : ℕ) → w.processes.start i ≢ 0 → found_full (w.point i) ≡ false)
      → Step w v
      → Inv v
  Step-Inv roomy (start {i} {s} n) = record {
    order = spawn-InOrder inv.order i s n;
    lock_known = λ h. spawn-Known inv.order i s w.memory.write_lock n (inv.lock_known h);
    slots_known =
        λ x h. spawn-Known inv.order i s (w.memory.reader_tokens x) n (inv.slots_known x h);
    sound = λ j r.
        set_at_all
          (λ j x.
            (spawn i s w.processes).start j ≢ 0
            → PointSound (spawn i s w.processes) w.memory.reader_tokens j x)
          w.point i outside (λ q. tt)
          (λ j d q.
            spawn-PointSound inv.order i s n w.memory.reader_tokens j (w.point j) d
              (inv.sound j (ground arith)))
          j r;
    holder = λ j r h. ground (arith, inv.holder j);
  }
  Step-Inv roomy (die {i} q) = record {
    order = crash-InOrder inv.order i q;
    lock_known = λ h. crash-Known inv.order i w.memory.write_lock q (inv.lock_known h);
    slots_known = λ x h. crash-Known inv.order i (w.memory.reader_tokens x) q (inv.slots_known x h);
    sound = λ j r.
        crash-PointSound inv.order i q w.memory.reader_tokens j (w.point j) (ground arith)
          (inv.sound j (ground arith));
    holder = λ j r h. ground (arith, inv.holder j);
  }
  Step-Inv roomy (step {i} b r q a) =
      Moved-Inv i (rw_step w.processes.start (token_of w.processes i) i b r (w.point i) w.memory) q
        (rw_step-Moved inv.order i q w.memory b r (w.point i) inv.lock_known inv.slots_known
          (inv.sound i q) (roomy i q) a)

initial-Inv : Inv initial
initial-Inv = record {
  order = record {
    positive = λ i r. absurd (r refl);
    small = λ i r. absurd (r refl);
    unburied = λ i r. refl;
  };
  lock_known = λ h. absurd (h refl);
  slots_known = λ x h. absurd (h refl);
  sound = λ i r. tt;
  holder = λ i r h. absurd (r refl);
}

pub Reach-Inv : {w : World} → Reach w → Inv w
Reach-Inv here = initial-Inv
Reach-Inv (next r roomy s) = Step-Inv (Reach-Inv r) roomy s

-- With the guard, for writing or reading.
abbrev pub inside : Point → Bool
inside writing = true
inside (reading x) = true
inside _ = false
