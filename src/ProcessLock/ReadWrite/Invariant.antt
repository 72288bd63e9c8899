-- ===== src/ProcessLock/ReadWrite/Invariant.antt =====
-- ProcessReadWriteLockGuard: what holds in each reachable world.
use sharedstructures.Base.{ℕ, ◌<◌, ◌≤◌, ◌≡◌, ◌≢◌, ◌⊎◌, refl, arith, Bool, true, false}
use sharedstructures.ProcessLock.Processes.{
  Processes, token_of, spawn, crash, Spawnable, InOrder, Known, spawn-Known, crash-Known,
}
use sharedstructures.ProcessLock.Acquire.{has_acquired, Sound}
use sharedstructures.ProcessLock.Turning.{spawn-Sound, crash-Sound}
use sharedstructures.ProcessLock.Release.{Releasing}
use sharedstructures.ProcessLock.Release as Release
use sharedstructures.ProcessLock.ReadWrite.{
  num_reader_slots, Point, outside, waking, taking_write, draining, draining_slot, writing,
  taking_read, searching, placing, unlocking, unlocked, checking, choosing, awaiting_slot, reading,
  World,
}
use sharedstructures.ProcessLock.ReadWrite.Slots.{
  Slotting, Slotting-own, Slotting-empty, Slotting-emptying,
}

-- The points at which a process has the write lock.
abbrev pub locks : Point → Bool
locks (taking_write s) = has_acquired s
locks (draining x) = true
locks (draining_slot x s) = true
locks writing = true
locks (taking_read s) = has_acquired s
locks (searching x) = true
locks (placing x) = true
locks (unlocking x) = true
locks _ = false

-- The slots below `n` are empty.
abbrev pub Drained : (ℕ → ℕ) → ℕ → Type 0
Drained f n = (y : ℕ) → y < n → f y ≡ 0

abbrev pub Emptying : (ℕ → ℕ) → ℕ → ℕ → Type 0
Emptying f x e = (f x ≡ 0) ⊎ (f x ≡ e)

abbrev pub HasSlot : Processes → (ℕ → ℕ) → ℕ → ℕ → Type 0
HasSlot p f i x = (x ≤ num_reader_slots) × (x < num_reader_slots → f x ≡ token_of p i)

abbrev pub ReleaseSound : Processes → (ℕ → ℕ) → ℕ → Releasing → Type 0
ReleaseSound p f x (Release.waiting e) = Known p e × Emptying f x e
ReleaseSound p f x (Release.asking e) = Known p e × Emptying f x e
ReleaseSound p f x (Release.clearing e) = (p.buried e ≡ true) × Emptying f x e
ReleaseSound p f x (Release.finished b) = f x ≡ 0
ReleaseSound p f x Release.threw = Unit

abbrev pub PointSound : Processes → (ℕ → ℕ) → ℕ → Point → Type 0
PointSound p f i (taking_write s) = Sound p s
PointSound p f i (draining x) = (x ≤ num_reader_slots) × Drained f x
PointSound p f i (draining_slot x s) = (x < num_reader_slots) × Drained f x × ReleaseSound p f x s
PointSound p f i writing = Drained f num_reader_slots
PointSound p f i (taking_read s) = Sound p s
PointSound p f i (searching x) = x ≤ num_reader_slots
PointSound p f i (placing x) = (x < num_reader_slots) × (f x ≡ 0)
PointSound p f i (unlocking x) = HasSlot p f i x
PointSound p f i (unlocked x) = HasSlot p f i x
PointSound p f i (reading x) = (x < num_reader_slots) × (f x ≡ token_of p i)
PointSound p f i _ = Unit

pub record Inv (w : World) : Type 0 where
  pub order : InOrder w.processes
  pub lock_known : w.memory.write_lock ≢ 0 → Known w.processes w.memory.write_lock
  pub slots_known :
      (x : ℕ) → w.memory.reader_tokens x ≢ 0 → Known w.processes (w.memory.reader_tokens x)
  pub sound :
      (i : ℕ)
      → w.processes.start i ≢ 0
      → PointSound w.processes w.memory.reader_tokens i (w.point i)
  pub holder :
      (i : ℕ)
      → w.processes.start i ≢ 0
      → locks (w.point i) ≡ true
      → w.memory.write_lock ≡ token_of w.processes i

module _ {p : Processes} (o : InOrder p) (i k : ℕ) (n : Spawnable i k p) where
  spawn-ReleaseSound :
      (f : ℕ → ℕ) (x : ℕ) (s : Releasing) → ReleaseSound p f x s → ReleaseSound (spawn i k p) f x s
  spawn-ReleaseSound f x (Release.waiting e) h = (spawn-Known o i k e n (h.0), h.1)
  spawn-ReleaseSound f x (Release.asking e) h = (spawn-Known o i k e n (h.0), h.1)
  spawn-ReleaseSound f x (Release.clearing e) h = h
  spawn-ReleaseSound f x (Release.finished b) h = h
  spawn-ReleaseSound f x Release.threw h = h

  pub spawn-PointSound :
      (f : ℕ → ℕ) (j : ℕ) (s : Point) → i ≢ j → PointSound p f j s → PointSound (spawn i k p) f j s
  spawn-PointSound f j outside d h = tt
  spawn-PointSound f j waking d h = tt
  spawn-PointSound f j (taking_write s) d h = spawn-Sound o i k n s h
  spawn-PointSound f j (draining x) d h = h
  spawn-PointSound f j (draining_slot x s) d h = (h.0, h.1, spawn-ReleaseSound f x s (h.2))
  spawn-PointSound f j writing d h = h
  spawn-PointSound f j (taking_read s) d h = spawn-Sound o i k n s h
  spawn-PointSound f j (searching x) d h = h
  spawn-PointSound f j (placing x) d h = h
  spawn-PointSound f j (unlocking x) d h = (h.0, λ l. ground (arith, h.1 l))
  spawn-PointSound f j (unlocked x) d h = (h.0, λ l. ground (arith, h.1 l))
  spawn-PointSound f j (checking x) d h = tt
  spawn-PointSound f j choosing d h = tt
  spawn-PointSound f j (awaiting_slot s) d h = tt
  spawn-PointSound f j (reading x) d h = (h.0, ground (arith, h.1))

module _ {p : Processes} (o : InOrder p) (i : ℕ) (q : p.start i ≢ 0) where
  crash-ReleaseSound :
      (f : ℕ → ℕ) (x : ℕ) (s : Releasing) → ReleaseSound p f x s → ReleaseSound (crash i p) f x s
  crash-ReleaseSound f x (Release.waiting e) h = (crash-Known o i e q (h.0), h.1)
  crash-ReleaseSound f x (Release.asking e) h = (crash-Known o i e q (h.0), h.1)
  crash-ReleaseSound f x (Release.clearing e) h = (ground (arith, h.0), h.1)
  crash-ReleaseSound f x (Release.finished b) h = h
  crash-ReleaseSound f x Release.threw h = h

  pub crash-PointSound :
      (f : ℕ → ℕ) (j : ℕ) (s : Point) → i ≢ j → PointSound p f j s → PointSound (crash i p) f j s
  crash-PointSound f j outside d h = tt
  crash-PointSound f j waking d h = tt
  crash-PointSound f j (taking_write s) d h = crash-Sound o i q s h
  crash-PointSound f j (draining x) d h = h
  crash-PointSound f j (draining_slot x s) d h = (h.0, h.1, crash-ReleaseSound f x s (h.2))
  crash-PointSound f j writing d h = h
  crash-PointSound f j (taking_read s) d h = crash-Sound o i q s h
  crash-PointSound f j (searching x) d h = h
  crash-PointSound f j (placing x) d h = h
  crash-PointSound f j (unlocking x) d h = (h.0, λ l. ground (arith, h.1 l))
  crash-PointSound f j (unlocked x) d h = (h.0, λ l. ground (arith, h.1 l))
  crash-PointSound f j (checking x) d h = tt
  crash-PointSound f j choosing d h = tt
  crash-PointSound f j (awaiting_slot s) d h = tt
  crash-PointSound f j (reading x) d h = (h.0, ground (arith, h.1))

-- Another process' step.
module _ {p : Processes} (o : InOrder p) {i : ℕ} (q : p.start i ≢ 0) {locked : Bool} {f f' : ℕ → ℕ}
    (t : Slotting p i locked f f') (j : ℕ) (d : i ≢ j) (r : p.start j ≢ 0) where
  other-HasSlot : (x : ℕ) → HasSlot p f j x → HasSlot p f' j x
  other-HasSlot x h = (h.0, λ l. Slotting-own o q t j d r x (h.1 l))

  other-ReleaseSound :
      (x : ℕ) (s : Releasing) → ¬ (locked ≡ true) → ReleaseSound p f x s → ReleaseSound p f' x s
  other-ReleaseSound x (Release.waiting e) n h = (h.0, Slotting-emptying o q t n x e (h.1))
  other-ReleaseSound x (Release.asking e) n h = (h.0, Slotting-emptying o q t n x e (h.1))
  other-ReleaseSound x (Release.clearing e) n h = (h.0, Slotting-emptying o q t n x e (h.1))
  other-ReleaseSound x (Release.finished b) n h = Slotting-empty o q t n x h
  other-ReleaseSound x Release.threw n h = h

  pub other-PointSound :
      (s : Point) → (locks s ≡ true → ¬ (locked ≡ true)) → PointSound p f j s → PointSound p f' j s
  other-PointSound outside n h = tt
  other-PointSound waking n h = tt
  other-PointSound (taking_write s) n h = h
  other-PointSound (draining x) n h = (h.0, λ y l. Slotting-empty o q t (n refl) y (h.1 y l))
  other-PointSound (draining_slot x s) n h =
      (h.0, λ y l. Slotting-empty o q t (n refl) y (h.1 y l), other-ReleaseSound x s (n refl) (h.2))
  other-PointSound writing n h = λ y l. Slotting-empty o q t (n refl) y (h y l)
  other-PointSound (taking_read s) n h = h
  other-PointSound (searching x) n h = h
  other-PointSound (placing x) n h = (h.0, Slotting-empty o q t (n refl) x (h.1))
  other-PointSound (unlocking x) n h = other-HasSlot x h
  other-PointSound (unlocked x) n h = other-HasSlot x h
  other-PointSound (checking x) n h = tt
  other-PointSound choosing n h = tt
  other-PointSound (awaiting_slot s) n h = tt
  other-PointSound (reading x) n h = (h.0, Slotting-own o q t j d r x (h.1))
