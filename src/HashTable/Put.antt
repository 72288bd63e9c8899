-- ===== src/HashTable/Put.antt =====
-- A pair in a block of its own put into a slot: the branches of insert behind the allocation of the
-- pair.
use sharedstructures.Base.{
  ℕ, ◌+◌, ◌*◌, ◌/◌, ◌%◌, ◌^◌, ◌≡◌, ◌≢◌, inr, refl, sym, ap, ◌∙◌, arith, length, true, set_at,
  set_at_same, set_at_other, bit_or-add,
}
use Prim.Native.Nat.{bit_or}
use sharedstructures.Allocator.{Allocator}
use sharedstructures.HashTable.Memory.{Slot, Table, free_block, set_slot, count_item, tagged_link}
use sharedstructures.HashTable.Contents.{
  Entry, Contents, vacant, direct, entries_of, same_list, PairAt, SlotHolds,
}
use sharedstructures.HashTable.Frame.{Same, Same-trans, PairAt-Same, free_block-Same}
use sharedstructures.HashTable.Held.{LiveIn, Changed}
use sharedstructures.HashTable.Chains.{put}

pub tagged_link_lem : (r : ℕ) → r % 8 ≡ 0 → tagged_link r ≡ r + 1
tagged_link_lem r h =
    let e : r ≡ r / 2 * 2 ^ 1 = omega (arith, h) in
    ap (λ x. bit_or x 1) e ∙ bit_or-add 1 (r / 2) 1 (omega arith) ∙ omega (arith, h)

module _ (A : Allocator) where
  -- From `t` to `u` a pair has been written into a new block.
  pub record Paired (t u : Table A.State) (new : Entry) : Type 0 where
    pub pair : PairAt A u new
    pub same : (b : ℕ) → Same A t u b
    pub newer : (b : ℕ) → LiveIn A t b → b ≢ new.offset
    pub slots : u.slots ≡ t.slots
    pub bits : u.bits ≡ t.bits

  -- The slot `i` comes to hold the pair beside what it held.
  pub record PutAt (t w : Table A.State) (i : ℕ) (old : Contents) (new : Entry) : Type 0 where
    pub contents : Contents
    pub changed : Changed A t w i old contents
    pub spells : entries_of contents ≡ put new (entries_of old)

  abbrev pub direct_slot : Entry → Slot
  direct_slot e = record { key_offset = e.offset; key_size = length e.key }

  pub header-Same :
      {t u : Table A.State} {b : ℕ} (f : ℕ → Slot) (c : ℕ)
      → Same A t u b
      → Same A t (record u { slots = f; item_count = c }) b
  header-Same f c s = record { live = s.live; size = s.size; node = s.node; content = s.content }

  self-Same : (u : Table A.State) (b : ℕ) → Same A u u b
  self-Same u b = record { live = λ x i. i; size = λ i. refl; node = refl; content = λ x i. refl }

  module _ {t u : Table A.State} {new : Entry} (p : Paired t u new) (i : ℕ) where
    others_kept : (s : Slot) (j : ℕ) → i ≢ j → set_at u.slots i s j ≡ t.slots j
    others_kept s j d = set_at_other u.slots i s j d ∙ ap (λ f. f j) p.slots

    direct-SlotHolds :
        {w : Table A.State}
        → PairAt A w new
        → SlotHolds A w (set_at u.slots i (direct_slot new) i) (direct new)
    direct-SlotHolds q = rw (set_at_same u.slots i (direct_slot new)) (refl, refl, q)

    pub vacant-PutAt : PutAt t (count_item (set_slot i (direct_slot new) u)) i vacant new
    vacant-PutAt = record {
      contents = direct new;
      changed = record {
        bits = p.bits;
        others = others_kept (direct_slot new);
        slot = direct-SlotHolds (PairAt-Same A p.pair (header-Same _ _ (self-Same u new.offset)));
        distinct = (tt, tt);
        from = (inr (λ l. p.newer new.offset l refl), tt);
        kept = λ b l a. header-Same _ _ (p.same b);
      };
      spells = refl;
    }

    pub direct-PutAt :
        (e : Entry)
        → PairAt A t e
        → same_list e.key new.key ≡ true
        → PutAt t (set_slot i (direct_slot new) (free_block A e.offset u)) i (direct e) new
    direct-PutAt e q h = record {
      contents = direct new;
      changed = record {
        bits = p.bits;
        others = others_kept (direct_slot new);
        slot = direct-SlotHolds (
            PairAt-Same A p.pair (
              header-Same _ _
                (free_block-Same A e.offset u new.offset (λ z. p.newer e.offset q.live (sym z)))));
        distinct = (tt, tt);
        from = (inr (λ l. p.newer new.offset l refl), tt);
        kept = λ b l a.
            header-Same _ _ (Same-trans A l (p.same b) (free_block-Same A e.offset u b (a.0)));
      };
      spells = rw h refl;
    }
