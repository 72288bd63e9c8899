-- ===== src/HashTable/Sample.antt =====
-- Sample tables of HashTable: one whose first slot holds three keys that collide, and one whose
-- first slot holds one key.
use sharedstructures.Base.{
  ℕ, ◌<◌, ◌≢◌, refl, ap, arith, List, [], ◌∷◌, set_at, set_at_all, set_at_other,
}
use sharedstructures.PrefixTree.Bump.{Bump, bump}
use sharedstructures.HashTable.Memory.{Slot, IndirectValue, Table, empty_slot}
use sharedstructures.HashTable.Contents.{
  Entry, Link, Contents, vacant, direct, chained, PairAt, SlotHolds,
}
use sharedstructures.HashTable.Held.{Held, Distinct, Apart, Apart-sym, blocks_of}

abbrev pub zeros : List ℕ
zeros = 0 ∷ 0 ∷ 0 ∷ 0 ∷ 0 ∷ 0 ∷ 0 ∷ 0 ∷ []

abbrev pub first : Entry
first = record { offset = 64; key = 1 ∷ []; value = zeros }

abbrev second : Entry
second = record { offset = 96; key = 5 ∷ []; value = 7 ∷ [] }

abbrev third : Entry
third = record { offset = 128; key = 9 ∷ []; value = 8 ∷ [] }

abbrev pub first_link : Link
first_link = record { node = 160; entry = first }

abbrev pub second_link : Link
second_link = record { node = 192; entry = second }

abbrev pub third_link : Link
third_link = record { node = 224; entry = third }

abbrev pub links : List Link
links = first_link ∷ second_link ∷ third_link ∷ []

abbrev node_of : (next : ℕ) → Entry → IndirectValue
node_of next e = record { next = next; key_offset = e.offset; key_size = 1 }

abbrev holding : Slot → Table Bump
holding s = record {
  alloc = record { count = 40; sizes = set_at (set_at (set_at (λ x. 0) 64 9) 96 2) 128 2 };
  bits = 2;
  item_count = 3;
  slots = set_at (λ i. empty_slot) 0 s;
  indirects =
      set_at
        (set_at (set_at (λ x. node_of 0 third) 160 (node_of 192 first)) 192 (node_of 224 second))
        224 (node_of 0 third);
  bytes = set_at (set_at (set_at (set_at (set_at (λ x. 0) 64 1) 96 5) 97 7) 128 9) 129 8;
}

abbrev pub three : Table Bump
three = holding (record { key_offset = 161; key_size = 0 })

abbrev pub single : Table Bump
single = holding (record { key_offset = 64; key_size = 1 })

module _ (s : Slot) where
  first-PairAt : PairAt bump (holding s) first
  first-PairAt = record {
    not_null = omega arith;
    aligned = refl;
    spelled = (refl, (refl, (refl, (refl, (refl, (refl, (refl, (refl, (refl, tt)))))))));
    small = omega arith;
    sized = refl;
    live = (omega arith, omega arith);
    inside = λ x a b. (a, omega arith);
  }

  second-PairAt : PairAt bump (holding s) second
  second-PairAt = record {
    not_null = omega arith;
    aligned = refl;
    spelled = (refl, (refl, tt));
    small = omega arith;
    sized = refl;
    live = (omega arith, omega arith);
    inside = λ x a b. (a, omega arith);
  }

  third-PairAt : PairAt bump (holding s) third
  third-PairAt = record {
    not_null = omega arith;
    aligned = refl;
    spelled = (refl, (refl, tt));
    small = omega arith;
    sized = refl;
    live = (omega arith, omega arith);
    inside = λ x a b. (a, omega arith);
  }

pub three-SlotHolds : SlotHolds bump three (three.slots 0) (chained links)
three-SlotHolds =
    let s : Slot = record { key_offset = 161; key_size = 0 } in
    (
      refl,
      (
        refl,
        record {
          not_null = omega arith;
          aligned = refl;
          live = (omega arith, omega arith);
          offset = refl;
          size = refl;
          pair = first-PairAt s;
        },
        (
          refl,
          record {
            not_null = omega arith;
            aligned = refl;
            live = (omega arith, omega arith);
            offset = refl;
            size = refl;
            pair = second-PairAt s;
          },
          (
            refl,
            record {
              not_null = omega arith;
              aligned = refl;
              live = (omega arith, omega arith);
              offset = refl;
              size = refl;
              pair = third-PairAt s;
            },
            refl,
          ),
        ),
      ),
    )

abbrev pub view_of : Contents → ℕ → Contents
view_of c = set_at (λ i. vacant) 0 c

held_first :
    (s : Slot) (c : Contents)
    → SlotHolds bump (holding s) s c
    → Distinct (blocks_of c)
    → Held bump (holding s) (view_of c)
held_first s c h d = record {
  slot =
      set_at_all (λ j x. j < 4 → SlotHolds bump (holding s) (set_at (λ i. empty_slot) 0 s j) x)
        (λ i. vacant) 0 c (λ _. h)
        (λ j n _. ap (λ s. s.key_offset) (set_at_other (λ i. empty_slot) 0 s j n));
  distinct =
      set_at_all (λ j x. j < 4 → Distinct (blocks_of x)) (λ i. vacant) 0 c (λ _. d) (λ j n _. tt);
  apart = λ i j _ _ d.
      set_at_all (λ i x. i ≢ j → Apart (blocks_of x) (blocks_of (view_of c j))) (λ i. vacant) 0 c
        (λ n. rw (set_at_other (λ i. vacant) 0 c j n) (Apart-sym [] (blocks_of c) tt)) (λ i n m. tt)
        i d;
}

pub three-Held : Held bump three (view_of (chained links))
three-Held =
    held_first (record { key_offset = 161; key_size = 0 }) (chained links) three-SlotHolds
      (omega arith)

pub single-Held : Held bump single (view_of (direct first))
single-Held =
    held_first (record { key_offset = 64; key_size = 1 }) (direct first)
      (refl, refl, first-PairAt (record { key_offset = 64; key_size = 1 })) (tt, tt)
