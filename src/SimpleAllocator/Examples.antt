-- ===== src/SimpleAllocator/Examples.antt =====
-- Runs of the allocator, and the theorems at them.
use sharedstructures.Base.{
  ℕ, ◌+◌, ◌≤◌, ◌≡◌, refl, List, [], ◌∷◌, arith, true, false, Option, none, some, ◌%◌,
}
use sharedstructures.Outcome.{Outcome, ok, fail, state_of}
use sharedstructures.Pool.{Pool, Os, expand}
use sharedstructures.Pool.Expand.{InSync}
use sharedstructures.SimpleAllocator.{
  State, write, sizeof_data, initial_header, allocate, allocate_linked, free, block_size, repair,
  lock, construct,
}
use sharedstructures.SimpleAllocator.Layout.{Entry, Holds}
use sharedstructures.SimpleAllocator.Place.{SameRoot}
use sharedstructures.SimpleAllocator.Free.{free-Holds, block_size_lem}
use sharedstructures.SimpleAllocator.Apart.{Apart, allocate-Apart, free-allocate}
use sharedstructures.SimpleAllocator.Repair.{Recoverable, repair-Holds}

abbrev willing : Os
willing = record { can_open = true; ftruncate = λ _. true; mmap = λ _. true }

abbrev one_page : Pool
one_page = record {
  max_size = 0;
  segment = record { st_size = 4096; size = 4096 };
  pool_size = 4096;
  mapped = true;
}

abbrev blank : State
blank = record {
  pool = one_page;
  header = record initial_header { initialized = false };
  blocks = λ _. record { prev = 0; next = 0; size = 0 };
}

abbrev empty : State
empty = record blank { header = initial_header }

construct_test : construct willing false blank ≡ ok tt empty
unfolding construct lock expand
construct_test = refl

-- Two blocks, of 100 and 8 bytes, with 40 free bytes between them.
abbrev two_blocks : State
two_blocks = record empty {
  header = record initial_header {
    head = 320;
    tail = 488;
    bytes_allocated = 108;
    bytes_committed = 480;
  };
  blocks =
      write (write empty.blocks 320 (record { prev = 0; next = 488; size = 100 })) 488
        (record { prev = 320; next = 0; size = 8 });
}

abbrev two_entries : List Entry
two_entries = (320, 100) ∷ (488, 8) ∷ []

one_page-InSync : InSync one_page
one_page-InSync = record {
  mapped = refl;
  whole = refl;
  length = refl;
  pages = refl;
  nonempty = omega arith;
  bounded = omega arith;
}

empty-Holds : Holds empty []
empty-Holds = record {
  sync = one_page-InSync;
  chain = (refl, refl);
  fits = omega arith;
  allocated = refl;
  committed = refl;
}

two_blocks-Holds : Holds two_blocks two_entries
unfolding write
two_blocks-Holds = record {
  sync = one_page-InSync;
  chain = (refl, refl, refl, (refl, refl, refl, (refl, refl)));
  fits = omega arith;
  allocated = refl;
  committed = refl;
}

-- A request of 10 bytes goes into the space of 40 bytes, one of 5000 bytes expands the pool.
abbrev offset_of : {S A : Type 0} → Outcome S A → Option A
offset_of (ok a s) = some a
offset_of (fail e s) = none

fills_space : offset_of (allocate willing 10 two_blocks) ≡ some 472
unfolding allocate allocate_linked write expand
fills_space = refl

expands_pool : offset_of (allocate willing 5000 two_blocks) ≡ some 544
unfolding allocate allocate_linked write expand
expands_pool = refl

free-Holds_example :
    Holds (free 344 two_blocks) ((488, 8) ∷ [])
    × ((free 344 two_blocks).pool ≡ two_blocks.pool)
    × SameRoot two_blocks (free 344 two_blocks)
free-Holds_example = free-Holds two_blocks [] ((488, 8) ∷ []) 320 100 two_blocks-Holds (omega arith)

block_size_lem_example : block_size 512 two_blocks ≡ 8
block_size_lem_example = block_size_lem two_blocks ((320, 100) ∷ []) [] 488 8 two_blocks-Holds

-- One block that fills the pool up to a block of 8 bytes at its end.
abbrev full_blocks : State
full_blocks = record empty {
  header = record initial_header {
    head = 320;
    tail = 4064;
    bytes_allocated = 3728;
    bytes_committed = 4096;
  };
  blocks =
      write (write empty.blocks 320 (record { prev = 0; next = 4064; size = 3720 })) 4064
        (record { prev = 320; next = 0; size = 8 });
}

-- The state after a request of 10 bytes.
abbrev three_blocks : State
three_blocks = state_of (allocate willing 10 two_blocks)

allocate_run : allocate willing 10 two_blocks ≡ ok 472 three_blocks
unfolding allocate allocate_linked write expand
allocate_run = refl

three_blocks_size : three_blocks.size ≡ 4096
unfolding allocate allocate_linked write expand
three_blocks_size = refl

allocate-Apart_example :
    ◌≡◌ {A = ℕ} (472 % 8) 0
    × (sizeof_data ≤ 472)
    × (472 + 10 ≤ three_blocks.size)
    × Apart 472 10 two_entries
    × (block_size 472 three_blocks ≡ 10)
allocate-Apart_example =
    allocate-Apart willing two_blocks two_entries 10 472 three_blocks (omega arith) (omega arith)
      two_blocks-Holds allocate_run

free-allocate_example : Holds (free 472 three_blocks) two_entries
free-allocate_example =
    free-allocate willing two_blocks two_entries 10 472 three_blocks (omega arith) (omega arith)
      two_blocks-Holds allocate_run (omega (arith, three_blocks_size))

-- A crash left the back links, the tail and the counters wrong.
abbrev torn_blocks : State
torn_blocks = record two_blocks {
  header = record initial_header { head = 320; tail = 7; bytes_allocated = 9 };
  blocks =
      write (write empty.blocks 320 (record { prev = 5; next = 488; size = 100 })) 488
        (record { prev = 0; next = 0; size = 8 });
}

torn_blocks-Recoverable : Recoverable torn_blocks two_entries
unfolding write
torn_blocks-Recoverable = record {
  sync = one_page-InSync;
  chain = (refl, refl, (refl, refl, refl));
  fits = omega arith;
}

repair-Holds_example :
    (s' : State) × (repair torn_blocks ≡ ok tt s')
    × Holds s' two_entries
    × (s'.pool ≡ torn_blocks.pool)
    × SameRoot torn_blocks s'
repair-Holds_example = repair-Holds torn_blocks two_entries torn_blocks-Recoverable
