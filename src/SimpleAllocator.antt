-- ===== src/SimpleAllocator.antt =====
-- SimpleAllocator.cc and SimpleAllocator.hh: allocated blocks in a doubly linked list in address
-- order. The blocks stand in a memory that gives at every offset what is read there as an
-- AllocatedBlock; no read can fail, as in the source.
pub mod Layout
pub mod Links
pub mod Insert
pub mod Search
pub mod Place
pub mod Request
pub mod Allocate
pub mod Unlink
pub mod Free
pub mod Apart
pub mod Repair
mod Examples
use sharedstructures.Base.{
  ℕ, zero, suc, ◌+◌, ◌*◌, ◌/◌, ◌%◌, ◌<◌, ◌≤◌, ◌≡◌, Bool, true, false, ◌&&◌, ◌||◌, not, Option, none,
  some, ltb, leb, ◌==◌, if◌then◌else◌, round_up, sub64, add64,
}
use sharedstructures.Outcome.{Outcome, ok, fail, and_then, map_state, Error, out_of_fuel}
use sharedstructures.Pool.{Pool, Os, expand, check_size_and_remap}

pub record AllocatedBlock : Type 0 where
  pub prev : ℕ
  pub next : ℕ
  pub size : ℕ

pub record Header : Type 0 where
  pub initialized : Bool
  pub base_object_offset : ℕ
  pub bytes_allocated : ℕ
  pub bytes_committed : ℕ
  pub head : ℕ
  pub tail : ℕ

abbrev pub Blocks : Type 0
Blocks = ℕ → AllocatedBlock

-- `data->size` is the pool's own field.
pub record State : Type 0 where
  pub pool : Pool
  pub open pool use *
  pub header : Header
  pub open header use *
  pub blocks : Blocks

-- sizeof(Data), which is the offset of the arena, and sizeof(AllocatedBlock)
abbrev pub sizeof_data : ℕ
sizeof_data = 320

abbrev pub sizeof_block : ℕ
sizeof_block = 24

abbrev pub Call : Type 0 → Type 0
Call A = Outcome State A

unfoldable pub write : Blocks → ℕ → AllocatedBlock → Blocks
write b o blk a = if a == o then blk else b a

abbrev pub set_next : Blocks → ℕ → ℕ → Blocks
set_next b o v = write b o (record (b o) { next = v })

abbrev pub set_prev : Blocks → ℕ → ℕ → Blocks
set_prev b o v = write b o (record (b o) { prev = v })

-- (size + 7) & ~7
abbrev pub effective_size : ℕ → ℕ
effective_size size = round_up 3 size

abbrev pub committed_size : ℕ → ℕ
committed_size size = add64 (effective_size size) sizeof_block

pub expand_pool : Os → ℕ → State → Call (Unit {0})
expand_pool os n s = map_state (λ p. record s { pool = p }) (expand os n s.pool)

-- The counters after a block of `size` bytes was linked.
abbrev pub count_block : ℕ → Header → Header
count_block size d = record d {
  bytes_allocated = add64 d.bytes_allocated size;
  bytes_committed = add64 d.bytes_committed (committed_size size);
}

pub first_placed : ℕ → State → State
first_placed size s = record s {
  blocks = write s.blocks sizeof_data (record { prev = 0; next = 0; size = size });
  header = count_block size (record (s.header) { head = sizeof_data; tail = sizeof_data });
}

pub place_first : ℕ → State → Call ℕ
unfolding first_placed
place_first size s = ok (sizeof_data + sizeof_block) (first_placed size s)

-- `allocate` where no block is linked yet.
pub allocate_first : Os → ℕ → ℕ → State → Call ℕ
unfolding expand_pool place_first
allocate_first os size needed s =
    and_then
      (if ltb (sub64 s.size sizeof_data) needed
        then expand_pool os (add64 needed sizeof_data) s
        else ok tt s)
      λ _ s'. place_first size s'

-- The best space found so far.
pub record Candidate : Type 0 where
  pub offset : ℕ
  pub size : ℕ
  pub link_location : ℕ

abbrev pub first_candidate : State → Candidate
first_candidate s = record {
  offset = sizeof_data;
  size = sub64 s.head sizeof_data;
  link_location = 0;
}

-- The free space behind the block at `cur`.
pub free_block_size : State → ℕ → ℕ
free_block_size s cur =
    let b = s.blocks cur in
    let stop = if b.next == 0 then s.size else b.next in
    sub64 (sub64 (sub64 stop cur) (effective_size b.size)) sizeof_block

-- The candidate that stands for this space.
pub space_behind : State → ℕ → Candidate
space_behind s cur = record {
  offset = add64 (add64 cur sizeof_block) (effective_size (s.blocks cur).size);
  size = free_block_size s cur;
  link_location = cur;
}

pub consider : State → ℕ → Candidate → ℕ → Candidate
consider s needed c cur =
    if leb needed (free_block_size s cur)
      && (ltb c.size needed || ltb (free_block_size s cur) c.size)
    then space_behind s cur
    else c

-- The loop over the blocks, from `cur` on.
pub search_space : ℕ → State → ℕ → Candidate → ℕ → Option Candidate
search_space zero s needed c cur = none
search_space (suc fuel) s needed c cur =
    let rest = search_space fuel s needed (consider s needed c cur) (s.blocks cur).next in
    if cur == 0 || needed == c.size then some c else rest

-- Where no space is large enough, the pool is expanded and the block goes behind the tail.
pub make_room : Os → ℕ → Candidate → State → Call Candidate
unfolding expand_pool
make_room os needed c s =
    if ltb c.size needed
    then and_then
        (expand_pool os
          (add64 (add64 (add64 s.tail sizeof_block) (effective_size (s.blocks s.tail).size)) needed)
          s)
        (λ _ s'.
          ok
            (record c {
              offset = add64 (add64 s'.tail sizeof_block) (effective_size (s'.blocks s'.tail).size);
              link_location = s'.tail;
            })
            s')
    else ok c s

-- The three ways to link the new block.
pub link_head : ℕ → ℕ → State → State
link_head size o s =
    let b = write s.blocks o (record { prev = 0; next = s.head; size = size }) in
    record s { header = record (s.header) { head = o }; blocks = set_prev b (b o).next o }

pub link_tail : ℕ → ℕ → State → State
link_tail size o s =
    let b = write s.blocks o (record { prev = s.tail; next = 0; size = size }) in
    record s { header = record (s.header) { tail = o }; blocks = set_next b (b o).prev o }

pub link_middle : ℕ → ℕ → ℕ → State → State
link_middle size o prev s =
    let next = (s.blocks prev).next in
    let b = write s.blocks o (record { prev = prev; next = next; size = size }) in
    record s { blocks = set_prev (set_next b prev o) next o }

pub link_block : ℕ → Candidate → State → State
unfolding link_head link_tail link_middle
link_block size c s =
    if c.link_location == 0
    then link_head size c.offset s
    else if c.link_location == s.tail
    then link_tail size c.offset s
    else link_middle size c.offset c.link_location s

pub placed : ℕ → Candidate → State → State
unfolding link_block
placed size c s =
    let linked = link_block size c s in record linked { header = count_block size linked.header }

pub place : ℕ → Candidate → State → Call ℕ
unfolding placed
place size c s = ok (add64 c.offset sizeof_block) (placed size c s)

pub or_out_of_fuel : {A : Type 0} → State → Option A → Call A
or_out_of_fuel s none = fail out_of_fuel s
or_out_of_fuel s (some a) = ok a s

-- `allocate` where blocks are linked. They lie apart in the pool, so its size is more rounds than
-- the loop can take.
pub allocate_linked : Os → ℕ → ℕ → State → Call ℕ
unfolding free_block_size space_behind consider search_space make_room place or_out_of_fuel
allocate_linked os size needed s =
    and_then (or_out_of_fuel s (search_space (suc s.size) s needed (first_candidate s) s.head))
      λ c s'. and_then (make_room os needed c s') (place size)

pub allocate : Os → ℕ → State → Call ℕ
allocate os size s =
    let needed = add64 (effective_size size) sizeof_block in
    if s.head == 0 && s.tail == 0
    then allocate_first os size needed s
    else allocate_linked os size needed s

pub unlink_next : AllocatedBlock → State → State
unlink_next blk s =
    if blk.prev == 0
    then record s { header = record (s.header) { head = blk.next } }
    else record s { blocks = set_next s.blocks blk.prev blk.next }

pub unlink_prev : AllocatedBlock → State → State
unlink_prev blk s =
    if blk.next == 0
    then record s { header = record (s.header) { tail = blk.prev } }
    else record s { blocks = set_prev s.blocks blk.next blk.prev }

abbrev pub uncount_block : ℕ → Header → Header
uncount_block size d = record d {
  bytes_allocated = sub64 d.bytes_allocated size;
  bytes_committed = sub64 d.bytes_committed (committed_size size);
}

abbrev pub in_arena : ℕ → State → Bool
in_arena offset s = not (ltb offset sizeof_data || ltb (sub64 s.size sizeof_block) offset)

pub remove_block : ℕ → State → State
unfolding unlink_next unlink_prev
remove_block o s =
    let counted = record s { header = uncount_block (s.blocks o).size s.header } in
    let unlinked = unlink_next (counted.blocks o) counted in
    unlink_prev (unlinked.blocks o) unlinked

pub free : ℕ → State → State
unfolding remove_block
free offset s = if in_arena offset s then remove_block (sub64 offset sizeof_block) s else s

pub block_size : ℕ → State → ℕ
block_size offset s = (s.blocks (sub64 offset sizeof_block)).size

pub set_base_object_offset : ℕ → State → State
set_base_object_offset offset s = record s {
  header = record (s.header) { base_object_offset = offset };
}

pub bytes_free : State → ℕ
bytes_free s = sub64 s.size s.bytes_committed

-- The loop of `repair`: links back, sums, and the offset of the block before.
pub record Walk : Type 0 where
  pub blocks : Blocks
  pub bytes_allocated : ℕ
  pub bytes_committed : ℕ
  pub prev_offset : ℕ

pub walk_block : ℕ → Walk → Walk
walk_block o w = record {
  blocks = set_prev w.blocks o w.prev_offset;
  bytes_allocated = add64 w.bytes_allocated (w.blocks o).size;
  bytes_committed = add64 w.bytes_committed (committed_size (w.blocks o).size);
  prev_offset = o;
}

pub walk_blocks : ℕ → ℕ → Walk → Option Walk
walk_blocks zero o w = none
walk_blocks (suc fuel) o w =
    let rest = walk_blocks fuel ((walk_block o w).blocks o).next (walk_block o w) in
    if o == 0 then some w else rest

abbrev pub walked : State → Walk → State
walked s w = record s {
  blocks = w.blocks;
  header = record (s.header) {
    tail = w.prev_offset;
    bytes_allocated = w.bytes_allocated;
    bytes_committed = w.bytes_committed;
  };
}

abbrev pub walk_start : State → Walk
walk_start s = record {
  blocks = s.blocks;
  bytes_allocated = 0;
  bytes_committed = sizeof_data;
  prev_offset = 0;
}

pub repair : State → Call (Unit {0})
unfolding walk_block walk_blocks or_out_of_fuel
repair s =
    and_then (or_out_of_fuel s (walk_blocks (suc s.size) s.head (walk_start s)))
      λ w s'. ok tt (walked s' w)

pub remap_pool : Os → State → Call (Unit {0})
remap_pool os s = map_state (λ p. record s { pool = p }) (check_size_and_remap os s.pool)

-- What `lock` does around the acquisition of the lock: `stolen` is what the guard reports.
pub lock : Os → Bool → State → Call (Unit {0})
unfolding remap_pool
lock os stolen s =
    and_then (remap_pool os s)
      λ _ s₁. and_then (remap_pool os s₁) λ _ s₂. if stolen then repair s₂ else ok tt s₂

abbrev pub initial_header : Header
initial_header = record {
  initialized = true;
  base_object_offset = 0;
  bytes_allocated = 0;
  bytes_committed = sizeof_data;
  head = 0;
  tail = 0;
}

-- The constructor.
pub construct : Os → Bool → State → Call (Unit {0})
unfolding lock
construct os stolen s =
    if s.initialized
    then ok tt s
    else and_then (lock os stolen s)
        λ _ s'. if s'.initialized then ok tt s' else ok tt (record s' { header = initial_header })
