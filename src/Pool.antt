-- ===== src/Pool.antt =====
-- Pool.cc and Pool.hh: the shared segment, and one process' mapping of it.
pub mod Expand
pub mod Window
mod Examples
use sharedstructures.Base.{
  ℕ, ◌+◌, ◌*◌, ◌/◌, ◌%◌, ◌<◌, ◌≤◌, ◌≡◌, Bool, true, false, ◌&&◌, not, Option, none, some, ltb, ◌==◌,
  if◌then◌else◌, round_up, sub64, add64,
}
use sharedstructures.Outcome.{
  Outcome, ok, fail, and_then, Error, bad_alloc, cannot_open_file, pool_empty, pool_too_large,
  resize_failed, mmap_failed,
}

abbrev pub page_size : ℕ
page_size = 4096

-- The answers of the operating system: whether an existing segment can be opened, and whether
-- `ftruncate` to a size and `mmap` of a size succeed.
pub record Os : Type 0 where
  pub can_open : Bool
  pub ftruncate : ℕ → Bool
  pub mmap : ℕ → Bool

-- A file or shared memory object: its length, and the `size` field at its start.
pub record Segment : Type 0 where
  pub st_size : ℕ
  pub size : ℕ

-- A process' view: the bytes that it has mapped (`pool_size`) and whether the mapping is good.
pub record Pool : Type 0 where
  pub max_size : ℕ
  pub segment : Segment
  pub open segment use *
  pub pool_size : ℕ
  pub mapped : Bool

abbrev pub fresh_segment : Segment
fresh_segment = record { st_size = page_size; size = page_size }

abbrev pub fresh_pool : ℕ → Pool
fresh_pool max_size = record {
  max_size = max_size;
  segment = fresh_segment;
  pool_size = page_size;
  mapped = true;
}

pub create_pool : Os → ℕ → Outcome (Option Segment) Pool
create_pool os max_size =
    if not (os.ftruncate page_size)
    then fail resize_failed none
    else if not (os.mmap page_size)
    then fail bad_alloc none
    else ok (fresh_pool max_size) (some fresh_segment)

abbrev pub opened_pool : ℕ → Segment → Pool
opened_pool max_size seg = record {
  max_size = max_size;
  segment = seg;
  pool_size = seg.st_size;
  mapped = true;
}

pub open_existing : Os → ℕ → Segment → Outcome (Option Segment) Pool
open_existing os max_size seg =
    if not os.can_open
    then fail cannot_open_file (some seg)
    else if seg.st_size == 0
    then fail pool_empty (some seg)
    else if not (os.mmap seg.st_size)
    then fail bad_alloc (some seg)
    else ok (opened_pool max_size seg) (some seg)

-- The constructor. The state is what the name stands for: a new segment is unlinked on failure.
pub open_pool : Os → ℕ → Option Segment → Outcome (Option Segment) Pool
unfolding create_pool open_existing
open_pool os max_size none = create_pool os max_size
open_pool os max_size (some seg) = open_existing os max_size seg

pub remap : Os → ℕ → Pool → Outcome Pool (Unit {0})
remap os n p =
    if os.mmap n
    then ok tt (record p { pool_size = n; mapped = true })
    else fail mmap_failed (record p { pool_size = n; mapped = false })

abbrev pub current_size : Pool → ℕ
current_size p = if p.pool_size == 0 then p.st_size else p.size

unfoldable pub check_size_and_remap : Os → Pool → Outcome Pool (Unit {0})
unfolding remap
check_size_and_remap os p =
    if current_size p == p.pool_size then ok tt p else remap os (current_size p) p

pub grow : Os → ℕ → Pool → Outcome Pool (Unit {0})
unfolding check_size_and_remap
grow os n p =
    if not (p.max_size == 0) && ltb p.max_size n
    then fail pool_too_large p
    else if not (os.ftruncate n)
    then fail resize_failed p
    else check_size_and_remap os (record p { segment = record { st_size = n; size = n } })

unfoldable pub expand : Os → ℕ → Pool → Outcome Pool (Unit {0})
unfolding grow
expand os new_size p =
    if ltb new_size p.pool_size then ok tt p else grow os (round_up 12 new_size) p

-- The file offset that `map_and_call` hands to its callback: the mapping starts at offset 0 of the
-- file, and the callback gets the byte `offset_within_page` behind that.
unfoldable pub called_offset : ℕ → ℕ
called_offset offset =
    let page_offset = offset / page_size * page_size in
    let mapped_from : ℕ = 0 in mapped_from + sub64 offset page_offset

-- The bytes that it maps.
unfoldable pub window_size : ℕ → ℕ → ℕ
window_size offset size =
    let offset_within_page = sub64 offset (offset / page_size * page_size) in
    (if ltb page_size (offset_within_page + size) then 2 else 1) * page_size
