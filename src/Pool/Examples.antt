-- ===== src/Pool/Examples.antt =====
-- The theorems on pools at a pool of one page.
use sharedstructures.Base.{◌<◌, ◌≡◌, refl, arith, true, ◌↔◌}
use sharedstructures.Outcome.{ok, fail, state_of, pool_too_large}
use sharedstructures.Pool.{Pool, Os, expand, called_offset, page_size, check_size_and_remap}
use sharedstructures.Pool.Expand.{InSync, check_size_and_remap-InSync}
use sharedstructures.Pool.Window.{called_offset_iff}

abbrev willing : Os
willing = record { can_open = true; ftruncate = λ _. true; mmap = λ _. true }

abbrev small_pool : Pool
small_pool = record {
  max_size = 10000;
  segment = record { st_size = 4096; size = 4096 };
  pool_size = 4096;
  mapped = true;
}

grows : (state_of (expand willing 5000 small_pool)).size ≡ 8192
unfolding expand
grows = refl

refused : expand willing 9000 small_pool ≡ fail pool_too_large small_pool
unfolding expand
refused = refl

called_offset_iff_example : (called_offset 5000 ≡ 5000) ↔ (5000 < page_size)
called_offset_iff_example = called_offset_iff 5000 (omega arith)

-- Another process has expanded the segment.
abbrev stale_pool : Pool
stale_pool = record small_pool { segment = record { st_size = 8192; size = 8192 } }

check_size_and_remap-InSync_example :
    (q : Pool) × (check_size_and_remap willing stale_pool ≡ ok tt q)
    × InSync q
    × (q.segment ≡ stale_pool.segment)
check_size_and_remap-InSync_example =
    check_size_and_remap-InSync willing stale_pool refl refl refl (omega arith) (omega arith)
      (omega arith) refl
