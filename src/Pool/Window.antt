-- ===== src/Pool/Window.antt =====
-- Pool::map_and_call
use sharedstructures.Base.{ℕ, ◌^◌, ◌<◌, ◌≡◌, ◌↔◌, arith}
use sharedstructures.Pool.{page_size, called_offset}

pub called_offset_iff :
    (offset : ℕ) → offset < 2 ^ 64 → (called_offset offset ≡ offset) ↔ (offset < page_size)
unfolding called_offset
called_offset_iff offset h = omega arith
