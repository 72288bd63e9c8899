-- ===== src/Outcome.antt =====
-- What a call that may throw returns: its value or the exception, and in either case the state
-- that it leaves behind.

-- The exceptions of the library; `out_of_fuel` is the model's own, for a loop whose fuel is spent.
pub data Error : Type 0 where
  bad_alloc cannot_open_file pool_empty pool_too_large resize_failed mmap_failed : Error
  invalid_argument out_of_range : Error
  out_of_fuel : Error

pub data Outcome (S A : Type 0) : Type 0 where
  ok : A → S → Outcome S A
  fail : Error → S → Outcome S A

abbrev pub and_then : {S A B : Type 0} → Outcome S A → (A → S → Outcome S B) → Outcome S B
and_then (ok a s) k = k a s
and_then (fail e s) k = fail e s

-- The state that a call leaves, however it ends.
abbrev pub state_of : {S A : Type 0} → Outcome S A → S
state_of (ok a s) = s
state_of (fail e s) = s

abbrev pub map_state : {S T A : Type 0} → (S → T) → Outcome S A → Outcome T A
map_state f (ok a s) = ok a (f s)
map_state f (fail e s) = fail e (f s)
