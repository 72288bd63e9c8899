-- ===== src/LogarithmicAllocator/Examples.antt =====
-- Two free blocks of order 5, at 1024 and 1088, and a third at 1152.
use sharedstructures.Base.{
  ℕ, ◌≡◌, ◌≢◌, refl, arith, some, List, [], ◌∷◌, Away, set_at, set_at_other, set_at_all,
}
use sharedstructures.LogarithmicAllocator.Blocks.{Block, State, free_word, place}
use sharedstructures.LogarithmicAllocator.Lists.{create_free_block, unlink_block}
use sharedstructures.LogarithmicAllocator.Listed.{Listed, IsOrder, FreeLists}
use sharedstructures.LogarithmicAllocator.Append.{create_free_block-FreeLists}
use sharedstructures.LogarithmicAllocator.Unlink.{unlink_block-FreeLists}

abbrev none_at : ℕ → Block
none_at x = record { prev_order_allocated = 0; next = 0 }

abbrev two_free : State
two_free = record {
  size = 4096;
  base_object_offset = 0;
  bytes_allocated = 0;
  bytes_committed = 1024;
  free_head = set_at (λ x. 0) 1 1024;
  free_tail = set_at (λ x. 0) 1 1088;
  blocks =
      set_at (set_at none_at 1024 (record { prev_order_allocated = free_word 5 0; next = 1088 }))
        1088 (record { prev_order_allocated = free_word 5 1024; next = 0 });
}

abbrev view : ℕ → List ℕ
view = set_at (λ o. []) 5 (1024 ∷ 1088 ∷ [])

two_free-Listed : Listed 5 (1024 ∷ 1088 ∷ []) two_free
unfolding place
two_free-Listed = record {
  head = refl;
  tail = refl;
  linked = (refl, (refl, tt));
  linkable = ((λ e. omega arith, omega arith), ((λ e. omega arith, omega arith), tt));
  distinct = ((λ e. omega arith, tt), (tt, tt));
}

place-not_one : (o : ℕ) → IsOrder o → 5 ≢ o → 1 ≢ place o
unfolding place
place-not_one o h n e = n (omega arith)

two_free-FreeLists : FreeLists view two_free
two_free-FreeLists =
    set_at_all (λ o xs. IsOrder o → Listed o xs two_free) (λ o. []) 5 (1024 ∷ 1088 ∷ [])
      (λ i. two_free-Listed)
      (λ o n i. record {
        head = set_at_other (λ x. 0) 1 1024 (place o) (place-not_one o i n);
        tail = set_at_other (λ x. 0) 1 1088 (place o) (place-not_one o i n);
        linked = tt;
        linkable = tt;
        distinct = tt;
      })

third_is_new : (o : ℕ) → IsOrder o → Away 1152 (view o)
third_is_new =
    set_at_all (λ o xs. IsOrder o → Away 1152 xs) (λ o. []) 5 (1024 ∷ 1088 ∷ [])
      (λ i. (λ e. omega arith, (λ e. omega arith, tt))) (λ o n i. tt)

create_free_block-FreeLists_example :
    (s' : State) × ((create_free_block 1152 5 two_free ≡ some s')
      × FreeLists (set_at view 5 (1024 ∷ 1088 ∷ 1152 ∷ [])) s')
create_free_block-FreeLists_example =
    create_free_block-FreeLists view 5 1152 two_free (omega arith, omega arith)
      (λ e. omega arith, omega arith) two_free-FreeLists third_is_new

unlink_block-FreeLists_example : FreeLists (set_at view 5 (1024 ∷ [])) (unlink_block 1088 two_free)
unlink_block-FreeLists_example =
    unlink_block-FreeLists view 5 1088 two_free (omega arith, omega arith) two_free-FreeLists
      (1024 ∷ []) [] refl
