-- ===== src/PrefixTree/Store.antt =====
-- Looking up what the inserts of PrefixTree.cc store in a slot.
use sharedstructures.Base.{
  ℕ, ◌≡◌, ◌≢◌, refl, ap, sym, ◌∙◌, eq→==, ne→==, Option, none, some, if◌then◌else◌, [], subst,
}
use sharedstructures.Outcome.{Outcome, ok, fail, and_then, bad_alloc}
use sharedstructures.Allocator.{Allocator}
use sharedstructures.PrefixTree.Contents.{
  string, short_string, type_for_contents, value_for_contents, short_string_of, contents_of_offset,
}
use sharedstructures.PrefixTree.Node.{
  Node, Slot, value_slot, child_slot, Tree, read_slot, write_slot, update, allocate_block,
  block_outcome,
}
use sharedstructures.PrefixTree.Query.{
  LookupResult, result_for_type, string_result, lookup_result_for_contents, string_at,
}
use sharedstructures.PrefixTree.Update.{store_buffer}

pub update_same : {B : Type 0} (f : ℕ → B) (a : ℕ) (b : B) → update f a b a ≡ b
unfolding update
update_same f a b = rw (eq→== a a refl) refl

pub read-write_slot :
    {S : Type 0} (slot : Slot) (v : ℕ) (t : Tree S) → read_slot slot (write_slot slot v t) ≡ v
unfolding read_slot write_slot
read-write_slot (value_slot off) v t = ap Node.value (update_same t.nodes off _)
read-write_slot (child_slot off i) v t =
    ap (λ n. Node.children n i) (update_same t.nodes off _) ∙ update_same (t.nodes off).children i v

pub alloc-write_slot :
    {S : Type 0} (slot : Slot) (v : ℕ) (t : Tree S) → (write_slot slot v t).alloc ≡ t.alloc
unfolding write_slot
alloc-write_slot (value_slot off) v t = refl
alloc-write_slot (child_slot off i) v t = refl

pub bytes-write_slot :
    {S : Type 0} (slot : Slot) (v : ℕ) (t : Tree S) → (write_slot slot v t).bytes ≡ t.bytes
unfolding write_slot
bytes-write_slot (value_slot off) v t = refl
bytes-write_slot (child_slot off i) v t = refl

pub words-write_slot :
    {S : Type 0} (slot : Slot) (v : ℕ) (t : Tree S) → (write_slot slot v t).words ≡ t.words
unfolding write_slot
words-write_slot (value_slot off) v t = refl
words-write_slot (child_slot off i) v t = refl

module _ (A : Allocator) where
  -- The slot holds the result, or the allocator had no room and nothing has changed.
  pub data Stores (r : LookupResult) (slot : Slot) (t : Tree A.State)
      : Outcome (Tree A.State) (Unit {0}) → Type 0 where
    stored :
        {t' : Tree A.State}
        → lookup_result_for_contents A (read_slot slot t') t' ≡ ok r t'
        → Stores r slot t (ok tt t')
    no_room : Stores r slot t (fail bad_alloc t)

  pub lookup-short :
      (c : ℕ) (t : Tree A.State)
      → type_for_contents c ≡ short_string
      → lookup_result_for_contents A c t ≡ ok (string_result (short_string_of c)) t
  unfolding lookup_result_for_contents result_for_type
  lookup-short c t h = ap (λ ty. result_for_type A ty (value_for_contents c) c t) h

  pub lookup-string :
      (c off : ℕ) (t : Tree A.State)
      → type_for_contents c ≡ string
      → value_for_contents c ≡ off
      → off ≢ 0
      → lookup_result_for_contents A c t ≡ ok (string_result (string_at A off t)) t
  unfolding lookup_result_for_contents result_for_type
  lookup-string c off t h e z =
      ap (λ ty. result_for_type A ty (value_for_contents c) c t) h
      ∙ ap (λ o. result_for_type A string o c t) e
      ∙ ap (λ b. ok (string_result (if b then [] else string_at A off t)) t) (ne→== off 0 z)

  pub store-slot :
      (slot : Slot) (c : ℕ) (r : LookupResult) (t t₀ : Tree A.State)
      → ((t' : Tree A.State) → lookup_result_for_contents A c t' ≡ ok r t')
      → Stores r slot t₀ (ok tt (write_slot slot c t))
  store-slot slot c r t t₀ h = stored (
      subst (λ x. lookup_result_for_contents A x (write_slot slot c t) ≡ ok r (write_slot slot c t))
        (sym (read-write_slot slot c t)) (h (write_slot slot c t)))

  -- A new buffer: `fill` writes into it, and the slot is looked up as the result.
  pub store_buffer-Stores :
      (size tag : ℕ) (fill : ℕ → Tree A.State → Tree A.State)
      → (r : LookupResult) → (slot : Slot) (t : Tree A.State)
      → ((off : ℕ) (a : A.State)
          → A.allocate size t.alloc ≡ some (off, a)
          → lookup_result_for_contents A
              (contents_of_offset off tag)
              (write_slot slot (contents_of_offset off tag) (fill off (record t { alloc = a })))
            ≡ ok r
                (write_slot slot (contents_of_offset off tag) (fill off (record t { alloc = a }))))
      → Stores r slot t (store_buffer A size tag fill slot t)
  unfolding store_buffer allocate_block
  store_buffer-Stores size tag fill r slot t h = allocated (A.allocate size t.alloc) refl
    where
      allocated :
          (o : Option (ℕ × A.State))
          → A.allocate size t.alloc ≡ o
          → Stores r slot t (
              and_then
                (block_outcome A t o)
                λ r t₁. ok tt (write_slot slot (contents_of_offset r tag) (fill r t₁)))
      allocated none e = no_room
      allocated (some (off, a)) e =
          let t' =
            write_slot slot (contents_of_offset off tag) (fill off (record t { alloc = a })) in
          stored (
            subst (λ x. lookup_result_for_contents A x t' ≡ ok r t')
              (sym (
                read-write_slot slot (contents_of_offset off tag)
                  (fill off (record t { alloc = a }))))
              (h off a e))
