-- ===== src/PrefixTree/StoreString.antt =====
-- Looking up the strings that the inserts of PrefixTree.cc store, whole or in parts.
use sharedstructures.Base.{
  ℕ, suc, ◌-◌, ◌*◌, ◌^◌, ◌≡◌, refl, ap, arith, ◌==◌, sym, ◌∙◌, Option, if◌then◌else◌, List, [], ◌∷◌,
  ◌++◌, length, length-append, ltb,
}
use Prim.Native.Nat.{bit_or}
use mathlib.Core.List.{append_assoc, append-nil}
use mathlib.Core.Path.{fun_ext}
use sharedstructures.Outcome.{Outcome, ok}
use sharedstructures.Allocator.{Allocator}
use sharedstructures.PrefixTree.Contents.{contents_of_short_string, pack_bytes}
use sharedstructures.PrefixTree.Node.{Slot, Tree, write_slot}
use sharedstructures.PrefixTree.Query.{Doubles, CheckRequest}
use sharedstructures.PrefixTree.Update.{
  write_bytes, write_parts, store_buffer, store_string, store_parts, total_length, pack_parts,
  insert_by, insert_string, insert_parts,
}

abbrev pub concat : List (List ℕ) → List ℕ
concat [] = []
concat (p ∷ ps) = p ++ concat ps

total_length_lem : (ps : List (List ℕ)) → total_length ps ≡ length (concat ps)
unfolding total_length
total_length_lem [] = refl
total_length_lem (p ∷ ps) = omega (arith, total_length_lem ps, length-append p (concat ps))

pack_bytes-append :
    (shift value : ℕ) (p q : List ℕ)
    → pack_bytes shift value (p ++ q)
      ≡ pack_bytes (shift - length p * 8) (pack_bytes shift value p) q
unfolding pack_bytes
pack_bytes-append shift value [] q =
    let e : shift ≡ shift - 0 * 8 = omega arith in ap (λ s. pack_bytes s value q) e
pack_bytes-append shift value (b ∷ p) q =
    let e : shift - 8 - length p * 8 ≡ shift - suc (length p) * 8 = omega arith in
    pack_bytes-append (shift - 8) (bit_or value (b * 2 ^ shift)) p q
    ∙ ap (λ s. pack_bytes s (pack_bytes (shift - 8) (bit_or value (b * 2 ^ shift)) p) q) e

pack_parts_lem :
    (shift value : ℕ) (ps : List (List ℕ))
    → pack_parts shift value ps ≡ pack_bytes shift value (concat ps)
unfolding pack_parts pack_bytes
pack_parts_lem shift value [] = refl
pack_parts_lem shift value (p ∷ ps) =
    pack_parts_lem (shift - length p * 8) (pack_bytes shift value p) ps
    ∙ sym (pack_bytes-append shift value p (concat ps))

write_parts_lem :
    {S : Type 0} (off : ℕ) (w : List ℕ) (ps : List (List ℕ)) (t : Tree S)
    → write_parts off w ps t ≡ write_bytes off (w ++ concat ps) t
unfolding write_parts
write_parts_lem off w [] t = ap (λ v. write_bytes off v t) (sym (append-nil w))
write_parts_lem off w (p ∷ ps) t =
    write_parts_lem off (w ++ p) ps t ∙ ap (λ v. write_bytes off v t) (append_assoc w p (concat ps))

module _ (A : Allocator) where
  -- The three ways to store `n` bytes.
  abbrev stored_as :
      ℕ
      → ℕ
      → (ℕ → Tree A.State → Tree A.State)
      → Slot
      → Tree A.State
      → Outcome (Tree A.State) (Unit {0})
  stored_as n short fill slot t =
      if n == 0
      then ok tt (write_slot slot 1 t)
      else if ltb n 8
      then ok tt (write_slot slot short t)
      else store_buffer A n 1 fill slot t

  store_parts_lem :
      (ps : List (List ℕ)) (slot : Slot) (t : Tree A.State)
      → store_parts A ps slot t ≡ store_string A (concat ps) slot t
  unfolding store_parts store_string contents_of_short_string
  store_parts_lem ps slot t =
      ap (λ n. stored_as n (pack_parts 56 (bit_or (n * 8) 6) ps) (λ r. write_parts r [] ps) slot t)
        (total_length_lem ps)
      ∙ ap (λ c. stored_as (length (concat ps)) c (λ r. write_parts r [] ps) slot t)
          (pack_parts_lem 56 (bit_or (length (concat ps) * 8) 6) ps)
      ∙ ap (λ f. stored_as (length (concat ps)) (contents_of_short_string (concat ps)) f slot t)
          (fun_ext λ r. fun_ext λ u. write_parts_lem r [] ps u)

  -- The insert of a value given in parts ends as the insert of their concatenation does, with the
  -- same tree.
  pub insert_parts-concat :
      (D : Doubles) (k : List ℕ) (ps : List (List ℕ)) (check : Option CheckRequest)
      (t : Tree A.State)
      → insert_parts A D k ps check t ≡ insert_string A D k (concat ps) check t
  unfolding insert_parts insert_string
  insert_parts-concat D k ps check t =
      ap (λ store. insert_by A D store k check t)
        (fun_ext λ slot. fun_ext λ u. store_parts_lem ps slot u)
