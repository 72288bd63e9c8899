-- ===== src/HashTable/PutSplit.antt =====
-- A slot with one pair becomes a chain of two: split_slot.
use sharedstructures.Base.{
  ℕ, ◌≡◌, ◌≢◌, inl, inr, refl, sym, ap, ◌∙◌, [], ◌∷◌, length, false, set_at_same, set_at_other,
}
use sharedstructures.Allocator.{Allocator}
use sharedstructures.HashTable.Memory.{
  Slot, IndirectValue, Table, set_slot, set_indirect, count_item, tagged_link,
}
use sharedstructures.HashTable.Update.{sizeof_indirect}
use sharedstructures.HashTable.Contents.{Entry, direct, chained, same_list, NodeAt, SlotHolds}
use sharedstructures.HashTable.Frame.{
  Same, Same-trans, PairAt-Same, set_indirect-Same, Allocated, Allocated-other,
}
use sharedstructures.HashTable.Held.{LiveIn}
use sharedstructures.HashTable.Put.{tagged_link_lem, Paired, PutAt}

module _ (A : Allocator) where
  module _ {t u : Table A.State} {new : Entry} (p : Paired A t u new) (i : ℕ) where
    module _ (e : Entry) (h : SlotHolds A t (t.slots i) (direct e))
        (n : same_list e.key new.key ≡ false) {r₁ r₂ : ℕ} {u₁ u₂ : Table A.State}
        (f₁ : Allocated A sizeof_indirect r₁ u u₁) (f₂ : Allocated A sizeof_indirect r₂ u₁ u₂) where
      abbrev created_value : IndirectValue
      created_value = record { next = 0; key_offset = new.offset; key_size = length new.key }

      abbrev existing_value : IndirectValue
      existing_value = record {
        next = r₂;
        key_offset = (u₂.slots i).key_offset;
        key_size = (u₂.slots i).key_size;
      }

      abbrev u₃ : Table A.State
      u₃ = set_indirect r₂ created_value u₂

      abbrev link : Slot
      link = record { key_offset = tagged_link r₁; key_size = 0 }

      abbrev pub split_result : Table A.State
      split_result = count_item (set_slot i link (set_indirect r₁ existing_value u₃))

      slots_kept : (j : ℕ) → u₂.slots j ≡ t.slots j
      slots_kept j =
          ap (λ x. x.slots j) f₂.rest ∙ ap (λ x. x.slots j) f₁.rest ∙ ap (λ x. x j) p.slots

      r₁_live : LiveIn A u₁ r₁
      r₁_live = f₁.fresh.live

      r₁_other : r₁ ≢ r₂
      r₁_other = Allocated-other A r₁ f₂ r₁_live

      step_of : (b : ℕ) → LiveIn A u b → Same A u split_result b
      step_of b v =
          let s = Same-trans A v (f₁.same b) (f₂.same b) in
          let s₁ =
            set_indirect-Same A r₂ created_value u₂ b
              (Allocated-other A b f₂ ((f₁.same b).live b v)) in
          let s₂ = set_indirect-Same A r₁ existing_value u₃ b (Allocated-other A b f₁ v) in
          record {
            live = s.live;
            size = s.size;
            node = s₂.node ∙ s₁.node ∙ s.node;
            content = s.content;
          }

      kept : (b : ℕ) → LiveIn A t b → Same A t split_result b
      kept b v = Same-trans A v (p.same b) (step_of b ((p.same b).live b v))

      unused : (b : ℕ) → LiveIn A t b → (b ≢ r₁) × (b ≢ r₂)
      unused b v =
          let v' = (p.same b).live b v in
          (Allocated-other A b f₁ v', Allocated-other A b f₂ ((f₁.same b).live b v'))

      at_r₂ : split_result.indirects r₂ ≡ created_value
      at_r₂ =
          set_at_other u₃.indirects r₁ existing_value r₂ r₁_other
          ∙ set_at_same u₂.indirects r₂ created_value

      at_r₁ : split_result.indirects r₁ ≡ existing_value
      at_r₁ = set_at_same u₃.indirects r₁ existing_value

      existing-NodeAt : NodeAt A split_result (record { node = r₁; entry = e })
      existing-NodeAt = record {
        not_null = f₁.fresh.not_null;
        aligned = f₁.fresh.aligned;
        live = (f₂.same r₁).live r₁ r₁_live;
        offset = ap (λ v. v.key_offset) at_r₁ ∙ ap (λ s. s.key_offset) (slots_kept i) ∙ h.0;
        size = ap (λ v. v.key_size) at_r₁ ∙ ap (λ s. s.key_size) (slots_kept i) ∙ h.1;
        pair = PairAt-Same A (h.2) (kept e.offset (h.2).live);
      }

      created-NodeAt : NodeAt A split_result (record { node = r₂; entry = new })
      created-NodeAt = record {
        not_null = f₂.fresh.not_null;
        aligned = f₂.fresh.aligned;
        live = f₂.fresh.live;
        offset = ap (λ v. v.key_offset) at_r₂;
        size = ap (λ v. v.key_size) at_r₂;
        pair = PairAt-Same A p.pair (step_of new.offset p.pair.live);
      }

      pub split-PutAt : PutAt A t split_result i (direct e) new
      split-PutAt = record {
        contents =
            chained (record { node = r₁; entry = e } ∷ record { node = r₂; entry = new } ∷ []);
        changed = record {
          bits = ap (λ x. x.bits) f₂.rest ∙ ap (λ x. x.bits) f₁.rest ∙ p.bits;
          others = λ j d. set_at_other u₂.slots i link j d ∙ slots_kept j;
          slot = (
            ap (λ s. s.key_offset) (set_at_same u₂.slots i link)
                ∙ tagged_link_lem r₁ f₁.fresh.aligned,
            (
              refl,
              existing-NodeAt,
              (ap (λ v. v.next) at_r₁, created-NodeAt, ap (λ v. v.next) at_r₂),
            ),
          );
          distinct = (
            (
              (λ z. (unused e.offset (h.2).live).0 (sym z)),
              (r₁_other, ((λ z. Allocated-other A new.offset f₁ p.pair.live (sym z)), tt)),
            ),
            (
              ((unused e.offset (h.2).live).1, (p.newer e.offset (h.2).live, tt)),
              (
                (
                  (λ z.
                      Allocated-other A new.offset f₂
                        ((f₁.same new.offset).live new.offset p.pair.live) (sym z)),
                  tt,
                ),
                (tt, tt),
              ),
            ),
          );
          from = (
            inr (λ l. (unused r₁ l).0 refl),
            (
              inl (inl refl),
              (inr (λ l. (unused r₂ l).1 refl), (inr (λ l. p.newer new.offset l refl), tt)),
            ),
          );
          kept = λ b v a. kept b v;
        };
        spells = rw n refl;
      }
