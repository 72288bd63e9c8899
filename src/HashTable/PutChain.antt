-- ===== src/HashTable/PutChain.antt =====
-- A pair put into a slot that holds a chain: the branches of insert behind the walk.
use sharedstructures.Base.{
  ℕ, ◌+◌, ◌%◌, ◌≡◌, ◌≢◌, ◌⊎◌, inl, inr, refl, sym, ap, subst, ◌∙◌, List, [], ◌∷◌, length,
  set_at_same, set_at_other,
}
use sharedstructures.Allocator.{Allocator}
use sharedstructures.HashTable.Memory.{
  Slot, IndirectValue, Table, free_block, set_indirect, set_next, count_item,
}
use sharedstructures.HashTable.Update.{sizeof_indirect, replace_in_chain}
use sharedstructures.HashTable.Contents.{Entry, Link, chained, Chain, SlotHolds}
use sharedstructures.HashTable.Lookup.{locate}
use sharedstructures.HashTable.Frame.{
  Same, Same-trans, PairAt-Same, free_block-Same, set_indirect-Same, Allocated, Allocated-other,
}
use sharedstructures.HashTable.Held.{
  Distinct, Among, Each-map, Each-Among, link_blocks, LiveIn, Chain-LiveIn,
}
use sharedstructures.HashTable.Chains.{
  put, entries, Replaced, Replaced-Becomes, Becomes, locate-Among, locate_apart, Chain-aligned,
}
use sharedstructures.HashTable.Appended.{Appended, Appended-Becomes, last_in-Chain}
use sharedstructures.HashTable.Put.{Paired, PutAt}

module _ (A : Allocator) where
  module _ {t u : Table A.State} {new : Entry} (p : Paired A t u new) (i : ℕ) where
    -- A chain in place of the one that the slot held.
    chain-SlotHolds :
        (w : Table A.State) (s : Slot) (o : ℕ) (ls : List Link)
        → s.key_offset ≡ o + 1
        → o ≢ 0
        → Chain A w o ls
        → SlotHolds A w s (chained ls)
    chain-SlotHolds w s o [] e n c = absurd (n c)
    chain-SlotHolds w s o (l ∷ ls) e n c =
        (e ∙ ap (λ x. x + 1) (c.0), subst (λ x. Chain A w x (l ∷ ls)) (c.0) c)

    module _ (l : Link) (ls : List Link) (h : SlotHolds A t (t.slots i) (chained (l ∷ ls)))
        (d : Distinct (link_blocks (l ∷ ls))) (prev found : ℕ)
        (at : locate new.key 0 (l ∷ ls) ≡ (prev, found)) where
      head_slot : (u.slots i).key_offset ≡ l.node + 1
      head_slot = ap (λ f. (f i).key_offset) p.slots ∙ h.0

      found_in : found ≢ 0 → Among found (link_blocks (l ∷ ls))
      found_in n =
          let e = ap (λ q. q.1) at in
          subst (λ x. Among x (link_blocks (l ∷ ls))) e
            (locate-Among A t t new p.newer new.key 0 l.node (l ∷ ls) (h.1) (λ z. n (sym e ∙ z))).0

      off_in : found ≢ 0 → Among (t.indirects found).key_offset (link_blocks (l ∷ ls))
      off_in n =
          let e = ap (λ q. q.1) at in
          subst (λ x. Among (t.indirects x).key_offset (link_blocks (l ∷ ls))) e
            (locate-Among A t t new p.newer new.key 0 l.node (l ∷ ls) (h.1) (λ z. n (sym e ∙ z))).1

      found_apart : found ≢ 0 → found ≢ (t.indirects found).key_offset
      found_apart n =
          let e = ap (λ q. q.1) at in
          subst (λ x. x ≢ (t.indirects x).key_offset) e
            (locate_apart A t t new p.newer new.key 0 l.node (l ∷ ls) (h.1) d (λ z. n (sym e ∙ z)))

      in_use : (b : ℕ) → Among b (link_blocks (l ∷ ls)) → LiveIn A t b
      in_use b m =
          Each-Among (LiveIn A t) b (link_blocks (l ∷ ls)) (Chain-LiveIn A t l.node (l ∷ ls) (h.1))
            m

      pub replaced-PutAt :
          found ≢ 0
          → PutAt A t
              (replace_in_chain A found new.offset (length new.key) u)
              i
              (chained (l ∷ ls))
              new
      unfolding replace_in_chain
      replaced-PutAt n = record {
        contents = chained b.links;
        changed = record {
          bits = p.bits;
          others = λ j _. ap (λ f. f j) p.slots;
          slot = chain-SlotHolds w (u.slots i) l.node b.links head_slot (h.1.1).not_null b.chain;
          distinct = b.distinct;
          from = Each-map (link_blocks b.links) from b.from;
          kept = λ b v a.
              rep.kept b v (Each-Among (λ x. b ≢ x) found (link_blocks (l ∷ ls)) a (found_in n)) (
                Each-Among (λ x. b ≢ x) (t.indirects found).key_offset (link_blocks (l ∷ ls)) a
                  (off_in n));
        };
        spells = b.spells;
      }
        where
          w : Table A.State
          w = replace_in_chain A found new.offset (length new.key) u

          off : ℕ
          off = (u.indirects found).key_offset

          same_off : off ≡ (t.indirects found).key_offset
          same_off = ap (λ v. v.key_offset) (p.same found).node

          v : IndirectValue
          v = record (u.indirects found) { key_offset = new.offset; key_size = length new.key }

          step_of : (b : ℕ) → b ≢ found → b ≢ (t.indirects found).key_offset → Same A u w b
          step_of b x y =
              let s = free_block-Same A off u b (λ z. y (z ∙ same_off)) in
              let s' = set_indirect-Same A found v (free_block A off u) b x in
              record {
                live = λ z i. s.live z i;
                size = s.size;
                node = s'.node;
                content = λ z i. refl;
              }

          from :
              (b : ℕ)
              → Among b (link_blocks (l ∷ ls)) ⊎ (b ≡ new.offset)
              → Among b (link_blocks (l ∷ ls)) ⊎ ¬ LiveIn A t b
          from b (inl m) = inl m
          from b (inr e) = inr (λ l. p.newer b l e)

          rep : Replaced A t w new p.newer found (t.indirects found).key_offset
          rep = record {
            kept = λ b v x y. Same-trans A v (p.same b) (step_of b x y);
            node = record {
              not_null = n;
              aligned =
                  Each-Among (λ b. b % 8 ≡ 0) found (link_blocks (l ∷ ls))
                    (Chain-aligned A t t new p.newer l.node (l ∷ ls) (h.1)) (found_in n);
              live =
                  (A.free_keeps off (λ z. found_apart n (z ∙ same_off))
                    ((p.same found).live found (in_use found (found_in n)))).0;
              offset = ap (λ v. v.key_offset) (set_at_same u.indirects found v);
              size = ap (λ v. v.key_size) (set_at_same u.indirects found v);
              pair = PairAt-Same A p.pair (
                  step_of new.offset (λ z. p.newer found (in_use found (found_in n)) (sym z))
                    (λ z. p.newer (t.indirects found).key_offset (in_use _ (off_in n)) (sym z)));
            };
            next =
                ap (λ v. v.next) (set_at_same u.indirects found v)
                ∙ ap (λ v. v.next) (p.same found).node;
          }

          b :
              Becomes A t w new p.newer
                (λ x. x ≡ new.offset)
                l.node
                (l ∷ ls)
                (put new (entries (l ∷ ls)))
          b =
              Replaced-Becomes A t w new p.newer found (t.indirects found).key_offset rep 0 l.node
                (l ∷ ls) (h.1) d (ap (λ q. q.1) at) n refl

      pub appended-PutAt :
          {created : ℕ} {u₁ : Table A.State}
          → found ≡ 0
          → Allocated A sizeof_indirect created u u₁
          → PutAt A t
              (count_item (
                set_indirect created
                  (record { next = 0; key_offset = new.offset; key_size = length new.key })
                  (set_next prev created u₁)))
              i
              (chained (l ∷ ls))
              new
      appended-PutAt {created} {u₁} z f = record {
        contents = chained b.links;
        changed = record {
          bits = ap (λ x. x.bits) f.rest ∙ p.bits;
          others = λ j _. slots_kept j;
          slot =
              chain-SlotHolds w (u₁.slots i) l.node b.links
                (ap (λ s. s.key_offset) (slots_kept i) ∙ h.0) (h.1.1).not_null b.chain;
          distinct = b.distinct;
          from = Each-map (link_blocks b.links) from b.from;
          kept =
              λ b v a. app.kept b v (Each-Among (λ x. b ≢ x) prev (link_blocks (l ∷ ls)) a prev_in);
        };
        spells = b.spells;
      }
        where
          node_value : IndirectValue
          node_value = record { next = 0; key_offset = new.offset; key_size = length new.key }

          prev_value : IndirectValue
          prev_value = record (u₁.indirects prev) { next = created }

          w : Table A.State
          w = count_item (set_indirect created node_value (set_next prev created u₁))

          slots_kept : (j : ℕ) → u₁.slots j ≡ t.slots j
          slots_kept j = ap (λ x. x.slots j) f.rest ∙ ap (λ x. x j) p.slots

          prev_in : Among prev (link_blocks (l ∷ ls))
          prev_in =
              subst (λ q. Among (q.0) (link_blocks (l ∷ ls))) at
                (last_in-Chain A t t new p.newer new.key 0 l.node l ls (h.1) (ap (λ q. q.1) at ∙ z))

          unused : (b : ℕ) → LiveIn A t b → b ≢ created
          unused b v = Allocated-other A b f ((p.same b).live b v)

          prev_other : created ≢ prev
          prev_other e = unused prev (in_use prev prev_in) (sym e)

          step_of : (b : ℕ) → b ≢ prev → b ≢ created → Same A u w b
          step_of b x y =
              let s = f.same b in
              let s₁ = set_indirect-Same A prev prev_value u₁ b x in
              let s₂ = set_indirect-Same A created node_value (set_next prev created u₁) b y in
              record {
                live = s.live;
                size = s.size;
                node = s₂.node ∙ s₁.node ∙ s.node;
                content = s.content;
              }

          new_other : new.offset ≢ created
          new_other = Allocated-other A new.offset f p.pair.live

          at_prev : w.indirects prev ≡ prev_value
          at_prev =
              set_at_other (set_next prev created u₁).indirects created node_value prev prev_other
              ∙ set_at_same u₁.indirects prev prev_value

          before : u₁.indirects prev ≡ t.indirects prev
          before = (f.same prev).node ∙ (p.same prev).node

          app : Appended A t w new p.newer prev created
          app = record {
            kept = λ b v x. Same-trans A v (p.same b) (step_of b x (unused b v));
            lives = λ v. (f.same prev).live prev ((p.same prev).live prev v);
            offset = ap (λ v. v.key_offset) at_prev ∙ ap (λ v. v.key_offset) before;
            size = ap (λ v. v.key_size) at_prev ∙ ap (λ v. v.key_size) before;
            next = ap (λ v. v.next) at_prev;
            node = record {
              not_null = f.fresh.not_null;
              aligned = f.fresh.aligned;
              live = f.fresh.live;
              offset =
                  ap (λ v. v.key_offset)
                    (set_at_same (set_next prev created u₁).indirects created node_value);
              size =
                  ap (λ v. v.key_size)
                    (set_at_same (set_next prev created u₁).indirects created node_value);
              pair =
                  PairAt-Same A p.pair (
                    step_of new.offset (λ e. p.newer prev (in_use prev prev_in) (sym e)) new_other);
            };
            end_of =
                ap (λ v. v.next)
                  (set_at_same (set_next prev created u₁).indirects created node_value);
            unused = unused;
            own = λ e. new_other (sym e);
          }

          b :
              Becomes A t w new p.newer
                (λ x. (x ≡ new.offset) ⊎ (x ≡ created))
                l.node
                (l ∷ ls)
                (put new (entries (l ∷ ls)))
          b =
              Appended-Becomes A t w new p.newer prev created app 0 l.node l ls (h.1) d
                (at ∙ ap (λ x. (prev, x)) z)

          from :
              (b : ℕ)
              → Among b (link_blocks (l ∷ ls)) ⊎ (b ≡ new.offset) ⊎ (b ≡ created)
              → Among b (link_blocks (l ∷ ls)) ⊎ ¬ LiveIn A t b
          from b (inl m) = inl m
          from b (inr (inl e)) = inr (λ l. p.newer b l e)
          from b (inr (inr e)) = inr (λ l. unused b l e)
