-- ===== src/Mm/Overlap.antt =====
-- __free_pages of a block whose buddy is free: which list entry the merging deletes.
use quark_os.Base.{
  ℕ, suc, ◌+◌, ◌-◌, ◌/◌, ◌%◌, ◌^◌, ◌≤◌, ◌<◌, ◌≡◌, ◌∙◌, refl, ◌⊎◌, inl, inr, true, some, List, [],
  ◌∷◌, arith, ◌∈◌, ◌∉◌, ◌==◌, length, ◌&&◌, if◌then◌else◌,
}
use native.Mathlib.Nat.{two-pow-succ}
use quark_os.ListHead.{
  list_del, del_between, load_next, load_prev, store_next, store_prev, poison1, poison2, Heap,
  update,
}
use quark_os.ListHead.Ring.{some_of, IsNode, Ring, Ring-frame, SameOutside}
use quark_os.Mm.{
  Layout, Mm, lru, area, max_order, merge, free_pages, page_is_buddy, page_find_buddy, page_zone,
  write, inc_nr_free, dec_nr_free,
}
use quark_os.Mm.Lists.{IsLayout, Blocks, HasBlocks, AreDisjoint, IsHeld, lrus, has-lrus}
use quark_os.Mm.Push.{put, length-blocks, list_add-pushed}
use quark_os.Mm.Cover.{held-fresh, two-pow_pos}
use quark_os.Mm.Split.{IsFree}
use quark_os.Mm.Buddy.{page_find_buddy_lem}
use quark_os.Mm.Free.{IsAlone, merge-alone}

-- The heap once `list_del` has met the two poisons as neighbours.
abbrev unlinked : Heap → (entry : ℕ) → Heap
unlinked h entry = record {
  next = update (update h.next poison2 poison1) entry poison1;
  prev = update (update h.prev poison1 poison2) entry poison2;
}

list_del-poisons :
    (entry : ℕ) (h : Heap)
    → poison2 < entry
    → h.next entry ≡ some poison1
    → h.prev entry ≡ some poison2
    → IsNode h poison1
    → IsNode h poison2
    → list_del entry h ≡ some (tt, unlinked h entry)
unfolding list_del del_between load_next load_prev store_next store_prev
list_del-poisons entry h above n p one two =
    let (before, e) = some_of (h.prev poison1) one.prev in
    let (after, f) = some_of (h.next poison2) two.next in ground (arith, n, p, e, f)

-- An address below the page structures is none of theirs.
low-lrus : (l : Layout) (a : ℕ) (ps : List ℕ) → a < l.mem_map → a ∉ lrus l ps
low-lrus l a [] h = refl
low-lrus l a (p ∷ ps) h = ground (arith, low-lrus l a ps h)

length_pos : (p : ℕ) (ps : List ℕ) → p ∈ ps → 0 < length ps
length_pos p [] i = absurd (cc)
length_pos p (q ∷ ps) i = omega arith

module _ (l : Layout) (s : Mm) (page order : ℕ) where
  abbrev entry : ℕ
  entry = lru l page

  unlinked-same : SameOutside (entry ∷ poison1 ∷ poison2 ∷ []) s.lists (unlinked s.lists entry)
  unlinked-same = record { next = λ a o. ground (arith, o); prev = λ a o. ground (arith, o) }

  unlinked-HasBlocks :
      {total : ℕ} {b : Blocks}
      → IsLayout l
      → poison2 < l.zones
      → HasBlocks l total s b
      → ((z o : ℕ) → z < 2 → o ≤ max_order → page ∉ b z o)
      → HasBlocks l total (record s { lists = unlinked s.lists entry }) b
  unlinked-HasBlocks {total} {b} y above f fresh = record {
    ring = λ z o hz ho.
        Ring-frame (lrus l (b z o)) (entry ∷ poison1 ∷ poison2 ∷ []) (f.ring z o hz ho)
          unlinked-same
          (λ a i. ground (
            arith,
            i,
            y.below,
            fresh z o hz ho,
            has-lrus l page (b z o),
            low-lrus l poison1 (b z o) (omega (arith, y.below)),
            low-lrus l poison2 (b z o) (omega (arith, y.below)),
          ));
    counted = f.counted;
    nodes = λ p hp.
        let n = f.nodes p hp in
        record { next = ground (arith, n.next); prev = ground (arith, n.prev) };
  }

  -- The state once the merging is over.
  abbrev merged : Mm
  merged = record s {
    lists = unlinked s.lists entry;
    nr_free = λ z o.
        if (z == page_zone s page) && (o == order)
        then (s.nr_free z o + (2 ^ 32 - 1)) % 2 ^ 32
        else s.nr_free z o;
  }

  merged-page_is_buddy : (p o : ℕ) → page_is_buddy merged p o ≡ page_is_buddy s p o
  unfolding page_is_buddy
  merged-page_is_buddy p o = refl

  merge-merged :
      order < max_order
      → page / 2 ^ order % 2 ≡ 0
      → page_is_buddy s (page + 2 ^ order) order ≡ true
      → (order + 1 ≡ max_order) ⊎ IsAlone s page (order + 1)
      → list_del entry s.lists ≡ some (tt, unlinked s.lists entry)
      → merge l (max_order - order) order (page_zone s page) page s
        ≡ some ((page, order + 1), merged)
  unfolding merge dec_nr_free
  merge-merged ho lower buddy stop deleted =
      let left = max_order - order - 1 in
      let e : max_order - order ≡ suc left = omega arith in
      let other = page_find_buddy_lem page order ho in
      let at : page_find_buddy page (page % 2 ^ max_order) order ≡ page + 2 ^ order =
        ground (arith, other, lower) in
      let free : page_is_buddy s (page_find_buddy page (page % 2 ^ max_order) order) order ≡ true =
        rw at buddy in
      let still_alone : (left ≡ 0) ⊎ IsAlone merged page (order + 1) = elim stop [
        | inl last ↦ inl (omega arith)
        | inr alone ↦ inr (merged-page_is_buddy _ (order + 1) ∙ alone)
      ] in
      let ends : merge l left (order + 1) (page_zone s page) page merged
          ≡ some ((page, order + 1), merged) =
        merge-alone l left (order + 1) (page_zone s page) page merged still_alone in
      rw e (ground (arith, at, free, deleted, ends, two-pow_pos order))

  -- Freeing the lower half of two buddies, of an order below MAX_ORDER, in the DMA or the normal
  -- zone, that overlaps no free block and has been taken out of its list, so that its links hold
  -- the two poisons, while the upper half is on the free list of its zone and order, not reserved
  -- and with a count of 0, and the block of both has no free buddy, or an order of MAX_ORDER:
  -- where memory is mapped at both poisons, below the zones, __free_pages succeeds, but it has
  -- overwritten the words at the poisons, and beside the block of both, now at the front of the
  -- next order's list, every free list keeps its blocks, the upper half too, so that free blocks
  -- overlap; the count of the upper half's list is one less all the same.
  pub free_pages-overlap :
      {total : ℕ} {b : Blocks}
      → IsLayout l
      → poison2 < l.zones
      → total < 2 ^ 32 - 1
      → IsFree l total s b
      → order < max_order
      → page_zone s page < 2
      → IsHeld total b page (2 ^ order)
      → page / 2 ^ order % 2 ≡ 0
      → (page + 2 ^ order) ∈ b (page_zone s page) order
      → page_is_buddy s (page + 2 ^ order) order ≡ true
      → (order + 1 ≡ max_order) ⊎ IsAlone s page (order + 1)
      → s.lists.next (lru l page) ≡ some poison1
      → s.lists.prev (lru l page) ≡ some poison2
      → IsNode s.lists poison1
      → IsNode s.lists poison2
      → (t : Mm) × (free_pages l page order s ≡ some (tt, t))
        × (t.lists.prev poison1 ≡ some poison2)
        × (t.lists.next poison2 ≡ some poison1)
        × ((z o : ℕ)
            → z < 2
            → o ≤ max_order
            → Ring t.lists (area l z o) (lrus l (put b (page_zone s page) (order + 1) page z o)))
        × (t.nr_free (page_zone s page) order ≡ length (b (page_zone s page) order) - 1)
        × ¬ AreDisjoint total (put b (page_zone s page) (order + 1) page)
  unfolding free_pages inc_nr_free
  free_pages-overlap {total} {b} y above small f ho hz held lower listed buddy stop n p one two =
      let zone = page_zone s page in
      let fresh = held-fresh page (2 ^ order) held (two-pow_pos order) in
      let m : Mm = record s { lists = unlinked s.lists entry } in
      let deleted = list_del-poisons entry s.lists (omega (arith, y.below)) n p one two in
      let (h, runs, pushed_blocks, same) =
        list_add-pushed {l = l} {s = m} zone (order + 1) page y
          (unlinked-HasBlocks y above f.has_blocks fresh) f.disjoint hz (omega arith) fresh
          (omega (arith, held.within, two-pow_pos order)) small in
      let t : Mm = record merged {
        lists = h;
        count = write s.count page 0;
        nr_free = λ z o.
            if (z == zone) && (o == order + 1)
            then (merged.nr_free z o + 1) % 2 ^ 32
            else merged.nr_free z o;
      } in
      let outside : (a : ℕ)
          → a < l.zones
          → a ∉ lru l page ∷ area l zone (order + 1) ∷ lrus l (b zone (order + 1)) =
        λ a low. ground (arith, y.below, low-lrus l a (b zone (order + 1))) in
      let counted = f.has_blocks.counted zone order hz (omega arith) in
      let len = length-blocks zone order f.disjoint hz (omega arith) in
      let merging = merge-merged ho lower buddy stop deleted in
      (
        t,
        ground (arith, merging, runs),
        same.prev poison1 (outside poison1 (omega (arith, above))) ∙ ground (arith, above, y.below),
        same.next poison2 (outside poison2 above) ∙ ground (arith, above, y.below),
        pushed_blocks.ring,
        ground (arith, counted, len, length_pos (page + 2 ^ order) (b zone order) listed),
        λ d. ground (
          arith,
          d.apart zone order (page + 2 ^ order) zone (order + 1) page hz (omega arith)
              (ground arith) hz (omega arith) (ground arith) (ground arith),
          two-pow-succ order,
          two-pow_pos order,
        ),
      )
