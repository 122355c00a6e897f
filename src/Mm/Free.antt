-- ===== src/Mm/Free.antt =====
-- __free_pages of a block whose buddy is not free.
use quark_os.Base.{
  ℕ, zero, suc, ◌-◌, ◌%◌, ◌^◌, ◌≤◌, ◌<◌, ◌≡◌, refl, ◌⊎◌, inl, inr, false, some, arith,
}
use quark_os.ListHead.{list_add, Heap}
use quark_os.Mm.{
  Layout, Mm, lru, area, max_order, merge, free_pages, page_is_buddy, page_find_buddy, page_zone,
  write, inc_nr_free,
}
use quark_os.Mm.Lists.{IsLayout, Blocks, IsHeld}
use quark_os.Mm.Push.{put, pushed, list_add-pushed}
use quark_os.Mm.Cover.{put-AreDisjoint, held-fresh, two-pow_pos}
use quark_os.Mm.Split.{IsFree}

-- The buddy of a block is not free, so that the merging ends.
abbrev pub IsAlone : Mm → (page order : ℕ) → Type 0
IsAlone s page order =
    page_is_buddy s (page_find_buddy page (page % 2 ^ max_order) order) order ≡ false

pub merge-alone :
    (l : Layout) (left order zone page : ℕ) (s : Mm)
    → (left ≡ 0) ⊎ IsAlone s page order
    → merge l left order zone page s ≡ some ((page, order), s)
unfolding merge
merge-alone l zero order zone page s stop = ground arith
merge-alone l (suc left) order zone page s (inl e) = absurd (omega arith)
merge-alone l (suc left) order zone page s (inr e) = ground (arith, e)

module _ (l : Layout) (s : Mm) (page order : ℕ) where
  put_back :
      (h : Heap)
      → (order ≡ max_order) ⊎ IsAlone s page order
      → order ≤ max_order
      → list_add (lru l page) (area l (page_zone s page) order) s.lists ≡ some (tt, h)
      → free_pages l page order s
        ≡ some (tt, record (pushed s h (page_zone s page) order) { count = write s.count page 0 })
  unfolding free_pages inc_nr_free
  put_back h alone ho runs =
      ground (arith, runs, merge-alone l (max_order - order) order (page_zone s page) page s)

  -- Freeing a block of an order up to MAX_ORDER that no free block overlaps, in the DMA or the
  -- normal zone, either of order MAX_ORDER or with a buddy that is not free, succeeds: the block
  -- comes in front of the free list of its zone and order, its count becomes 0, no other count
  -- changes, and the free lists stay linked, counted and disjoint.
  pub free_pages-put :
      {total : ℕ} {b : Blocks}
      → IsLayout l
      → total < 2 ^ 32 - 1
      → IsFree l total s b
      → order ≤ max_order
      → page_zone s page < 2
      → IsHeld total b page (2 ^ order)
      → (order ≡ max_order) ⊎ IsAlone s page order
      → (t : Mm) × (free_pages l page order s ≡ some (tt, t))
        × IsFree l total t (put b (page_zone s page) order page)
        × (t.count ≡ write s.count page 0)
  free_pages-put y small f ho hz held alone =
      let zone = page_zone s page in
      let (h, runs, p, w) =
        list_add-pushed zone order page y f.has_blocks f.disjoint hz ho
          (held-fresh page (2 ^ order) held (two-pow_pos order))
          (omega (arith, held.within, two-pow_pos order)) small in
      (
        record (pushed s h zone order) { count = write s.count page 0 },
        put_back h alone ho runs,
        record {
          has_blocks = record { ring = p.ring; counted = p.counted; nodes = p.nodes };
          disjoint = put-AreDisjoint zone order page f.disjoint held;
        },
        refl,
      )
