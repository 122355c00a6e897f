-- ===== src/Mm/Setup/Covered.antt =====
-- mm_init up to free_area_init: the free blocks are the pages behind the page structures.
use quark_os.Base.{
  ℕ, ◌+◌, ◌-◌, ◌*◌, ◌/◌, ◌%◌, ◌^◌, ◌≤◌, ◌<◌, ◌≡◌, ◌∙◌, ap, ◌⊎◌, inl, inr, some, arith, ltb, leb,
  Bool-cases,
}
use quark_os.ListHead.Ring.{IsNode, Ring-IsNode}
use quark_os.Mm.{Mm, lru, area, max_order, page_isfree, zone_dma, zone_normal, zone_dma_pages}
use quark_os.Mm.Addr.{page_offset, page_size, page_align, page_align_lem, virt_to_page}
use quark_os.Mm.Lists.{IsLayout, Blocks, AreDisjoint}
use quark_os.Mm.Listed.{HasListed}
use quark_os.Mm.Cover.{IsCovered}
use quark_os.Mm.Init.Reserved.{HasReserved, mm_reserved_init-HasReserved}
use quark_os.Mm.Init.Zones.{HasZones, zone_init-HasZones}
use quark_os.Mm.Init.Pages.{HasPages, page_init-HasPages}
use quark_os.Mm.Areas.Start.{IsStart, InZone, at_start, free_area_init-IsCovered}
use quark_os.Mm.Setup.{
  pgdir_size, sizeof_page, mem_map_start, free_mem_start, layout_of, init_pages,
}

-- The machine that mm_init finds: whole largest blocks of memory, at least ZONE_DMA_SIZE, which
-- holds the kernel, its tables and the page structures, cleared memory for the structures, and the
-- zones below the page directory.
pub record IsMachine (pg zones pages : ℕ) (s : Mm) : Type 0 where
  pub kernel : page_offset ≤ pg
  pub zones_below : zones + 164 * 3 ≤ pg
  pub at_least : zone_dma_pages ≤ pages
  pub whole : pages % 2 ^ max_order ≡ 0
  pub room : pg + 24 * pages + 3 * page_size ≤ page_offset + zone_dma_pages * page_size
  pub nodes : (p : ℕ) → p < pages → IsNode s.lists (lru (layout_of pg zones pages) p)
  pub heads :
      (z o : ℕ) → z < 2 → o ≤ max_order → IsNode s.lists (area (layout_of pg zones pages) z o)
  pub counts : (p : ℕ) → p < pages → s.count p ≡ 0
  pub flags : (p : ℕ) → p < pages → s.flags p ≡ 0

module _ {pg zones pages : ℕ} {s : Mm} (m : IsMachine pg zones pages s) where
  mem_map-bounds :
      (pg + pgdir_size + pages * 4 ≤ mem_map_start pg pages)
      × (mem_map_start pg pages < pg + pgdir_size + pages * 4 + page_size)
  unfolding mem_map_start
  mem_map-bounds =
      let a = pg + pgdir_size + pages * 4 in
      let e : (pg + pgdir_size + pages * 4 % 2 ^ 32) % 2 ^ 32 ≡ a = omega (arith, m.room) in
      let (whole, lo, hi) = page_align_lem a (omega (arith, m.room)) in
      (omega (arith, ap page_align e), omega (arith, ap page_align e))

  machine-IsLayout : IsLayout (layout_of pg zones pages)
  unfolding layout_of
  machine-IsLayout = record { below = omega (arith, m.zones_below, mem_map-bounds) }

  free_mem-bounds :
      (free_mem_start pg pages % page_size ≡ 0)
      × (page_offset + page_size ≤ free_mem_start pg pages)
      × (free_mem_start pg pages ≤ page_offset + zone_dma_pages * page_size)
  unfolding free_mem_start
  free_mem-bounds =
      let b = mem_map-bounds in
      let a = mem_map_start pg pages + pages * sizeof_page in
      let e : a % 2 ^ 32 ≡ a = omega (arith, m.room) in
      let (whole, lo, hi) = page_align_lem a (omega (arith, m.room)) in
      (
        omega (arith, ap page_align e),
        omega (arith, ap page_align e, m.kernel),
        omega (arith, ap page_align e, m.room),
      )

  -- The page behind the page structures.
  abbrev pub first_free : ℕ
  first_free = (free_mem_start pg pages - page_offset) / page_size

  first_free-bounds :
      (virt_to_page (free_mem_start pg pages) ≡ some first_free)
      × (free_mem_start pg pages ≡ page_offset + first_free * page_size)
      × (0 < first_free)
      × (first_free ≤ zone_dma_pages)
  unfolding virt_to_page
  first_free-bounds =
      let (whole, lo, hi) = free_mem-bounds in (ground arith, omega arith, omega arith, omega arith)

  module _ (u v w : Mm) (r : HasReserved first_free 0 s u)
      (z : HasZones (layout_of pg zones pages) u v)
      (i : HasPages (layout_of pg zones pages) pages 0 v w) where
    page_isfree-end : (p : ℕ) → p < pages → page_isfree w p ≡ leb first_free p
    unfolding page_isfree
    page_isfree-end p hp =
        let count = ap (λ (f : ℕ → ℕ). f p) (i.count ∙ z.count) in
        let flags = ap (λ (f : ℕ → ℕ). f p) z.flags in
        ground (arith, i.rvsd p, count, flags, r.count p, r.flags p, m.counts p, m.flags p)

    spanned-end :
        (w.spanned_pages 0 ≡ zone_dma_pages) × (w.spanned_pages 1 ≡ pages - zone_dma_pages)
    spanned-end = (
      omega (arith, i.spanned 0, z.spanned 0 (omega arith), m.at_least),
      omega (arith, i.spanned 1, z.spanned 1 (omega arith), m.at_least),
    )

    maps-end : (w.zone_mem_map 0 ≡ 0) × (w.zone_mem_map 1 ≡ zone_dma_pages)
    maps-end = (
      ap (λ (f : ℕ → ℕ). f 0) i.zone_map ∙ z.dma_map,
      ap (λ (f : ℕ → ℕ). f 1) i.zone_map ∙ z.normal_map,
    )

    page_init-IsStart :
        ((a : ℕ) → IsNode s.lists a → IsNode u.lists a)
        → IsStart (layout_of pg zones pages) pages first_free w
    page_init-IsStart kept =
        let (known, at, pos, le) = first_free-bounds in
        let (n₀, n₁) = spanned-end in
        let (m₀, m₁) = maps-end in
        let least = m.at_least in
        record {
          dma = record {
            zone_in = omega arith;
            taken = λ j hj. rw m₀ (ground (arith, page_isfree-end j));
            free = λ j lo hi. rw m₀ (ground (arith, page_isfree-end j));
            within = omega arith;
            small = omega (arith, m.room);
          };
          normal = record {
            zone_in = omega arith;
            taken = λ j hj. absurd (omega arith);
            free = λ j lo hi. rw m₁ (ground (arith, page_isfree-end (zone_dma_pages + j)));
            within = omega arith;
            small = omega (arith, m.room);
          };
          some_reserved = pos;
          reserved_in = omega arith;
          whole_dma = omega arith;
          whole_normal = omega (arith, m.whole);
          after = omega arith;
          nodes = λ p hp.
              Ring-IsNode _ (lru (layout_of pg zones pages) p)
                (i.ring p (omega arith) (omega arith)) (ground arith);
          heads = λ k o hk ho. i.nodes _ (z.nodes _ (kept _ (m.heads k o hk ho)));
          cleared = λ k o hk ho.
              let (null, none_free) = z.cleared k o hk ho in
              let below = machine-IsLayout.below in
              (
                i.outside _ (λ p lo hi. ground arith) ∙ null,
                ap (λ (f : ℕ → ℕ → ℕ). f k o) i.nr_free ∙ none_free,
              );
        }

  -- On a machine with a whole number of largest blocks, at least ZONE_DMA_SIZE of memory, of
  -- which the kernel, its tables and the page structures take less, with the page directory above
  -- __PAGE_OFFSET and behind the zones, and with mapped and cleared memory for the structures,
  -- mm_init succeeds up to free_area_init. It leaves free lists that are rings of blocks without
  -- overlap, each with its count: all those of the zone DMA and the one of the largest blocks of
  -- the zone NORMAL; the other lists of that zone still hold NULL. The pages in the blocks are
  -- those from free_mem_start to the end of the memory.
  pub init_pages-IsCovered :
      (t : Mm) × (b : Blocks) × (init_pages pg zones pages s ≡ some (tt, t))
      × HasListed (layout_of pg zones pages) pages at_start t b
      × AreDisjoint pages b
      × ((i : ℕ)
          → IsCovered b i
          → (i < pages) × (free_mem_start pg pages ≤ page_offset + i * page_size))
      × ((i : ℕ)
          → i < pages
          → free_mem_start pg pages ≤ page_offset + i * page_size
          → IsCovered b i)
  unfolding init_pages
  init_pages-IsCovered =
      let l = layout_of pg zones pages in
      let (known, at, pos, le) = first_free-bounds in
      let least = m.at_least in
      let (u, one, r, taken, kept) =
        mm_reserved_init-HasReserved l first_free 0 s λ p lo hi. m.nodes p (omega arith) in
      let (v, two, z) = zone_init-HasZones l u λ k o hk ho. kept _ (m.heads k o hk ho) in
      let (w, three, i) =
        page_init-HasPages l pages 0 v (λ p lo hi. z.nodes _ (kept _ (m.nodes p (omega arith))))
          (λ p lo hi.
            let flags = ap (λ (f : ℕ → ℕ). f p) z.flags in
            ground (arith, flags, r.flags p, m.flags p))
          (λ k hk. omega (arith, z.spanned k hk, m.room)) in
      let (t, b, four, has_listed, disjoint, free, covers) =
        free_area_init-IsCovered (page_init-IsStart u v w r z i kept) machine-IsLayout in
      let (m₀, m₁) = maps-end u v w r z i in
      let (n₀, n₁) = spanned-end u v w r z i in
      let in_zones : (j : ℕ) → j < pages → InZone w zone_dma j ⊎ InZone w zone_normal j = λ j hj.
        elim (Bool-cases (ltb j zone_dma_pages)) [
          | inl low ↦ inl (omega arith, ground arith)
          | inr high ↦ inr (ground arith, omega arith)
        ] in
      (
        t,
        b,
        ground (arith, known, one, two, three, four),
        has_listed,
        disjoint,
        (λ j c.
            let hj : j < pages =
              omega (
                arith,
                disjoint.within c.zone c.order c.page c.zone_in c.order_in c.listed,
                c.to,
              ) in
            (hj, ground (arith, free j c, page_isfree-end u v w r z i j))),
        λ j hj from. covers j (in_zones j hj) (ground (arith, page_isfree-end u v w r z i j)),
      )
