-- ===== src/Mm/Init/Zones.antt =====
-- zone_init: the zones it leaves.
use quark_os.Base.{
  ℕ, zero, suc, ◌+◌, ◌≤◌, ◌<◌, ◌≡◌, refl, none, some, arith, Bool-cases, inl, inr, ◌==◌,
  if◌then◌else◌,
}
use quark_os.ListHead.{Heap, store_next, store_prev, update}
use quark_os.ListHead.Ring.{IsNode}
use quark_os.Mm.{Layout, Mm, area, max_order, zone_dma_pages, write}
use quark_os.Mm.Init.{clear_areas, clear_zone, init_zone, find_zone_mem_map, zone_init}

-- Other links, of which none is lost, and those that hold NULL still do.
pub record LinkedOn (s : Mm) (h : Heap) : Type 0 where
  pub kept : (a : ℕ) → IsNode s.lists a → IsNode h a
  pub null : (a : ℕ) → s.lists.next a ≡ some 0 → h.next a ≡ some 0

clear_areas-runs :
    (l : Layout) (left zone : ℕ) (s : Mm)
    → left ≤ max_order + 1
    → ((o : ℕ) → o ≤ max_order → IsNode s.lists (area l zone o))
    → (h : Heap) × (clear_areas l left zone s ≡ some (tt, record s { lists = h }))
      × LinkedOn s h
      × ((o : ℕ) → o < left → h.next (area l zone o) ≡ some 0)
unfolding clear_areas store_next store_prev
clear_areas-runs l zero zone s le heads =
    (s.lists, refl, record { kept = λ a n. n; null = λ a e. e }, λ o lt. absurd (omega arith))
clear_areas-runs l (suc left) zone s le heads =
    let n = heads left (omega arith) in
    let h : Heap = record {
      next = update s.lists.next (area l zone left) 0;
      prev = update s.lists.prev (area l zone left) 0;
    } in
    let same : LinkedOn s h = record {
      kept = λ a m. record { next = ground (arith, m.next); prev = ground (arith, m.prev) };
      null = λ a e. ground (arith, e);
    } in
    let (g, rest, also, below) =
      clear_areas-runs l left zone (record s { lists = h }) (omega arith)
        λ o ho. same.kept (area l zone o) (heads o ho) in
    let here : g.next (area l zone left) ≡ some 0 =
      also.null (area l zone left) (ground (arith, n.next)) in
    (
      g,
      ground (arith, n.next, n.prev, rest),
      record {
        kept = λ a m. also.kept a (same.kept a m);
        null = λ a e. also.null a (same.null a e);
      },
      λ o lt. elim (Bool-cases (o == left)) [
        | inl e ↦ let eq : o ≡ left = ground arith in rw eq here
        | inr ne ↦ below o (ground arith)
      ],
    )

-- The state once the zone is set up, with its pages from `map` on.
abbrev zoned : Mm → Heap → (zone map : ℕ) → Mm
zoned s h zone map = record s {
  lists = h;
  zone_mem_map = write (write s.zone_mem_map zone 0) zone map;
  nr_free = λ z o. if z == zone then 0 else s.nr_free z o;
  spanned_pages = write s.spanned_pages zone 0;
  free_pages = write s.free_pages zone 0;
}

init_zone-runs :
    (l : Layout) (zone map : ℕ) (s : Mm)
    → find_zone_mem_map zone ≡ some map
    → ((o : ℕ) → o ≤ max_order → IsNode s.lists (area l zone o))
    → (h : Heap) × (init_zone l zone s ≡ some (tt, zoned s h zone map))
      × LinkedOn s h
      × ((o : ℕ) → o ≤ max_order → h.next (area l zone o) ≡ some 0)
unfolding init_zone clear_zone
init_zone-runs l zone map s e heads =
    let (h, runs, same, null) = clear_areas-runs l (max_order + 1) zone s (omega arith) heads in
    (h, ground (arith, e, runs), same, λ o ho. null o (omega arith))

-- What zone_init leaves of the state.
pub record HasZones (l : Layout) (s t : Mm) : Type 0 where
  pub dma_map : t.zone_mem_map 0 ≡ 0
  pub normal_map : t.zone_mem_map 1 ≡ zone_dma_pages
  pub spanned : (z : ℕ) → z < 2 → t.spanned_pages z ≡ 0
  pub count : t.count ≡ s.count
  pub flags : t.flags ≡ s.flags
  pub nodes : (a : ℕ) → IsNode s.lists a → IsNode t.lists a
  pub cleared :
      (z o : ℕ) → z < 2 → o ≤ max_order → (t.lists.next (area l z o) ≡ some 0) × (t.nr_free z o ≡ 0)

-- zone_init on zones whose list heads are in memory succeeds: the zone DMA begins at the first page
-- and the zone NORMAL at ZONE_DMA_SIZE, no pages are spanned, the free lists hold NULL and count no
-- block, the counts and flags of the pages stay, and no list head goes out of memory.
pub zone_init-HasZones :
    (l : Layout) (s : Mm)
    → ((z o : ℕ) → z < 2 → o ≤ max_order → IsNode s.lists (area l z o))
    → (t : Mm) × (zone_init l s ≡ some (tt, t)) × HasZones l s t
unfolding zone_init find_zone_mem_map
zone_init-HasZones l s heads =
    let (h, first, same, null₀) =
      init_zone-runs l 0 0 s refl (λ o ho. heads 0 o (omega arith) ho) in
    let u = zoned s h 0 0 in
    let (g, second, also, null₁) =
      init_zone-runs l 1 zone_dma_pages u refl
        (λ o ho. same.kept (area l 1 o) (heads 1 o (omega arith) ho)) in
    let v = zoned u g 1 zone_dma_pages in
    (
      record v { zonelist = write (write (write s.zonelist 0 (some 1)) 1 (some 0)) 1 none },
      ground (arith, first, second),
      record {
        dma_map = refl;
        normal_map = refl;
        spanned = λ z hz. ground arith;
        count = refl;
        flags = refl;
        nodes = λ a n. also.kept a (same.kept a n);
        cleared = λ z o hz ho. elim (Bool-cases (z == 0)) [
          | inl e ↦
              let eq : z ≡ 0 = ground arith in
              (rw eq (also.null (area l 0 o) (null₀ o ho)), ground arith)
          | inr ne ↦ let eq : z ≡ 1 = ground arith in (rw eq (null₁ o ho), ground arith)
        ];
      },
    )
