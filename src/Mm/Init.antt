-- ===== src/Mm/Init.antt =====
-- kernel/mm.c, page_init, zone_init and mm_reserved_init: the page structures and zones at start.
--
-- The memset of a structure writes NULL to its list links. The heap's `none` stays `none`: nothing
-- is mapped there, and the write faults.
pub mod Pages
pub mod Reserved
pub mod Zonelist
pub mod Zones
use quark_os.Base.{
  ℕ, zero, suc, ◌+◌, ◌-◌, ◌*◌, ◌/◌, ◌%◌, ◌^◌, Bool, true, false, ◌&&◌, Option, none, some, ◌==◌,
  ltb, leb, if◌then◌else◌,
}
use quark_os.ListHead.{Heap, store_next, store_prev, init_list_head}
use quark_os.Mm.{
  Layout, Mm, M, pure, ◌>>=◌, ◌>>◌, bug, on_lists, write, lru, area, max_order, bit_of, pg_rvsd,
  is_rvsd, zone_dma, zone_normal, zone_dma_pages,
}

-- `flags |= 1 << bit`
abbrev pub set_bit : (flags bit : ℕ) → ℕ
set_bit flags bit = if bit_of flags bit then flags else flags + 2 ^ bit

abbrev pub set_flags : (page flags : ℕ) → M (Unit {0})
set_flags page flags s = some (tt, record s { flags = write s.flags page flags })

-- `flags |= zone_type << 30`
unfoldable pub page_setzone : (page zone_type : ℕ) → M (Unit {0})
page_setzone page zone_type s =
    let low = if zone_type % 2 == 1 then set_bit (s.flags page) 30 else s.flags page in
    set_flags page (if zone_type / 2 % 2 == 1 then set_bit low 31 else low) s

-- One page more in a zone; an `unsigned long` counts modulo 2 ^ 32.
unfoldable pub inc_free_pages : ℕ → M (Unit {0})
inc_free_pages zone s =
    some (tt, record s { free_pages = write s.free_pages zone ((s.free_pages zone + 1) % 2 ^ 32) })

unfoldable pub inc_spanned_pages : ℕ → M (Unit {0})
inc_spanned_pages zone s = some (
  tt,
  record s { spanned_pages = write s.spanned_pages zone ((s.spanned_pages zone + 1) % 2 ^ 32) },
)

abbrev pub when : Bool → M (Unit {0}) → M (Unit {0})
when true m s = m s
when false m s = some (tt, s)

-- `mem_map`, or the page at ZONE_DMA_SIZE; BUG() for another zone.
unfoldable pub find_zone_mem_map : ℕ → Option ℕ
find_zone_mem_map zone =
    if zone == zone_dma then some 0 else if zone == zone_normal then some zone_dma_pages else none

module _ (l : Layout) where
  -- The body of the loop of page_init.
  unfoldable pub init_one : ℕ → M (Unit {0})
  init_one page s =
      let zone = if ltb page zone_dma_pages then zone_dma else zone_normal in
      let free = if is_rvsd s page then false else true in
      (do
        on_lists (init_list_head (lru l page))
        when free (inc_free_pages zone)
        inc_spanned_pages zone
        page_setzone page zone)
        s

  unfoldable pub page_init : (num start : ℕ) → M (Unit {0})
  page_init zero start = pure tt
  page_init (suc num) start = do init_one start; page_init num (start + 1)

  -- The body of the loop of mm_reserved_init: memset, atmoic_inc and PG_SETRVSD.
  unfoldable pub reserve_one : ℕ → M (Unit {0})
  reserve_one page = do
    on_lists (store_next (lru l page) 0)
    on_lists (store_prev (lru l page) 0)
    (λ s. some (
      tt,
      record s {
        count = write s.count page (0 + 1);
        flags = write s.flags page (set_bit 0 pg_rvsd);
      },
    ))

  unfoldable pub mm_reserved_init : (num start : ℕ) → M (Unit {0})
  mm_reserved_init zero start = pure tt
  mm_reserved_init (suc num) start = do reserve_one start; mm_reserved_init num (start + 1)

  -- The memset of the zone's list heads, over the orders below `left`.
  unfoldable pub clear_areas : (left zone : ℕ) → M (Unit {0})
  clear_areas zero zone = pure tt
  clear_areas (suc left) zone = do
    on_lists (store_next (area l zone left) 0)
    on_lists (store_prev (area l zone left) 0)
    clear_areas left zone

  unfoldable pub clear_zone : ℕ → M (Unit {0})
  clear_zone zone = do
    clear_areas (max_order + 1) zone
    (λ s. some (
      tt,
      record s {
        zone_mem_map = write s.zone_mem_map zone 0;
        nr_free = λ z o. if z == zone then 0 else s.nr_free z o;
        spanned_pages = write s.spanned_pages zone 0;
        free_pages = write s.free_pages zone 0;
      },
    ))

  -- The body of the loop of zone_init; the name of the zone is left out.
  unfoldable pub init_zone : ℕ → M (Unit {0})
  init_zone zone s = elim (find_zone_mem_map zone) [
    | none ↦ bug s
    | some map ↦
        (do
          clear_zone zone
          (λ t. some (tt, record t { zone_mem_map = write t.zone_mem_map zone map })))
          s
  ]

  abbrev pub set_zonelist : (slot : ℕ) → Option ℕ → M (Unit {0})
  set_zonelist slot zone s = some (tt, record s { zonelist = write s.zonelist slot zone })

  -- The loop runs over zones 0 and 1, ZONE_NR being 3.
  unfoldable pub zone_init : M (Unit {0})
  zone_init = do
    init_zone 0
    init_zone 1
    set_zonelist 0 (some zone_normal)
    set_zonelist 1 (some zone_dma)
    set_zonelist 1 none
