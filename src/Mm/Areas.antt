-- ===== src/Mm/Areas.antt =====
-- kernel/mm.c, free_area_init: the free lists at start.
pub mod Overrun
pub mod Round
pub mod Prefix
pub mod Sweep
pub mod Start
mod Tests
use quark_os.Base.{
  ℕ, zero, suc, ◌+◌, ◌-◌, ◌*◌, ◌%◌, ◌^◌, Bool, true, false, Option, none, some, ◌==◌, ltb,
  if◌then◌else◌,
}
use quark_os.ListHead.{list_add, init_list_head}
use quark_os.Mm.{
  Layout, Mm, M, pure, ◌>>=◌, ◌>>◌, bug, on_lists, lru, area, max_order, page_isfree, inc_nr_free,
  set_nr_free,
}

module _ (l : Layout) where
  -- The body of the inner loop.
  unfoldable pub add_free : (i order zone : ℕ) → M (Unit {0})
  add_free i order zone s =
      let page = s.zone_mem_map zone + i in
      let add = do on_lists (list_add (lru l page) (area l zone order)); inc_nr_free zone order
      in if page_isfree s page then add s else some (tt, s)

  -- The inner loop, from `i` on. `pagenum` rounds are enough.
  unfoldable pub fill : (left i order zone pagenum : ℕ) → M (Unit {0})
  fill zero i order zone pagenum = pure tt
  fill (suc left) i order zone pagenum =
      let rest = do add_free i order zone; fill left (i + 2 ^ order) order zone pagenum
      in if ltb i pagenum then rest else pure tt

  -- One round of the outer loop; it ends with the pages that are left, modulo 2 ^ 32.
  unfoldable pub init_area : (order zone pagenum : ℕ) → M ℕ
  init_area order zone pagenum = do
    on_lists (init_list_head (area l zone order))
    set_nr_free zone order 0
    fill pagenum 0 order zone pagenum
    (λ s.
        let added = s.nr_free zone order * 2 ^ order % 2 ^ 32 in
        some ((pagenum + (2 ^ 32 - added)) % 2 ^ 32, s))

  -- The end of the outer loop's body: the break, the BUG() or the next order.
  unfoldable pub next_order : (zone left : ℕ) → M (Unit {0}) → M (Unit {0})
  next_order zone left k s =
      if left == 0 then some (tt, s) else if ltb (s.spanned_pages zone) left then bug s else k s

  -- The outer loop, from `order` down.
  unfoldable pub init_areas : (order zone pagenum : ℕ) → M (Unit {0})
  init_areas zero zone pagenum = do left ← init_area 0 zone pagenum; next_order zone left (pure tt)
  init_areas (suc order) zone pagenum = do
    left ← init_area (suc order) zone pagenum
    next_order zone left (init_areas order zone left)

  unfoldable pub init_zone_areas : ℕ → M (Unit {0})
  init_zone_areas zone s = init_areas max_order zone (s.spanned_pages zone) s

  -- The zones 0 and 1.
  unfoldable pub free_area_init : M (Unit {0})
  free_area_init = do init_zone_areas 0; init_zone_areas 1
