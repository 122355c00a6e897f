-- ===== src/Mm/Tests.antt =====
-- Runs of the buddy allocator on a layout of 8192 pages whose one free block, before the first
-- step, is the 2048 pages from 2048 on.
use quark_os.Base.{
  ℕ, ◌+◌, ◌*◌, ◌%◌, ◌^◌, ◌≤◌, ◌<◌, ◌≡◌, refl, true, ◌==◌, Option, none, some, [], ◌∷◌, arith, inl,
  if◌then◌else◌,
}
use quark_os.ListHead.{Heap, list_add, poison1, poison2}
use quark_os.ListHead.Ring.{Ring, SameOutside}
use quark_os.Mm.{
  Layout, Mm, lru, area, max_order, alloc_pages, free_pages, page_find_buddy, write, page_is_buddy,
}
use quark_os.Mm.Lists.{IsLayout, Blocks, HasBlocks, IsHeld, AreDisjoint, lrus}
use quark_os.Mm.Push.{put, pushed, list_add-pushed}
use quark_os.Mm.Cover.{put-AreDisjoint}
use quark_os.Mm.Split.{IsFree, HasSplit, split-HasSplit}
use quark_os.Mm.AllocPages.{Served, Zones, HasNone, alloc_pages_lem}
use quark_os.Mm.Buddy.{other_half, page_find_buddy_lem}
use quark_os.Mm.{page_isfree}
use quark_os.ListHead.{store_next, store_prev}
use quark_os.ListHead.Ring.{IsNode, IsNode-frame}
use quark_os.Mm.Init.{zone_init, init_zone, find_zone_mem_map, clear_zone, clear_areas, page_init}
use quark_os.Mm.Init.Zonelist.{alloc_pages-zone_init}
use quark_os.Mm.Init.Pages.{HasPages, page_init-HasPages}
use quark_os.Mm.Areas.{init_zone_areas}
use quark_os.Mm.Areas.Overrun.{IsFresh, init_zone_areas-overrun}
use quark_os.Mm.Addr.{
  virt_to_page, virt_to_phys, page_address, page_size, virt_to_page-page_address,
}
use quark_os.Mm.Free.{free_pages-put}
use quark_os.Mm.Overlap.{free_pages-overlap}

abbrev layout : Layout
layout = record { mem_map = 4194304 + 4096; zones = 4194304 }

layout-IsLayout : IsLayout layout
layout-IsLayout = record { below = omega arith }

abbrev total : ℕ
total = 8192

-- Every address is an empty list.
abbrev self : ℕ → Option ℕ
self a = some a

abbrev start : Mm
start = record {
  lists = record { next = self; prev = self };
  count = λ page. 0;
  flags = λ page. 0;
  nr_free = λ zone order. 0;
  spanned_pages = λ zone. 4096;
  free_pages = λ zone. 4096;
  zone_mem_map = λ zone. 0;
  zonelist = λ slot. if slot == 0 then some 0 else none;
}

abbrev no_blocks : Blocks
no_blocks zone order = []

self-Ring : (a : ℕ) → 4194304 ≤ a → Ring start.lists a []
self-Ring a h = record { chain = (ground arith, ground arith); distinct = (refl, tt) }

start-IsFree : IsFree layout total start no_blocks
start-IsFree = record {
  has_blocks = record {
    ring = λ z o hz ho. self-Ring (area layout z o) (omega arith);
    counted = λ z o hz ho. refl;
    nodes = λ p hp.
        let r = self-Ring (lru layout p) (omega arith) in
        record { next = ground (arith, r.chain); prev = ground (arith, r.chain) };
  };
  disjoint = record {
    once = λ z o hz ho. tt;
    apart = λ z o p z' o' p' hz ho i. absurd (ground arith);
    within = λ z o p hz ho i. absurd (ground arith);
  };
}

start-IsHeld : IsHeld total no_blocks 2048 2048
start-IsHeld = record { clear = λ z o q hz ho i. absurd (ground arith); within = omega arith }

start-Zones : Zones start.zonelist (λ z. z < 2) 4 0
start-Zones = (omega arith, tt)

free_pages-put_example :
    (t : Mm) × (free_pages layout 2048 11 start ≡ some (tt, t))
    × IsFree layout total t (put no_blocks 0 11 2048)
    × (t.count ≡ write start.count 2048 0)
free_pages-put_example =
    free_pages-put layout start 2048 11 layout-IsLayout (omega arith) start-IsFree (omega arith)
      (omega arith) start-IsHeld (inl refl)

one_pushed :
    (h : Heap) × (list_add (lru layout 2048) (area layout 0 11) start.lists ≡ some (tt, h))
    × HasBlocks layout total (pushed start h 0 11) (put no_blocks 0 11 2048)
    × SameOutside (lru layout 2048 ∷ area layout 0 11 ∷ []) start.lists h
one_pushed =
    list_add-pushed 0 11 2048 layout-IsLayout start-IsFree.has_blocks start-IsFree.disjoint
      (omega arith) (omega arith) (λ z o hz ho. refl) (omega arith) (omega arith)

-- The state with one free block of order 11.
abbrev one_block : Mm
one_block = pushed start one_pushed.0 0 11

abbrev blocks : Blocks
blocks = put no_blocks 0 11 2048

one_block-IsFree : IsFree layout total one_block blocks
one_block-IsFree = record {
  has_blocks = one_pushed.2;
  disjoint = put-AreDisjoint 0 11 2048 start-IsFree.disjoint start-IsHeld;
}

alloc_pages_lem_example :
    Served layout-IsLayout
      (omega arith)
      one_block-IsFree
      3
      (Zones start.zonelist (λ z. HasNone blocks z 3) 4 0)
      (alloc_pages layout 3 one_block)
alloc_pages_lem_example =
    alloc_pages_lem layout-IsLayout (omega arith) one_block-IsFree 3 (omega arith) start-Zones

split-HasSplit_example : HasSplit layout total start no_blocks 11 3 0 2048
split-HasSplit_example =
    split-HasSplit layout-IsLayout (omega arith) 11 3 0 2048 start-IsFree start-IsHeld (omega arith)
      (omega arith) (omega arith)

page_find_buddy_lem_example : page_find_buddy 4104 (4104 % 2 ^ max_order) 3 ≡ other_half 4104 3
page_find_buddy_lem_example = page_find_buddy_lem 4104 3 (omega arith)

-- The 1024 pages from 2048 on have been taken out of their list.
abbrev taken : Mm
taken = record start {
  lists = record {
    next = λ a. if a == lru layout 2048 then some poison1 else self a;
    prev = λ a. if a == lru layout 2048 then some poison2 else self a;
  };
}

taken-Ring : (z o : ℕ) → z < 2 → o ≤ max_order → Ring taken.lists (area layout z o) []
taken-Ring z o hz ho = record { chain = (ground arith, ground arith); distinct = (refl, tt) }

taken-HasBlocks : HasBlocks layout total taken no_blocks
taken-HasBlocks = record {
  ring = taken-Ring;
  counted = λ z o hz ho. refl;
  nodes = λ p hp. record { next = ground arith; prev = ground arith };
}

upper-IsHeld : IsHeld total no_blocks 3072 (2 ^ 10)
upper-IsHeld = record { clear = λ z o q hz ho i. absurd (ground arith); within = omega arith }

upper_pushed :
    (h : Heap) × (list_add (lru layout 3072) (area layout 0 10) taken.lists ≡ some (tt, h))
    × HasBlocks layout total (pushed taken h 0 10) (put no_blocks 0 10 3072)
    × SameOutside (lru layout 3072 ∷ area layout 0 10 ∷ []) taken.lists h
upper_pushed =
    list_add-pushed 0 10 3072 layout-IsLayout taken-HasBlocks start-IsFree.disjoint (omega arith)
      (omega arith) (λ z o hz ho. refl) (omega arith) (omega arith)

-- Its buddy, the 1024 pages from 3072 on, is free.
abbrev half_taken : Mm
half_taken = pushed taken upper_pushed.0 0 10

abbrev upper_half : Blocks
upper_half = put no_blocks 0 10 3072

half_taken-IsFree : IsFree layout total half_taken upper_half
half_taken-IsFree = record {
  has_blocks = upper_pushed.2;
  disjoint = put-AreDisjoint 0 10 3072 start-IsFree.disjoint upper-IsHeld;
}

lower-IsHeld : IsHeld total upper_half 2048 (2 ^ 10)
lower-IsHeld = record { clear = λ z o q hz ho i. ground arith; within = omega arith }

buddy_free : page_is_buddy half_taken (2048 + 2 ^ 10) 10 ≡ true
unfolding page_is_buddy
buddy_free = refl

free_pages-overlap_example :
    (t : Mm) × (free_pages layout 2048 10 half_taken ≡ some (tt, t))
    × (t.lists.prev poison1 ≡ some poison2)
    × (t.lists.next poison2 ≡ some poison1)
    × ((z o : ℕ)
        → z < 2
        → o ≤ max_order
        → Ring t.lists (area layout z o) (lrus layout (put upper_half 0 11 2048 z o)))
    × (t.nr_free 0 10 ≡ 0)
    × ¬ AreDisjoint total (put upper_half 0 11 2048)
free_pages-overlap_example =
    let same = upper_pushed.3 in
    free_pages-overlap layout half_taken 2048 10 layout-IsLayout (omega arith) (omega arith)
      half_taken-IsFree (omega arith) (omega arith) lower-IsHeld (omega arith) refl buddy_free
      (inl refl) (same.next (lru layout 2048) refl) (same.prev (lru layout 2048) refl)
      (IsNode-frame poison1 _ (record { next = refl; prev = refl }) same refl)
      (IsNode-frame poison2 _ (record { next = refl; prev = refl }) same refl)

-- What zone_init makes of the state at start.
zoned : (z : Mm) × (zone_init layout start ≡ some (tt, z))
unfolding zone_init init_zone find_zone_mem_map clear_zone clear_areas store_next store_prev
zoned = (_, refl)

alloc_pages-zone_init_example :
    alloc_pages layout 3 (record start { zonelist = zoned.0.zonelist })
    ≡ some (none, record start { zonelist = zoned.0.zonelist })
alloc_pages-zone_init_example =
    alloc_pages-zone_init layout 3 start zoned.0 (record start { zonelist = zoned.0.zonelist })
      zoned.1 refl λ o ho. refl

start-IsNode : (p : ℕ) → 0 ≤ p → p < 0 + total → IsNode start.lists (lru layout p)
start-IsNode p lo hi = start-IsFree.has_blocks.nodes p (omega arith)

page_init-HasPages_example :
    (t : Mm) × (page_init layout total 0 start ≡ some (tt, t)) × HasPages layout total 0 start t
page_init-HasPages_example =
    page_init-HasPages layout total 0 start start-IsNode (λ p lo hi. omega arith)
      λ z hz. omega arith

-- A zone of the state at start, with another number of pages.
abbrev with_pages : ℕ → Mm
with_pages n = record start { spanned_pages = λ zone. n }

with_pages-IsFresh : (n : ℕ) → 0 < n → n ≤ 4096 → IsFresh layout 0 (with_pages n)
unfolding page_isfree
with_pages-IsFresh n pos le = record {
  zone_in = omega arith;
  some_pages = pos;
  bound = omega arith;
  head =
      let r = self-Ring (area layout 0 max_order) (omega arith) in
      record { next = ground (arith, r.chain); prev = ground (arith, r.chain) };
  nodes = λ j h. start-IsFree.has_blocks.nodes (0 + j) (omega arith);
  free = λ j h. refl;
}

init_zone_areas-overrun_example : init_zone_areas layout 0 (with_pages 4000) ≡ none
init_zone_areas-overrun_example =
    init_zone_areas-overrun layout 0 (with_pages 4000) layout-IsLayout
      (with_pages-IsFresh 4000 (omega arith) (omega arith)) (omega arith)

virt_to_page-page_address_example :
    (virt_to_page (page_address 300 + 5) ≡ some 300)
    × (virt_to_phys (page_address 300) ≡ 300 * page_size)
virt_to_page-page_address_example = virt_to_page-page_address 300 5 (omega arith) (omega arith)
