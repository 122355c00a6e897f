-- ===== src/Mm/Init/Pages.antt =====
-- page_init: the list heads, zones and counters it leaves.
use quark_os.Base.{
  ℕ, zero, suc, ◌+◌, ◌-◌, ◌%◌, ◌^◌, ◌≤◌, ◌<◌, ◌≡◌, ◌∙◌, refl, false, inl, inr, some, [], ◌∷◌, arith,
  ◌==◌, ltb, if◌then◌else◌, Bool-cases,
}
use Prim.Native.Nat.{min}
use quark_os.ListHead.{Heap, init_list_head}
use quark_os.ListHead.Ring.{IsNode, Ring, Ring-IsNode, SameOutside, IsNode-frame}
use quark_os.ListHead.Add.{init_list_head-Ring}
use quark_os.Mm.{Layout, Mm, lru, write, is_rvsd, page_zone, zone_dma, zone_normal, zone_dma_pages}
use quark_os.Mm.Init.{init_one, page_init, page_setzone, inc_free_pages, inc_spanned_pages, set_bit}

-- The zone that a page lies in.
abbrev pub zone_of : ℕ → ℕ
zone_of page = if ltb page zone_dma_pages then zone_dma else zone_normal

-- The state after the body of the loop at one page.
record HasInit (l : Layout) (page : ℕ) (s t : Mm) : Type 0 where
  pub ring : Ring t.lists (lru l page) []
  pub same : SameOutside (lru l page ∷ []) s.lists t.lists
  pub zone : page_zone t page ≡ zone_of page
  pub rvsd : is_rvsd t page ≡ is_rvsd s page
  pub flags : (p : ℕ) → (p == page) ≡ false → t.flags p ≡ s.flags p
  pub count : t.count ≡ s.count
  pub nr_free : t.nr_free ≡ s.nr_free
  pub zone_map : t.zone_mem_map ≡ s.zone_mem_map
  pub zonelist : t.zonelist ≡ s.zonelist
  pub spanned :
      (z : ℕ)
      → t.spanned_pages z
        ≡ (if z == zone_of page then (s.spanned_pages z + 1) % 2 ^ 32 else s.spanned_pages z)
  pub freed :
      (z : ℕ)
      → t.free_pages z ≡ (
          if z == zone_of page
          then (if is_rvsd s page then s.free_pages z else (s.free_pages z + 1) % 2 ^ 32)
          else s.free_pages z)

abbrev initialised : Mm → Heap → ℕ → Mm
initialised s h page = record s {
  lists = h;
  flags =
      write s.flags page
        (if ltb page zone_dma_pages then s.flags page else set_bit (s.flags page) 30);
  free_pages =
      if is_rvsd s page
      then s.free_pages
      else write s.free_pages (zone_of page) ((s.free_pages (zone_of page) + 1) % 2 ^ 32);
  spanned_pages =
      write s.spanned_pages (zone_of page) ((s.spanned_pages (zone_of page) + 1) % 2 ^ 32);
}

init_one-runs :
    (l : Layout) (page : ℕ) (s : Mm) (h : Heap)
    → init_list_head (lru l page) s.lists ≡ some (tt, h)
    → init_one l page s ≡ some (tt, initialised s h page)
unfolding init_one page_setzone inc_free_pages inc_spanned_pages
init_one-runs l page s h runs = elim (Bool-cases (is_rvsd s page)) [
  | inl e ↦ elim (Bool-cases (ltb page zone_dma_pages)) [
    | inl low ↦ ground (arith, runs)
    | inr high ↦ ground (arith, runs)
  ]
  | inr ne ↦ elim (Bool-cases (ltb page zone_dma_pages)) [
    | inl low ↦ ground (arith, runs)
    | inr high ↦ ground (arith, runs)
  ]
]

init_one-HasInit :
    (l : Layout) (page : ℕ) (s : Mm)
    → IsNode s.lists (lru l page)
    → s.flags page < 2 ^ 30
    → (t : Mm) × (init_one l page s ≡ some (tt, t)) × HasInit l page s t
init_one-HasInit l page s n small =
    let (h, runs, p) = init_list_head-Ring (lru l page) n in
    (
      initialised s h page,
      init_one-runs l page s h runs,
      record {
        ring = p.0;
        same = p.1;
        zone = ground arith;
        rvsd = ground arith;
        flags = λ q ne. ground arith;
        count = refl;
        nr_free = refl;
        zone_map = refl;
        zonelist = refl;
        spanned = λ z. ground arith;
        freed = λ z. ground arith;
      },
    )

-- List heads in memory stay so.
IsNode-init_one :
    (l : Layout) (page : ℕ) (s t : Mm)
    → HasInit l page s t
    → (a : ℕ) → IsNode s.lists a
    → IsNode t.lists a
IsNode-init_one l page s t i a n = elim (Bool-cases (a == lru l page)) [
  | inl e ↦ Ring-IsNode [] a i.ring (ground arith)
  | inr out ↦ IsNode-frame a _ n i.same (ground arith)
]

-- How many of `num` pages from `start` on lie in a zone.
abbrev pub pages_in : (zone num start : ℕ) → ℕ
pages_in zone num start =
    if zone == zone_dma
    then min (start + num) zone_dma_pages - min start zone_dma_pages
    else if zone == zone_normal
    then num - (min (start + num) zone_dma_pages - min start zone_dma_pages)
    else 0

-- The state after the loop over `num` pages from `start` on.
pub record HasPages (l : Layout) (num start : ℕ) (s t : Mm) : Type 0 where
  pub ring : (p : ℕ) → start ≤ p → p < start + num → Ring t.lists (lru l p) []
  pub zone : (p : ℕ) → start ≤ p → p < start + num → page_zone t p ≡ zone_of p
  pub rvsd : (p : ℕ) → is_rvsd t p ≡ is_rvsd s p
  pub below : (p : ℕ) → p < start → t.flags p ≡ s.flags p
  pub next : (p : ℕ) → p < start → t.lists.next (lru l p) ≡ s.lists.next (lru l p)
  pub prev : (p : ℕ) → p < start → t.lists.prev (lru l p) ≡ s.lists.prev (lru l p)
  pub count : t.count ≡ s.count
  pub nodes : (a : ℕ) → IsNode s.lists a → IsNode t.lists a
  pub nr_free : t.nr_free ≡ s.nr_free
  pub outside :
      (a : ℕ)
      → ((p : ℕ) → start ≤ p → p < start + num → (a == lru l p) ≡ false)
      → t.lists.next a ≡ s.lists.next a
  pub zone_map : t.zone_mem_map ≡ s.zone_mem_map
  pub zonelist : t.zonelist ≡ s.zonelist
  pub spanned : (z : ℕ) → t.spanned_pages z ≡ s.spanned_pages z + pages_in z num start

-- page_init over num pages from start on, whose list heads are in memory and whose flags are
-- below 2 ^ 30, with room in the spanned_pages counters, succeeds: each of these pages becomes an
-- empty list, page_zone of it is the DMA zone below ZONE_DMA_SIZE and the normal zone above, the
-- reserved bits and the counts of all pages stay, the flags and links of the pages below start
-- stay, spanned_pages of each zone grows by the number of the pages that lie in it, list heads in
-- memory stay there, and nr_free, zone_mem_map, the zonelist and the forward links of all other
-- list heads stay.
pub page_init-HasPages :
    (l : Layout) (num start : ℕ) (s : Mm)
    → ((p : ℕ) → start ≤ p → p < start + num → IsNode s.lists (lru l p))
    → ((p : ℕ) → start ≤ p → p < start + num → s.flags p < 2 ^ 30)
    → ((z : ℕ) → z < 2 → s.spanned_pages z + num < 2 ^ 32)
    → (t : Mm) × (page_init l num start s ≡ some (tt, t)) × HasPages l num start s t
unfolding page_init
page_init-HasPages l zero start s nodes small room = (
  s,
  refl,
  record {
    ring = λ p lo hi. absurd (omega arith);
    zone = λ p lo hi. absurd (omega arith);
    rvsd = λ p. refl;
    below = λ p h. refl;
    next = λ p h. refl;
    prev = λ p h. refl;
    count = refl;
    nodes = λ a n. n;
    nr_free = refl;
    outside = λ a out. refl;
    zone_map = refl;
    zonelist = refl;
    spanned = λ z. ground arith;
  },
)
page_init-HasPages l (suc num) start s nodes small room =
    let (u, first, i) =
      init_one-HasInit l start s (nodes start (omega arith) (omega arith))
        (small start (omega arith) (omega arith)) in
    let (t, rest, r) =
      page_init-HasPages l num (start + 1) u
        (λ p lo hi.
          IsNode-frame (lru l p) _ (nodes p (omega arith) (omega arith)) i.same (ground arith))
        (λ p lo hi. ground (arith, i.flags p, small p))
        (λ z hz. ground (arith, i.spanned z, room z)) in
    (
      t,
      ground (arith, first, rest),
      record {
        ring = λ p lo hi. elim (Bool-cases (p == start)) [
          | inl e ↦
              let eq : p ≡ start = ground arith in
              let head : Ring t.lists (lru l start) [] = record {
                chain = (
                  r.next start (omega arith) ∙ i.ring.chain.0,
                  r.prev start (omega arith) ∙ i.ring.chain.1,
                );
                distinct = i.ring.distinct;
              } in
              rw eq head
          | inr ne ↦ r.ring p (ground arith) (omega arith)
        ];
        zone = λ p lo hi. elim (Bool-cases (p == start)) [
          | inl e ↦ ground (arith, r.below p, i.zone)
          | inr ne ↦ r.zone p (ground arith) (omega arith)
        ];
        rvsd = λ p. elim (Bool-cases (p == start)) [
          | inl e ↦ ground (arith, r.rvsd p, i.rvsd)
          | inr ne ↦ ground (arith, r.rvsd p, i.flags p)
        ];
        below = λ p h. ground (arith, r.below p, i.flags p);
        next = λ p h. ground (arith, r.next p, i.same.next (lru l p));
        prev = λ p h. ground (arith, r.prev p, i.same.prev (lru l p));
        count = r.count ∙ i.count;
        nodes = λ a n. r.nodes a (IsNode-init_one l start s u i a n);
        nr_free = r.nr_free ∙ i.nr_free;
        outside = λ a out.
            r.outside a (λ p lo hi. out p (omega arith) (omega arith))
            ∙ i.same.next a (ground (arith, out start));
        zone_map = r.zone_map ∙ i.zone_map;
        zonelist = r.zonelist ∙ i.zonelist;
        spanned = λ z. ground (arith, r.spanned z, i.spanned z, room z);
      },
    )
