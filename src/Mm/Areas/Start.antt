-- ===== src/Mm/Areas/Start.antt =====
-- free_area_init on both zones: the kernel's image and tables are reserved in the zone DMA, and the
-- zone NORMAL is free.
use quark_os.Base.{
  ℕ, ◌+◌, ◌-◌, ◌%◌, ◌^◌, ◌≤◌, ◌<◌, ◌≡◌, refl, ap, Bool, true, false, ◌⊎◌, inl, inr, some, [], arith,
  ltb, Bool-cases,
}
use quark_os.ListHead.Ring.{IsNode}
use quark_os.Mm.{Layout, Mm, lru, area, max_order, page_isfree, zone_dma, zone_normal}
use quark_os.Mm.Lists.{IsLayout, Blocks, AreDisjoint, IsHeld}
use quark_os.Mm.Listed.{HasListed, relisted}
use quark_os.Mm.Cover.{IsCovered, two-pow_pos}
use quark_os.Mm.Areas.{free_area_init}
use quark_os.Mm.Areas.Round.{IsZone}
use quark_os.Mm.Areas.Prefix.{IsBefore, IsSwept, with_zone}
use quark_os.Mm.Areas.Sweep.{init_zone_areas-IsSwept, init_zone_areas-largest, with_largest}

-- The pages are set up, and no free list is. The first `reserved` pages are not free.
pub record IsStart (l : Layout) (total reserved : ℕ) (s : Mm) : Type 0 where
  pub dma : IsZone total zone_dma reserved s
  pub normal : IsZone total zone_normal 0 s
  pub some_reserved : 0 < reserved
  pub reserved_in : reserved ≤ s.spanned_pages zone_dma
  pub whole_dma : s.spanned_pages zone_dma % 2 ^ max_order ≡ 0
  pub whole_normal : s.spanned_pages zone_normal % 2 ^ max_order ≡ 0
  pub after : s.zone_mem_map zone_dma + s.spanned_pages zone_dma ≤ s.zone_mem_map zone_normal
  pub nodes : (p : ℕ) → p < total → IsNode s.lists (lru l p)
  pub heads : (z o : ℕ) → z < 2 → o ≤ max_order → IsNode s.lists (area l z o)
  pub cleared :
      (z o : ℕ) → z < 2 → o ≤ max_order → (s.lists.next (area l z o) ≡ some 0) × (s.nr_free z o ≡ 0)

abbrev pub no_blocks : Blocks
no_blocks z o = []

abbrev pub none_listed : (zone order : ℕ) → Bool
none_listed z o = false

-- The page is one of the zone.
abbrev pub InZone : Mm → (zone i : ℕ) → Type 0
InZone s zone i = (s.zone_mem_map zone ≤ i) × (i < s.zone_mem_map zone + s.spanned_pages zone)

-- The lists that free_area_init initialises.
abbrev pub at_start : (zone order : ℕ) → Bool
at_start = with_largest zone_normal (with_zone zone_dma max_order none_listed)

-- Blocks that cover no page from `p` on leave it held.
IsHeld_beyond :
    {total : ℕ} {b : Blocks} (p n : ℕ)
    → ((i : ℕ) → IsCovered b i → i < p)
    → p + n ≤ total
    → IsHeld total b p n
IsHeld_beyond p n below within = record {
  clear = λ z o q hz ho i.
      let pos = two-pow_pos o in
      let last = below (q + 2 ^ o - 1) (record {
        zone = z;
        order = o;
        page = q;
        zone_in = hz;
        order_in = ho;
        listed = i;
        from = omega arith;
        to = omega arith;
      }) in
      inr (omega arith);
  within = within;
}

module _ {l : Layout} {total reserved : ℕ} {s : Mm} (f : IsStart l total reserved s) where
  -- A zone before any list is initialised.
  pub empty-IsBefore :
      (zone : ℕ)
      → s.zone_mem_map zone + s.spanned_pages zone ≤ total
      → IsBefore l total zone max_order (s.spanned_pages zone) none_listed s no_blocks
  empty-IsBefore zone within = record {
    has_listed = record {
      ring = λ z o hz ho i. absurd (ground arith);
      counted = λ z o hz ho i. absurd (ground arith);
      nodes = f.nodes;
      heads = f.heads;
      cleared =
          λ z o hz ho out. let (null, none_free) = f.cleared z o hz ho in (null, none_free, refl);
    };
    disjoint = record {
      once = λ z o hz ho. tt;
      apart = λ z o p z' o' p' hz ho i. absurd (ground arith);
      within = λ z o p hz ho i. absurd (ground arith);
    };
    held = record { clear = λ z o q hz ho i. absurd (ground arith); within = within };
    none_yet = λ p hp. refl;
  }

  not-IsCovered : (i : ℕ) → ¬ IsCovered no_blocks i
  not-IsCovered i c = absurd (ground (arith, c.listed))

  module _ (u : Mm) (same : (u.zone_mem_map ≡ s.zone_mem_map) × (u.spanned_pages ≡ s.spanned_pages))
      (b : Blocks)
      (v : IsSwept l total zone_dma reserved
        (s.spanned_pages zone_dma)
        (with_zone zone_dma max_order none_listed)
        u
        no_blocks
        b) where
    start_of : (zone : ℕ) → u.zone_mem_map zone ≡ s.zone_mem_map zone
    start_of zone = ap (λ g. g zone) same.0

    pages_of : (zone : ℕ) → u.spanned_pages zone ≡ s.spanned_pages zone
    pages_of zone = ap (λ g. g zone) same.1

    in_dma :
        (i : ℕ)
        → IsCovered b i
        → (s.zone_mem_map zone_dma + reserved ≤ i)
          × (i < s.zone_mem_map zone_dma + s.spanned_pages zone_dma)
    in_dma i c = elim (v.only i c) [
      | inl old ↦ absurd (not-IsCovered i old)
      | inr new ↦ (omega (arith, new.0, start_of zone_dma), omega (arith, new.1, start_of zone_dma))
    ]

    second-IsBefore :
        IsBefore l total zone_normal max_order
          (u.spanned_pages zone_normal)
          (with_zone zone_dma max_order none_listed)
          u
          b
    second-IsBefore = record {
      has_listed = v.has_listed;
      disjoint = v.disjoint;
      held =
          IsHeld_beyond _ _ (λ i c. omega (arith, in_dma i c, f.after, start_of zone_normal))
            (omega (arith, f.normal.within, start_of zone_normal, pages_of zone_normal));
      none_yet = λ p hp. v.others zone_normal p refl;
    }

  -- The pages that are covered in the end are free, and the free ones of the zones are covered.
  module _ (u t : Mm) (b b' : Blocks)
      (same : (u.zone_mem_map ≡ s.zone_mem_map) × (u.spanned_pages ≡ s.spanned_pages))
      (same' : t.zone_mem_map ≡ s.zone_mem_map)
      (v : IsSwept l total zone_dma reserved
        (s.spanned_pages zone_dma)
        (with_zone zone_dma max_order none_listed)
        u
        no_blocks
        b)
      (w : IsSwept l total zone_normal 0 (s.spanned_pages zone_normal) at_start t b b') where
    at_page :
        (zone i : ℕ) → s.zone_mem_map zone ≤ i → s.zone_mem_map zone + (i - s.zone_mem_map zone) ≡ i
    at_page zone i le = omega arith

    now_at : (zone : ℕ) → t.zone_mem_map zone ≡ s.zone_mem_map zone
    now_at zone = ap (λ g. g zone) same'

    IsCovered-free : (i : ℕ) → IsCovered b' i → page_isfree s i ≡ true
    IsCovered-free i c = elim (w.only i c) [
      | inl old ↦
          let (lo, hi) = in_dma u same b v i old in
          let e = at_page zone_dma i (omega arith) in
          rw e at (f.dma.free (i - s.zone_mem_map zone_dma) (omega arith) (omega arith))
      | inr new ↦
          let m = now_at zone_normal in
          let e = at_page zone_normal i (omega (arith, new.0)) in
          rw e at (
            f.normal.free (i - s.zone_mem_map zone_normal) (omega arith)
              (omega (arith, new.0, new.1)))
    ]

    free-IsCovered :
        (i : ℕ)
        → InZone s zone_dma i ⊎ InZone s zone_normal i
        → page_isfree s i ≡ true
        → IsCovered b' i
    free-IsCovered i (inr (lo, hi)) e =
        let m = now_at zone_normal in w.covered i (omega arith) (omega arith)
    free-IsCovered i (inl (lo, hi)) e =
        let m = start_of u same b v zone_dma in
        elim (Bool-cases (ltb (i - s.zone_mem_map zone_dma) reserved)) [
          | inl taken ↦ absurd (
              ground (
                arith,
                f.dma.taken (i - s.zone_mem_map zone_dma),
                at_page zone_dma i lo,
                ap (page_isfree s) (at_page zone_dma i lo),
              ))
          | inr out ↦ w.kept i (v.covered i (ground arith) (omega arith))
        ]

  -- free_area_init on a zone DMA whose first pages, at least one, are not free and whose others
  -- are, followed by a zone NORMAL of free pages, both of a multiple of 2 ^ MAX_ORDER pages,
  -- succeeds. The lists it initialises, all of the zone DMA and the one of the largest blocks of
  -- the zone NORMAL, are rings of blocks that do not overlap, each list with its count. A page
  -- of the zones is in a block exactly if it is free.
  pub free_area_init-IsCovered :
      IsLayout l
      → (t : Mm) × (b : Blocks) × (free_area_init l s ≡ some (tt, t))
        × HasListed l total at_start t b
        × AreDisjoint total b
        × ((i : ℕ) → IsCovered b i → page_isfree s i ≡ true)
        × ((i : ℕ)
            → InZone s zone_dma i ⊎ InZone s zone_normal i
            → page_isfree s i ≡ true
            → IsCovered b i)
  unfolding free_area_init page_isfree
  free_area_init-IsCovered y =
      let (g, n, b, first, v) =
        init_zone_areas-IsSwept y f.dma none_listed no_blocks f.some_reserved f.reserved_in
          f.whole_dma (empty-IsBefore zone_dma f.dma.within) in
      let u = relisted s g n in
      let normal : IsZone total zone_normal 0 u = record {
        zone_in = f.normal.zone_in;
        taken = f.normal.taken;
        free = f.normal.free;
        within = f.normal.within;
        small = f.normal.small;
      } in
      let (h, m, b', second, w) =
        init_zone_areas-largest (with_zone zone_dma max_order none_listed) b y normal f.whole_normal
          (second-IsBefore u (refl, refl) b v) in
      let t = relisted s h m in
      (
        t,
        b',
        ground (arith, first, second),
        w.has_listed,
        w.disjoint,
        IsCovered-free u t b b' (refl, refl) refl v w,
        free-IsCovered u t b b' (refl, refl) refl v w,
      )
