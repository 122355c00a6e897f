-- ===== src/Mm/Areas/Overrun.antt =====
-- free_area_init on a zone whose pages are all free and are no whole number of largest blocks.
use quark_os.Base.{
  ℕ, zero, suc, ◌+◌, ◌-◌, ◌*◌, ◌%◌, ◌^◌, ◌≤◌, ◌<◌, ◌≡◌, ◌≢◌, ◌∙◌, refl, true, inl, inr, none, some,
  List, [], ◌∷◌, arith, ltb, Bool-cases, has, ◌∈◌, ◌∉◌,
}
use quark_os.ListHead.Ring.{IsNode, Ring, Ring-IsNode, IsNode-frame}
use quark_os.ListHead.Add.{init_list_head-Ring, list_add-cons}
use quark_os.Mm.{Layout, Mm, lru, area, max_order, page_isfree, inc_nr_free, write2}
use quark_os.Mm.Lists.{IsLayout, lrus, has-lrus, area-lrus}
use quark_os.Mm.Areas.{add_free, fill, init_area, next_order, init_areas, init_zone_areas}

-- The loop of order MAX_ORDER at page `i` of the zone: `ps` are the blocks that are listed.
record IsFilling (l : Layout) (zone pagenum i : ℕ) (s : Mm) (ps : List ℕ) : Type 0 where
  pub ring : Ring s.lists (area l zone max_order) (lrus l ps)
  pub behind : (p : ℕ) → p ∈ ps → p < s.zone_mem_map zone + i
  pub nodes : (j : ℕ) → j < pagenum → IsNode s.lists (lru l (s.zone_mem_map zone + j))
  pub free : (j : ℕ) → j < pagenum → page_isfree s (s.zone_mem_map zone + j) ≡ true

module _ (l : Layout) (y : IsLayout l) (zone pagenum : ℕ) (hz : zone < 2) where
  fresh :
      (i : ℕ) (s : Mm) (ps : List ℕ)
      → IsFilling l zone pagenum i s ps
      → lru l (s.zone_mem_map zone + i) ∉ area l zone max_order ∷ lrus l ps
  fresh i s ps f = elim (Bool-cases (has (s.zone_mem_map zone + i) ps)) [
    | inl j ↦ absurd (omega (arith, f.behind _ j))
    | inr out ↦ ground (
      arith,
      has-lrus l (s.zone_mem_map zone + i) ps,
      area-lrus l zone max_order ((s.zone_mem_map zone + i) ∷ []) y,
    )
  ]

  added :
      (i : ℕ) (s : Mm) (ps : List ℕ)
      → i < pagenum
      → IsFilling l zone pagenum i s ps
      → (t : Mm) × (add_free l i max_order zone s ≡ some (tt, t))
        × IsFilling l zone pagenum (i + 2048) t ((s.zone_mem_map zone + i) ∷ ps)
        × (t.nr_free zone max_order ≡ (s.nr_free zone max_order + 1) % 2 ^ 32)
        × (t.spanned_pages zone ≡ s.spanned_pages zone)
  unfolding add_free inc_nr_free page_isfree
  added i s ps hi f =
      let page = s.zone_mem_map zone + i in
      let (h, runs, p) =
        list_add-cons (lrus l ps) (lru l page) f.ring (f.nodes i hi) (fresh i s ps f) in
      (
        record s {
          lists = h;
          nr_free = write2 s.nr_free zone max_order ((s.nr_free zone max_order + 1) % 2 ^ 32);
        },
        ground (arith, runs, f.free i),
        record {
          ring = p.0;
          behind = λ q j. ground (arith, f.behind q);
          nodes = λ j hj.
              elim (Bool-cases (
                has (lru l (s.zone_mem_map zone + j))
                  (lru l page ∷ area l zone max_order ∷ lrus l ps))) [
                    | inl m ↦ Ring-IsNode _ _ p.0 (ground arith)
                    | inr out ↦ IsNode-frame _ _ (f.nodes j hj) p.1 out
                  ];
          free = f.free;
        },
        ground arith,
        refl,
      )

  filled :
      (left i : ℕ) (s : Mm) (ps : List ℕ)
      → pagenum ≤ i + left
      → pagenum < 2 ^ 31
      → i < pagenum + 2048
      → s.nr_free zone max_order * 2048 ≡ i
      → IsFilling l zone pagenum i s ps
      → (t : Mm) × (fill l left i max_order zone pagenum s ≡ some (tt, t))
        × (pagenum ≤ t.nr_free zone max_order * 2048)
        × (t.nr_free zone max_order * 2048 < pagenum + 2048)
        × (t.spanned_pages zone ≡ s.spanned_pages zone)
  unfolding fill
  filled zero i s ps le small near at f = (s, refl, omega arith, omega arith, refl)
  filled (suc left) i s ps le small near at f = elim (Bool-cases (ltb i pagenum)) [
    | inl more ↦
        let (u, first, g, one, kept) = added i s ps (ground arith) f in
        let (t, rest, lo, hi, also) =
          filled left (i + 2048) u _ (omega arith) small (ground arith) (ground (arith, one)) g in
        (t, ground (arith, first, rest), lo, hi, also ∙ kept)
    | inr stop ↦ (s, ground (arith, stop), ground arith, ground arith, refl)
  ]

  -- The first round of the outer loop: how many pages the largest blocks take.
  first_round :
      (s : Mm)
      → 0 < pagenum
      → pagenum < 2 ^ 31
      → IsNode s.lists (area l zone max_order)
      → ((j : ℕ) → j < pagenum → IsNode s.lists (lru l (s.zone_mem_map zone + j)))
      → ((j : ℕ) → j < pagenum → page_isfree s (s.zone_mem_map zone + j) ≡ true)
      → (t : Mm) × (init_area l max_order zone pagenum s
          ≡ some ((pagenum + (2 ^ 32 - t.nr_free zone max_order * 2048 % 2 ^ 32)) % 2 ^ 32, t))
        × (pagenum ≤ t.nr_free zone max_order * 2048)
        × (t.nr_free zone max_order * 2048 < pagenum + 2048)
        × (t.spanned_pages zone ≡ s.spanned_pages zone)
  unfolding init_area page_isfree
  first_round s pos small n nodes free =
      let (h, runs, p) = init_list_head-Ring (area l zone max_order) n in
      let u : Mm = record s { lists = h; nr_free = write2 s.nr_free zone max_order 0 } in
      let start : IsFilling l zone pagenum 0 u [] = record {
        ring = p.0;
        behind = λ q j. absurd (ground arith);
        nodes = λ j hj.
            IsNode-frame _ _ (nodes j hj) p.1
              (ground (arith, area-lrus l zone max_order ((s.zone_mem_map zone + j) ∷ []) y));
        free = free;
      } in
      let (t, loop, lo, hi, kept) =
        filled pagenum 0 u [] (omega arith) small (omega arith) (ground arith) start in
      (t, ground (arith, runs, loop), lo, hi, kept)

module _ (l : Layout) (zone : ℕ) (s : Mm) where
  -- A zone is given over to free_area_init: its list head and its pages stand in memory, and all
  -- its pages are free.
  pub record IsFresh : Type 0 where
    pub zone_in : zone < 2
    pub some_pages : 0 < s.spanned_pages zone
    pub bound : s.spanned_pages zone < 2 ^ 31
    pub head : IsNode s.lists (area l zone max_order)
    pub nodes :
        (j : ℕ) → j < s.spanned_pages zone → IsNode s.lists (lru l (s.zone_mem_map zone + j))
    pub free : (j : ℕ) → j < s.spanned_pages zone → page_isfree s (s.zone_mem_map zone + j) ≡ true

  -- free_area_init on a zone of at least one and fewer than 2 ^ 31 pages that are all free and
  -- are no multiple of 2 ^ MAX_ORDER does not return: the largest blocks run past the end of the
  -- zone, the number of pages left wraps, and BUG() loops.
  pub init_zone_areas-overrun :
      IsLayout l
      → IsFresh
      → s.spanned_pages zone % 2 ^ max_order ≢ 0
      → init_zone_areas l zone s ≡ none
  unfolding init_zone_areas init_areas next_order
  init_zone_areas-overrun y f odd =
      let (t, runs, lo, hi, kept) =
        first_round l y zone (s.spanned_pages zone) f.zone_in s f.some_pages f.bound f.head f.nodes
          f.free in
      ground (arith, runs, odd)

  -- free_area_init on a zone of at least one and fewer than 2 ^ 31 pages that are all free and
  -- are a multiple of 2 ^ MAX_ORDER succeeds, and the blocks counted for the order MAX_ORDER have
  -- as many pages as the zone.
  pub init_zone_areas-whole :
      IsLayout l
      → IsFresh
      → s.spanned_pages zone % 2 ^ max_order ≡ 0
      → (t : Mm) × (init_zone_areas l zone s ≡ some (tt, t))
        × (t.nr_free zone max_order * 2 ^ max_order ≡ s.spanned_pages zone)
  unfolding init_zone_areas init_areas next_order
  init_zone_areas-whole y f even =
      let (t, runs, lo, hi, kept) =
        first_round l y zone (s.spanned_pages zone) f.zone_in s f.some_pages f.bound f.head f.nodes
          f.free in
      (t, ground (arith, runs), omega arith)
