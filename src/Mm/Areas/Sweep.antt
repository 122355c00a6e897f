-- ===== src/Mm/Areas/Sweep.antt =====
-- free_area_init on a zone whose first pages are reserved: it lists the other pages, each once.
use quark_os.Base.{
  ℕ, zero, suc, ◌+◌, ◌*◌, ◌/◌, ◌%◌, ◌^◌, ◌≤◌, ◌<◌, ◌≡◌, refl, Bool, ◌&&◌, ◌||◌, some, arith, ◌==◌,
}
use native.Mathlib.Nat.{mul-le-mul_right}
use quark_os.ListHead.{Heap}
use quark_os.Mm.{Layout, Mm, M, max_order}
use quark_os.Mm.Lists.{IsLayout, Blocks}
use quark_os.Mm.Listed.{relisted}
use quark_os.Mm.Areas.{next_order, init_areas, init_zone_areas}
use quark_os.Mm.Areas.Round.{IsZone}
use quark_os.Mm.Areas.Prefix.{
  IsBefore, IsSwept, IsRound-of, init_area-IsFilled, IsSwept-last, IsSwept-more, twice, blocks_of,
  with_zone,
}

-- The run succeeds, and the zone is swept.
abbrev pub Sweeps :
    (l : Layout) (total zone reserved pagenum : ℕ) (after : (zone order : ℕ) → Bool)
    (run : M (Unit {0})) (s : Mm) (b : Blocks)
    → Type 0
Sweeps l total zone reserved pagenum after run s b =
    (g : Heap) × (nr_free : (zone order : ℕ) → ℕ) × (b' : Blocks) × (run s
      ≡ some (tt, relisted s g nr_free))
    × IsSwept l total zone reserved pagenum after (relisted s g nr_free) b b'

module _ {l : Layout} (y : IsLayout l) {total zone reserved : ℕ} {s : Mm}
    (f : IsZone total zone reserved s) where
  init_areas-IsSwept :
      (o t : ℕ) (listed : (zone order : ℕ) → Bool) (h : Heap) (nr_free : (zone order : ℕ) → ℕ)
      (b : Blocks)
      → 0 < reserved
      → o ≤ max_order
      → reserved ≤ t * 2 ^ o
      → t * 2 ^ o ≤ s.spanned_pages zone
      → IsBefore l total zone o (t * 2 ^ o) listed (relisted s h nr_free) b
      → Sweeps l total zone reserved
          (t * 2 ^ o)
          (with_zone zone o listed)
          (init_areas l o zone (t * 2 ^ o))
          (relisted s h nr_free)
          b
  unfolding init_areas next_order
  init_areas-IsSwept zero t listed h nr_free b pos ho lo hi a =
      let q = blocks_of reserved 0 in
      let r = IsRound-of y f 0 t ho lo hi in
      let le : q * 2 ^ 0 ≤ t * 2 ^ 0 = mul-le-mul_right (2 ^ 0) r.at_most in
      let (g, n, b', runs, z) = init_area-IsFilled y f 0 q t listed h nr_free b r a in
      let e : q * 2 ^ 0 ≡ reserved = omega (arith, r.above, r.least) in
      (g, n, b', ground (arith, runs), IsSwept-last y f q t listed (relisted s g n) b b' e z)
  init_areas-IsSwept (suc o) t listed h nr_free b pos ho lo hi a =
      let q = blocks_of reserved (suc o) in
      let r = IsRound-of y f (suc o) t ho lo hi in
      let le : q * 2 ^ suc o ≤ t * 2 ^ suc o = mul-le-mul_right (2 ^ suc o) r.at_most in
      let (g, n, b', first, z) = init_area-IsFilled y f (suc o) q t listed h nr_free b r a in
      let listed' : (zone order : ℕ) → Bool = λ k p. ((k == zone) && (p == suc o)) || listed k p in
      let before : IsBefore l total zone o ((q + q) * 2 ^ o) listed' (relisted s g n) b' = record {
        has_listed = z.has_listed;
        disjoint = z.disjoint;
        held = rw (← twice y f q o) z.front;
        none_yet = λ p hp. ground (arith, z.others zone p, a.none_yet p);
      } in
      let (i, m, c, rest, v) =
        init_areas-IsSwept o (q + q) listed' g n b' pos (omega arith)
          (omega (arith, r.above, twice y f q o)) (omega (arith, twice y f q o)) before in
      (
        i,
        m,
        c,
        ground (arith, first, rest, r.above, twice y f q o),
        IsSwept-more y f o q t listed (relisted s g n) (relisted s i m) b b' c refl r.above le z v,
      )

  -- free_area_init on a zone of a multiple of 2 ^ MAX_ORDER pages, among fewer than 2 ^ 31 whose
  -- list heads are in memory, of which the first `reserved`, at least one, are not free and the
  -- others are, and none of which is in a block yet, succeeds. It initialises the lists of all
  -- orders of the zone and lists in them all pages from `reserved` to the end, no page twice, and
  -- no page of the others.
  pub init_zone_areas-IsSwept :
      (listed : (zone order : ℕ) → Bool) (b : Blocks)
      → 0 < reserved
      → reserved ≤ s.spanned_pages zone
      → s.spanned_pages zone % 2 ^ max_order ≡ 0
      → IsBefore l total zone max_order (s.spanned_pages zone) listed s b
      → Sweeps l total zone reserved
          (s.spanned_pages zone)
          (with_zone zone max_order listed)
          (init_zone_areas l zone)
          s
          b
  unfolding init_zone_areas
  init_zone_areas-IsSwept listed b pos le whole a =
      let e : s.spanned_pages zone / 2 ^ max_order * 2 ^ max_order ≡ s.spanned_pages zone =
        omega arith in
      rw e at (
        init_areas-IsSwept max_order (s.spanned_pages zone / 2 ^ max_order) listed s.lists s.nr_free
          b pos (omega arith) (omega arith) (omega arith) (rw e a))

-- The list of the largest blocks of the zone is initialised.
abbrev pub with_largest : (zone : ℕ) → ((zone order : ℕ) → Bool) → (zone order : ℕ) → Bool
with_largest zone listed z p = ((z == zone) && (p == max_order)) || listed z p

-- free_area_init on a zone of a multiple of 2 ^ MAX_ORDER pages that are all free, and none of
-- which is in a block yet, succeeds and lists them all in the list of the largest blocks, no page
-- twice. It initialises that list only.
pub init_zone_areas-largest :
    {l : Layout} {total zone : ℕ} {s : Mm} (listed : (zone order : ℕ) → Bool) (b : Blocks)
    → IsLayout l
    → IsZone total zone 0 s
    → s.spanned_pages zone % 2 ^ max_order ≡ 0
    → IsBefore l total zone max_order (s.spanned_pages zone) listed s b
    → Sweeps l total zone 0
        (s.spanned_pages zone)
        (with_largest zone listed)
        (init_zone_areas l zone)
        s
        b
unfolding init_zone_areas init_areas next_order
init_zone_areas-largest {zone} {s} listed b y f whole a =
    let t = s.spanned_pages zone / 2 ^ max_order in
    let e : t * 2 ^ max_order ≡ s.spanned_pages zone = omega arith in
    let r = IsRound-of y f max_order t (omega arith) (omega arith) (omega arith) in
    let (g, n, b', runs, z) =
      init_area-IsFilled y f max_order 0 t listed s.lists s.nr_free b r (rw e a) in
    (
      g,
      n,
      b',
      ground (arith, rw e at runs),
      record {
        has_listed = z.has_listed;
        disjoint = z.disjoint;
        kept = z.kept;
        covered = λ i from to. z.covered i (omega arith) (omega (arith, e));
        only = λ i c. ground (arith, z.only i c, e);
        others = λ k p ne. ground (arith, z.others k p);
      },
    )
