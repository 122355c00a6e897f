-- ===== src/Mm/Areas/Round.antt =====
-- One round of free_area_init, on a zone whose first pages are reserved and the others free.
use quark_os.Base.{
  ℕ, zero, suc, ◌+◌, ◌-◌, ◌*◌, ◌^◌, ◌≤◌, ◌<◌, ◌≡◌, refl, Bool, true, false, ◌&&◌, ◌⊎◌, inl, inr,
  some, arith, ◌==◌, ltb, Bool-cases,
}
use mathlib.Core.Path.{subst}
use native.Mathlib.Nat.{mul-le-mul_right}
use quark_os.ListHead.{Heap}
use quark_os.Mm.{Layout, Mm, max_order, page_isfree, inc_nr_free}
use quark_os.Mm.Lists.{IsLayout, Blocks, AreDisjoint, IsHeld}
use quark_os.Mm.Listed.{put, relisted, counted_up, HasListed, length-blocks, list_add-HasListed}
use quark_os.Mm.Cover.{
  IsCovered, IsHeld-sub, put-IsHeld, put-AreDisjoint, put-IsCovered, put-IsCovered_new,
  put-IsCovered_inv, held-fresh, two-pow_pos,
}
use quark_os.Mm.Areas.{add_free, fill}

-- The first `reserved` pages of the zone are not free, and the others are.
pub record IsZone (total zone reserved : ℕ) (s : Mm) : Type 0 where
  pub zone_in : zone < 2
  pub taken : (j : ℕ) → j < reserved → page_isfree s (s.zone_mem_map zone + j) ≡ false
  pub free :
      (j : ℕ)
      → reserved ≤ j
      → j < s.spanned_pages zone
      → page_isfree s (s.zone_mem_map zone + j) ≡ true
  pub within : s.zone_mem_map zone + s.spanned_pages zone ≤ total
  pub small : total < 2 ^ 31

-- `q` is the number of blocks of the order `o` that hold the reserved pages, and `t` the number of
-- them that is not given out before the round.
pub record IsRound (zone reserved o q t : ℕ) (s : Mm) : Type 0 where
  pub order_in : o ≤ max_order
  pub above : reserved ≤ q * 2 ^ o
  pub least : q * 2 ^ o < reserved + 2 ^ o
  pub at_most : q ≤ t
  pub in_zone : t * 2 ^ o ≤ s.spanned_pages zone

-- The blocks `b`, when the blocks of the order `o` before the `k`-th are given out, and `b₀` were
-- there before the round.
pub record IsFilled (l : Layout) (total zone o q t k : ℕ) (listed : (zone order : ℕ) → Bool)
    (s : Mm) (b₀ b : Blocks) : Type 0 where
  pub has_listed : HasListed l total listed s b
  pub disjoint : AreDisjoint total b
  pub front : IsHeld total b (s.zone_mem_map zone) (q * 2 ^ o)
  pub rest : IsHeld total b (s.zone_mem_map zone + k * 2 ^ o) (t * 2 ^ o - k * 2 ^ o)
  pub count : s.nr_free zone o ≡ k - q
  pub kept : (i : ℕ) → IsCovered b₀ i → IsCovered b i
  pub covered :
      (i : ℕ)
      → s.zone_mem_map zone + q * 2 ^ o ≤ i
      → i < s.zone_mem_map zone + k * 2 ^ o
      → IsCovered b i
  pub only :
      (i : ℕ)
      → IsCovered b i
      → IsCovered b₀ i
        ⊎ ((s.zone_mem_map zone + q * 2 ^ o ≤ i) × (i < s.zone_mem_map zone + k * 2 ^ o))
  pub others : (z p : ℕ) → ((z == zone) && (p == o)) ≡ false → b z p ≡ b₀ z p

block-step : (k o : ℕ) → suc k * 2 ^ o ≡ k * 2 ^ o + 2 ^ o
block-step k o = omega arith

module _ {l : Layout} (y : IsLayout l) {total zone reserved : ℕ} {s : Mm}
    (f : IsZone total zone reserved s) {o q t : ℕ} (g : IsRound zone reserved o q t s)
    (listed : (zone order : ℕ) → Bool) (b₀ : Blocks) where
  -- The state in the loop.
  abbrev At : (k : ℕ) (h : Heap) (nr_free : (zone order : ℕ) → ℕ) (b : Blocks) → Type 0
  At k h nr_free b = IsFilled l total zone o q t k listed (relisted s h nr_free) b₀ b

  -- A block with a reserved page is passed over.
  skipped :
      (k : ℕ) (h : Heap) (nr_free : (zone order : ℕ) → ℕ) (b : Blocks)
      → k < q
      → At k h nr_free b
      → (add_free l (k * 2 ^ o) o zone (relisted s h nr_free) ≡ some (tt, relisted s h nr_free))
        × At (suc k) h nr_free b
  unfolding add_free page_isfree
  skipped k h nr_free b lt a =
      let le : suc k * 2 ^ o ≤ q * 2 ^ o = mul-le-mul_right (2 ^ o) lt in
      let lo : suc k * 2 ^ o ≤ t * 2 ^ o = mul-le-mul_right (2 ^ o) (omega (arith, g.at_most)) in
      let taken = f.taken (k * 2 ^ o) (omega (arith, block-step k, g.least)) in
      (
        ground (arith, taken),
        record {
          has_listed = a.has_listed;
          disjoint = a.disjoint;
          front = a.front;
          rest =
              IsHeld-sub _ _ _ _ a.rest (omega (arith, block-step k o))
                (omega (arith, block-step k o));
          count = omega (arith, a.count);
          kept = a.kept;
          covered = λ i from to. absurd (omega arith);
          only = λ i c. ground (arith, a.only i c, block-step k o);
          others = a.others;
        },
      )

  -- A block of free pages is listed.
  added :
      (k : ℕ) (h : Heap) (nr_free : (zone order : ℕ) → ℕ) (b : Blocks)
      → listed zone o ≡ true
      → q ≤ k
      → k < t
      → At k h nr_free b
      → (g : Heap) × (add_free l (k * 2 ^ o) o zone (relisted s h nr_free)
          ≡ some (tt, relisted s g (counted_up nr_free zone o)))
        × At (suc k) g (counted_up nr_free zone o) (put b zone o (s.zone_mem_map zone + k * 2 ^ o))
  unfolding add_free page_isfree inc_nr_free
  added k h nr_free b in_list ge lt a =
      let page = s.zone_mem_map zone + k * 2 ^ o in
      let lo : q * 2 ^ o ≤ k * 2 ^ o = mul-le-mul_right (2 ^ o) ge in
      let hi : suc k * 2 ^ o ≤ t * 2 ^ o = mul-le-mul_right (2 ^ o) lt in
      let pos = two-pow_pos o in
      let free =
        f.free (k * 2 ^ o) (omega (arith, g.above)) (omega (arith, block-step k o, g.in_zone)) in
      let held : IsHeld total b page (2 ^ o) =
        IsHeld-sub _ _ _ _ a.rest (omega arith) (omega (arith, block-step k o)) in
      let (i, runs, listed', same) =
        list_add-HasListed zone o y a.has_listed a.disjoint f.zone_in g.order_in page in_list
          (held-fresh page (2 ^ o) held pos) (omega (arith, held.within))
          (omega (arith, f.small)) in
      (
        i,
        ground (arith, free, runs),
        record {
          has_listed = listed';
          disjoint = put-AreDisjoint zone o page a.disjoint held;
          front = put-IsHeld zone o page _ _ a.front (inl (omega arith));
          rest =
              put-IsHeld zone o page _ _
                (IsHeld-sub _ _ _ _ a.rest (omega (arith, block-step k o))
                  (omega (arith, block-step k o)))
                (inr (omega (arith, block-step k o)));
          count = ground (
            arith,
            a.count,
            a.has_listed.counted zone o f.zone_in g.order_in in_list,
            length-blocks zone o a.disjoint f.zone_in g.order_in,
            f.small,
          );
          kept = λ j c. put-IsCovered b zone o page j (a.kept j c);
          covered = λ j from to. elim (Bool-cases (ltb j page)) [
            | inl below ↦ put-IsCovered b zone o page j (a.covered j from (ground arith))
            | inr out ↦
                put-IsCovered_new b zone o page j f.zone_in g.order_in (ground arith)
                  (omega (arith, block-step k o))
          ];
          only = λ j c. elim (put-IsCovered_inv b zone o page j c) [
            | inl old ↦ ground (arith, a.only j old, block-step k o)
            | inr new ↦ inr (omega (arith, new.0), omega (arith, new.1, block-step k o))
          ];
          others = λ z p ne. ground (arith, a.others z p);
        },
      )

  -- The loop, from the `k`-th block on.
  pub fill-IsFilled :
      (left k : ℕ) (h : Heap) (nr_free : (zone order : ℕ) → ℕ) (b : Blocks)
      → listed zone o ≡ true
      → k ≤ t
      → t ≤ k + left
      → At k h nr_free b
      → (g : Heap) × (nr_free' : (zone order : ℕ) → ℕ) × (b' : Blocks) × (fill l left
            (k * 2 ^ o)
            o
            zone
            (t * 2 ^ o)
            (relisted s h nr_free)
          ≡ some (tt, relisted s g nr_free'))
        × At t g nr_free' b'
  unfolding fill
  fill-IsFilled zero k h nr_free b in_list le enough a =
      (h, nr_free, b, refl, subst (λ j. At j h nr_free b) (omega arith) a)
  fill-IsFilled (suc left) k h nr_free b in_list le enough a = elim (Bool-cases (ltb k t)) [
    | inr out ↦
        let e : k ≡ t = ground arith in
        (h, nr_free, b, rw e (ground arith), subst (λ j. At j h nr_free b) e a)
    | inl lt ↦
        let hi : suc k * 2 ^ o ≤ t * 2 ^ o = mul-le-mul_right (2 ^ o) (ground arith) in
        let more : ltb (k * 2 ^ o) (t * 2 ^ o) ≡ true =
          ground (arith, block-step k o, two-pow_pos o) in
        elim (Bool-cases (ltb k q)) [
          | inl before ↦
              let (runs, a') = skipped k h nr_free b (ground arith) a in
              let (g, n, b', rest, z) =
                fill-IsFilled left (suc k) h nr_free b in_list (ground arith) (omega arith) a' in
              (g, n, b', ground (arith, runs, rest, block-step k o), z)
          | inr past ↦
              let (i, runs, a') = added k h nr_free b in_list (ground arith) (ground arith) a in
              let (g, n, b', rest, z) =
                fill-IsFilled left (suc k) i _ _ in_list (ground arith) (omega arith) a' in
              (g, n, b', ground (arith, runs, rest, block-step k o), z)
        ]
  ]
