-- ===== src/Mm/Areas/Prefix.antt =====
-- The rounds of free_area_init on a zone whose first pages are reserved, one after the other.
use quark_os.Base.{
  ℕ, suc, ◌+◌, ◌-◌, ◌*◌, ◌/◌, ◌%◌, ◌^◌, ◌≤◌, ◌<◌, ◌≡◌, ◌∙◌, refl, Bool, false, ◌&&◌, ◌||◌, ◌⊎◌, inl,
  inr, some, [], arith, ◌==◌, ltb, leb, Bool-cases,
}
use mathlib.Core.Path.{sym, ap}
use native.Mathlib.Nat.{
  add-mul, sub-add_cancel, two-pow-succ, mul-le-mul_right, lt_of_mul-lt-mul_right,
  le-mul_of_pos_right, div-add-mod', mod-lt,
}
use quark_os.ListHead.{Heap}
use quark_os.Mm.{Layout, Mm, max_order, write2}
use quark_os.Mm.Lists.{IsLayout, Blocks, AreDisjoint, IsHeld}
use quark_os.Mm.Listed.{relisted, HasListed, init_list_head-HasListed}
use quark_os.Mm.Cover.{IsCovered, IsHeld-sub, two-pow_pos}
use quark_os.Mm.Areas.{init_area}
use quark_os.Mm.Areas.Round.{IsZone, IsRound, IsFilled, fill-IsFilled}

-- The pages of the zone before `pagenum` are not given out yet, nor are blocks of the orders up to
-- `o`.
pub record IsBefore (l : Layout) (total zone o pagenum : ℕ) (listed : (zone order : ℕ) → Bool)
    (s : Mm) (b : Blocks) : Type 0 where
  pub has_listed : HasListed l total listed s b
  pub disjoint : AreDisjoint total b
  pub held : IsHeld total b (s.zone_mem_map zone) pagenum
  pub none_yet : (p : ℕ) → p ≤ o → b zone p ≡ []

-- The lists of the zone up to the order `o` are initialised.
abbrev pub with_zone : (zone o : ℕ) → ((zone order : ℕ) → Bool) → (zone order : ℕ) → Bool
with_zone zone o listed z p = ((z == zone) && leb p o) || listed z p

-- The pages of the zone from `reserved` to `pagenum` are given out, each once, and no others.
-- The lists `after` are initialised.
pub record IsSwept (l : Layout) (total zone reserved pagenum : ℕ) (after : (zone order : ℕ) → Bool)
    (s : Mm) (b₀ b : Blocks) : Type 0 where
  pub has_listed : HasListed l total after s b
  pub disjoint : AreDisjoint total b
  pub kept : (i : ℕ) → IsCovered b₀ i → IsCovered b i
  pub covered :
      (i : ℕ)
      → s.zone_mem_map zone + reserved ≤ i
      → i < s.zone_mem_map zone + pagenum
      → IsCovered b i
  pub only :
      (i : ℕ)
      → IsCovered b i
      → IsCovered b₀ i
        ⊎ ((s.zone_mem_map zone + reserved ≤ i) × (i < s.zone_mem_map zone + pagenum))
  pub others : (z p : ℕ) → (z == zone) ≡ false → b z p ≡ b₀ z p

pub HasListed-same :
    {l : Layout} {total : ℕ} {listed : (zone order : ℕ) → Bool} {s : Mm} {b : Blocks}
    (same : (zone order : ℕ) → Bool)
    → HasListed l total listed s b
    → ((z o : ℕ) → same z o ≡ listed z o)
    → HasListed l total same s b
HasListed-same same f sub = record {
  ring = λ z o hz ho i. f.ring z o hz ho (sym (sub z o) ∙ i);
  counted = λ z o hz ho i. f.counted z o hz ho (sym (sub z o) ∙ i);
  nodes = f.nodes;
  heads = f.heads;
  cleared = λ z o hz ho out. f.cleared z o hz ho (sym (sub z o) ∙ out);
}

-- What is left once `t - q` blocks are taken off `t` of them.
left_over :
    (q t o : ℕ)
    → q ≤ t
    → t * 2 ^ o < 2 ^ 32
    → (t * 2 ^ o + (2 ^ 32 - (t - q) * 2 ^ o % 2 ^ 32)) % 2 ^ 32 ≡ q * 2 ^ o
left_over q t o le small =
    let e : (t - q) * 2 ^ o + q * 2 ^ o ≡ t * 2 ^ o =
      sym (add-mul (t - q) q (2 ^ o)) ∙ ap (λ k. k * 2 ^ o) (sub-add_cancel le) in
    omega (arith, e)

-- The number of blocks of the order `o` that hold the first `reserved` pages.
abbrev pub blocks_of : (reserved o : ℕ) → ℕ
blocks_of reserved o = (reserved + (2 ^ o - 1)) / 2 ^ o

module _ {l : Layout} (y : IsLayout l) {total zone reserved : ℕ} {s : Mm}
    (f : IsZone total zone reserved s) where
  pub IsRound-of :
      (o t : ℕ)
      → o ≤ max_order
      → reserved ≤ t * 2 ^ o
      → t * 2 ^ o ≤ s.spanned_pages zone
      → IsRound zone reserved o (blocks_of reserved o) t s
  IsRound-of o t ho le hi =
      let pos = two-pow_pos o in
      let e = div-add-mod' (reserved + (2 ^ o - 1)) (2 ^ o) in
      let lt = mod-lt (reserved + (2 ^ o - 1)) pos in
      let q = blocks_of reserved o in
      let least : q * 2 ^ o < reserved + 2 ^ o = omega (arith, e) in
      record {
        order_in = ho;
        above = omega (arith, e, lt);
        least = least;
        at_most =
            let below : q * 2 ^ o < (t + 1) * 2 ^ o = omega (arith, least) in
            omega (arith, lt_of_mul-lt-mul_right (2 ^ o) below);
        in_zone = hi;
      }

  -- The state once the heaps and the counts are changed.
  abbrev pub Before :
      (o pagenum : ℕ) (listed : (zone order : ℕ) → Bool) (h : Heap) (nr_free : (zone order : ℕ) → ℕ)
      (b : Blocks)
      → Type 0
  Before o pagenum listed h nr_free b =
      IsBefore l total zone o pagenum listed (relisted s h nr_free) b

  -- A round of the outer loop leaves the pages before the first block without a reserved page.
  pub init_area-IsFilled :
      (o q t : ℕ) (listed : (zone order : ℕ) → Bool) (h : Heap) (nr_free : (zone order : ℕ) → ℕ)
      (b : Blocks)
      → IsRound zone reserved o q t s
      → Before o (t * 2 ^ o) listed h nr_free b
      → (g : Heap) × (nr_free' : (zone order : ℕ) → ℕ) × (b' : Blocks) × (init_area l o zone
            (t * 2 ^ o)
            (relisted s h nr_free)
          ≡ some (q * 2 ^ o, relisted s g nr_free'))
        × IsFilled l total zone o q t t
            (λ z p. ((z == zone) && (p == o)) || listed z p)
            (relisted s g nr_free')
            b
            b'
  unfolding init_area
  init_area-IsFilled o q t listed h nr_free b r a =
      let (i, first, has_listed) =
        init_list_head-HasListed zone o y a.has_listed a.disjoint f.zone_in r.order_in
          (a.none_yet o (omega arith)) in
      let le : q * 2 ^ o ≤ t * 2 ^ o = mul-le-mul_right (2 ^ o) r.at_most in
      let cleared = write2 nr_free zone o 0 in
      let listed' : (zone order : ℕ) → Bool = λ z p. ((z == zone) && (p == o)) || listed z p in
      let start : IsFilled l total zone o q t 0 listed' (relisted s i cleared) b b = record {
        has_listed = has_listed;
        disjoint = a.disjoint;
        front = IsHeld-sub _ _ _ _ a.held (omega arith) (omega arith);
        rest = IsHeld-sub _ _ _ _ a.held (omega arith) (omega arith);
        count = ground arith;
        kept = λ j c. c;
        covered = λ j from to. absurd (omega arith);
        only = λ j c. inl c;
        others = λ z p ne. refl;
      } in
      let (g, nr_free', b', loop, z) =
        fill-IsFilled y f r listed' b (t * 2 ^ o) 0 i cleared b (ground arith) (omega arith)
          (omega (arith, le-mul_of_pos_right t (two-pow_pos o))) start in
      let less = left_over q t o r.at_most (omega (arith, r.in_zone, f.within, f.small)) in
      (g, nr_free', b', ground (arith, first, loop, z.count, less), z)

  pub twice : (q o : ℕ) → q * 2 ^ suc o ≡ (q + q) * 2 ^ o
  twice q o = ap (λ k. q * k) (two-pow-succ o) ∙ omega arith

  -- What a round leaves, and what the rounds after it sweep.
  pub IsSwept-last :
      (q t : ℕ) (listed : (zone order : ℕ) → Bool) (u : Mm) (b b' : Blocks)
      → q * 2 ^ 0 ≡ reserved
      → IsFilled l total zone 0 q t t (λ z p. ((z == zone) && (p == 0)) || listed z p) u b b'
      → IsSwept l total zone reserved (t * 2 ^ 0) (with_zone zone 0 listed) u b b'
  IsSwept-last q t listed u b b' e z = record {
    has_listed = HasListed-same _ z.has_listed λ k p. ground arith;
    disjoint = z.disjoint;
    kept = z.kept;
    covered = λ i from to. z.covered i (omega (arith, e)) to;
    only = λ i c. ground (arith, z.only i c);
    others = λ k p ne. ground (arith, z.others k p);
  }

  pub IsSwept-more :
      (o q t : ℕ) (listed : (zone order : ℕ) → Bool) (u w : Mm) (b b' c : Blocks)
      → w.zone_mem_map ≡ u.zone_mem_map
      → reserved ≤ q * 2 ^ suc o
      → q * 2 ^ suc o ≤ t * 2 ^ suc o
      → IsFilled l total zone
          (suc o)
          q
          t
          t
          (λ z p. ((z == zone) && (p == suc o)) || listed z p)
          u
          b
          b'
      → IsSwept l total zone reserved
          ((q + q) * 2 ^ o)
          (with_zone zone o (λ z p. ((z == zone) && (p == suc o)) || listed z p))
          w
          b'
          c
      → IsSwept l total zone reserved (t * 2 ^ suc o) (with_zone zone (suc o) listed) w b c
  IsSwept-more o q t listed u w b b' c same above at_most z v =
      let m : w.zone_mem_map zone ≡ u.zone_mem_map zone = ap (λ g. g zone) same in
      record {
        has_listed = HasListed-same _ v.has_listed λ k p. ground arith;
        disjoint = v.disjoint;
        kept = λ i k. v.kept i (z.kept i k);
        covered = λ i from to. elim (Bool-cases (ltb i (w.zone_mem_map zone + q * 2 ^ suc o))) [
          | inl lt ↦ v.covered i from (ground (arith, twice q o))
          | inr ge ↦ v.kept i (z.covered i (ground (arith, m)) (omega (arith, m)))
        ];
        only = λ i k. elim (v.only i k) [
          | inr new ↦ inr (new.0, omega (arith, new.1, twice q o, at_most))
          | inl old ↦ elim (z.only i old) [
            | inl older ↦ inl older
            | inr new ↦ inr (omega (arith, new.0, m, above), omega (arith, new.1, m))
          ]
        ];
        others = λ k p ne. v.others k p ne ∙ ground (arith, z.others k p);
      }
