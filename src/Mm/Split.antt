-- ===== src/Mm/Split.antt =====
-- rmqueue: the halves of a block that go back to the free lists.
use native.Mathlib.Nat.{two-pow-succ, pow-le-pow_right}
use quark_os.Base.{
  ℕ, zero, suc, ◌+◌, ◌-◌, ◌^◌, ◌≤◌, ◌<◌, ◌≡◌, ◌∙◌, refl, true, ◌⊎◌, inl, inr, some, [], ◌∷◌, arith,
  Bool-cases, ltb, ◌∉◌,
}
use quark_os.Mm.{Layout, Mm, lru, area, max_order, split, inc_nr_free}
use quark_os.Mm.Lists.{IsLayout, Blocks, HasBlocks, AreDisjoint, IsHeld, lrus, area-lrus, has-lrus}
use quark_os.Mm.Foreign.{
  SameForeign, SameForeign-refl, SameForeign-trans, SameOutside-SameForeign, IsForeign-lrus,
  blocks-below,
}
use quark_os.Mm.Push.{put, pushed, list_add-pushed}
use quark_os.Mm.Cover.{
  IsCovered, put-AreDisjoint, put-IsHeld, IsHeld-sub, held-fresh, put-IsCovered, put-IsCovered_new,
  put-IsCovered_inv, two-pow_pos,
}

-- Of a state's fields an operation on free lists changes the list heads and the counts alone.
pub record SamePages (s t : Mm) : Type 0 where
  pub count : t.count ≡ s.count
  pub flags : t.flags ≡ s.flags
  pub zonelist : t.zonelist ≡ s.zonelist

-- The list head of a page is not written.
pub record SameHead (l : Layout) (page : ℕ) (s t : Mm) : Type 0 where
  pub next : t.lists.next (lru l page) ≡ s.lists.next (lru l page)
  pub prev : t.lists.prev (lru l page) ≡ s.lists.prev (lru l page)

-- The free blocks of a state.
pub record IsFree (l : Layout) (total : ℕ) (s : Mm) (b : Blocks) : Type 0 where
  pub has_blocks : HasBlocks l total s b
  pub disjoint : AreDisjoint total b

-- From a held block of order `curr` the lower part of order `order` stays held, and the rest is
-- free.
pub record HasSplit (l : Layout) (total : ℕ) (s : Mm) (b : Blocks) (curr order zone page : ℕ)
    : Type 0 where
  pub out : Mm
  pub blocks : Blocks
  pub runs : split l curr order zone page s ≡ some (tt, out)
  pub free : IsFree l total out blocks
  pub held : IsHeld total blocks page (2 ^ order)
  pub same : SamePages s out
  pub head : SameHead l page s out
  pub foreign : SameForeign l total s.lists out.lists
  pub kept : (i : ℕ) → IsCovered b i → IsCovered blocks i
  pub freed : (i : ℕ) → page + 2 ^ order ≤ i → i < page + 2 ^ curr → IsCovered blocks i
  pub only :
      (i : ℕ)
      → IsCovered blocks i
      → IsCovered b i ⊎ ((page + 2 ^ order ≤ i) × (i < page + 2 ^ curr))

-- Nothing is left to split.
HasSplit-same :
    {l : Layout} {total : ℕ} {s : Mm} {b : Blocks} (curr order zone page : ℕ)
    → IsFree l total s b
    → IsHeld total b page (2 ^ curr)
    → order ≡ curr
    → split l curr order zone page s ≡ some (tt, s)
    → HasSplit l total s b curr order zone page
HasSplit-same {l} {total} {s} {b} curr order zone page f h e ran = record {
  out = s;
  blocks = b;
  runs = ran;
  free = f;
  held = rw e h;
  same = record { count = refl; flags = refl; zonelist = refl };
  head = record { next = refl; prev = refl };
  foreign = SameForeign-refl l total s.lists;
  kept = λ i c. c;
  freed = λ i lo hi. absurd (ground arith);
  only = λ i c. inl c;
}

module _ {l : Layout} {total : ℕ} (y : IsLayout l) (small : total < 2 ^ 32 - 1) where
  -- What the upper half of a held block becomes.
  module _ {s : Mm} {b : Blocks} (curr zone page : ℕ) (f : IsFree l total s b)
      (h : IsHeld total b page (2 ^ suc curr)) (hz : zone < 2) (hc : suc curr ≤ max_order) where
    upper : IsHeld total b (page + 2 ^ curr) (2 ^ curr)
    upper =
        IsHeld-sub page (2 ^ suc curr) (page + 2 ^ curr) (2 ^ curr) h (omega arith)
          (omega (arith, two-pow-succ curr))

    lower : IsHeld total (put b zone curr (page + 2 ^ curr)) page (2 ^ curr)
    lower =
        put-IsHeld zone curr (page + 2 ^ curr) page (2 ^ curr)
          (IsHeld-sub page (2 ^ suc curr) page (2 ^ curr) h (omega arith)
            (omega (arith, two-pow-succ curr)))
          (inl (omega arith))

    untouched : lru l page ∉ lru l (page + 2 ^ curr) ∷ area l zone curr ∷ lrus l (b zone curr)
    untouched = ground (
      arith,
      two-pow_pos curr,
      area-lrus l zone curr (page ∷ []) y,
      has-lrus l page (b zone curr),
      held-fresh page (2 ^ suc curr) h (two-pow_pos (suc curr)) zone curr,
    )

    split_once :
        (t : Mm) × (IsFree l total t (put b zone curr (page + 2 ^ curr)))
        × SamePages s t
        × SameHead l page s t
        × SameForeign l total s.lists t.lists
        × ((order : ℕ)
            → ltb order (suc curr) ≡ true
            → split l (suc curr) order zone page s ≡ split l curr order zone page t)
    unfolding split inc_nr_free
    split_once =
        let buddy = page + 2 ^ curr in
        let (g, runs, p, w) =
          list_add-pushed zone curr buddy y f.has_blocks f.disjoint hz (omega arith)
            (held-fresh buddy (2 ^ curr) upper (two-pow_pos curr))
            (omega (arith, upper.within, two-pow_pos curr)) small in
        (
          pushed s g zone curr,
          record { has_blocks = p; disjoint = put-AreDisjoint zone curr buddy f.disjoint upper },
          record { count = refl; flags = refl; zonelist = refl },
          (let apart = untouched in record { next = w.next _ apart; prev = w.prev _ apart }),
          SameOutside-SameForeign _ w λ a i. ground (
            arith,
            i.no_page buddy (omega (arith, upper.within, two-pow_pos curr)),
            i.no_area zone curr,
            IsForeign-lrus a (b zone curr) i
                (blocks-below total b zone curr f.disjoint hz (omega arith)),
          ),
          λ order more. ground (arith, runs),
        )

  -- Splitting a block of order curr that no free block overlaps down to order, order <= curr <=
  -- MAX_ORDER, in the DMA or the normal zone of a state whose free lists are linked, counted and
  -- disjoint, succeeds: the free lists stay so, the lower 2 ^ order pages stay out of them, the
  -- pages above those up to 2 ^ curr become free, no other page does, free pages stay free, and
  -- neither the other fields of the pages nor the links of the first page change.
  pub split-HasSplit :
      (curr order zone page : ℕ) {s : Mm} {b : Blocks}
      → IsFree l total s b
      → IsHeld total b page (2 ^ curr)
      → zone < 2
      → order ≤ curr
      → curr ≤ max_order
      → HasSplit l total s b curr order zone page
  unfolding split
  split-HasSplit zero order zone page {s} {b} f h hz ho hc =
      HasSplit-same zero order zone page f h (omega arith) refl
  split-HasSplit (suc curr) order zone page {s} {b} f h hz ho hc =
      elim (Bool-cases (ltb order (suc curr))) [
        | inl more ↦
            let buddy = page + 2 ^ curr in
            let (t, free, same, head, foreign, step) = split_once curr zone page f h hz hc in
            let u =
              split-HasSplit curr order zone page free (lower curr zone page f h hz hc) hz
                (ground arith) (omega arith) in
            record {
              out = u.out;
              blocks = u.blocks;
              runs = step order more ∙ u.runs;
              free = u.free;
              held = u.held;
              same = record {
                count = u.same.count ∙ same.count;
                flags = u.same.flags ∙ same.flags;
                zonelist = u.same.zonelist ∙ same.zonelist;
              };
              head = record { next = u.head.next ∙ head.next; prev = u.head.prev ∙ head.prev };
              foreign = SameForeign-trans _ _ _ foreign u.foreign;
              kept = λ i c. u.kept i (put-IsCovered b zone curr buddy i c);
              freed = λ i lo hi. elim (Bool-cases (ltb i buddy)) [
                | inl low ↦ u.freed i lo (ground arith)
                | inr high ↦ u.kept i (
                    put-IsCovered_new b zone curr buddy i hz (omega arith) (ground arith)
                      (omega (arith, two-pow-succ curr)))
              ];
              only = λ i c. elim (u.only i c) [
                | inl d ↦ elim (put-IsCovered_inv b zone curr buddy i d) [
                  | inl old ↦ inl old
                  | inr (lo, hi) ↦ inr (
                    omega (
                      arith,
                      pow-le-pow_right {n = 2} (omega arith) {i = order} {j = curr} (ground arith),
                    ),
                    omega (arith, two-pow-succ curr),
                  )
                ]
                | inr (lo, hi) ↦ inr (lo, omega (arith, two-pow-succ curr))
              ];
            }
        | inr stop ↦ HasSplit-same (suc curr) order zone page f h (ground arith) (ground arith)
      ]
