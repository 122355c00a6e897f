-- ===== src/Mm/Alloc.antt =====
-- rmqueue and alloc_pages.
use native.Mathlib.Nat.{pow-le-pow_right}
use quark_os.Base.{
  ℕ, zero, suc, ◌+◌, ◌-◌, ◌^◌, ◌≤◌, ◌<◌, ◌≡◌, ◌∙◌, ◌≢◌, refl, ◌⊎◌, inl, inr, Option, none, some,
  List, [], ◌∷◌, arith, Bool-cases, ◌==◌, ltb, length,
}
use quark_os.ListHead.{Heap, load_next, list_del, poison1, poison2}
use quark_os.ListHead.Ring.{Ring}
use quark_os.Mm.{Layout, Mm, lru, area, max_order, find_blk, take_blk, split, dec_nr_free}
use quark_os.Mm.Lists.{IsLayout, Blocks, lrus, IsHeld, page_of-lru}
use quark_os.Mm.Foreign.{SameForeign, SameForeign-trans}
use quark_os.Mm.Pop.{put_rest, popped, list_del-Popped}
use quark_os.Mm.Cover.{IsCovered}
use quark_os.Mm.Taken.{rest-AreDisjoint, front-IsHeld, rest-IsCovered_inv, rest-IsCovered}
use quark_os.Mm.Split.{IsFree, SamePages, split-HasSplit}

-- What `find_blk` finds: an order with a block, or that there is none.
abbrev pub Finds : Mm → (left curr zone : ℕ) → Option ℕ → Type 0
Finds s left curr zone none = (o : ℕ) → curr ≤ o → o < curr + left → s.nr_free zone o ≡ 0
Finds s left curr zone (some c) = (curr ≤ c) × (c < curr + left) × (s.nr_free zone c ≢ 0)

Finds-cons :
    (s : Mm) (left curr zone : ℕ) (r : Option ℕ)
    → s.nr_free zone curr ≡ 0
    → Finds s left (curr + 1) zone r
    → Finds s (suc left) curr zone r
Finds-cons s left curr zone none e f = λ o lo hi. elim (Bool-cases (o == curr)) [
  | inl here ↦ ground arith
  | inr ne ↦ f o (ground arith) (omega arith)
]
Finds-cons s left curr zone (some c) e f = (omega arith, omega arith, f.2)

pub find_blk-Finds :
    (left curr zone : ℕ) (s : Mm) → Finds s left curr zone (find_blk left curr zone s)
unfolding find_blk
find_blk-Finds zero curr zone s = λ o lo hi. absurd (omega arith)
find_blk-Finds (suc left) curr zone s = elim (Bool-cases (s.nr_free zone curr == 0)) [
  | inl e ↦
      rw e (Finds-cons s left curr zone _ (ground arith) (find_blk-Finds left (curr + 1) zone s))
  | inr ne ↦ rw ne (omega arith, omega arith, ground arith)
]

-- What an allocation of `2 ^ order` pages from `page` on does to the free pages.
pub record Allocated (l : Layout) (total : ℕ) (s : Mm) (b : Blocks) (order page : ℕ) (t : Mm)
    : Type 0 where
  pub blocks : Blocks
  pub free : IsFree l total t blocks
  pub held : IsHeld total blocks page (2 ^ order)
  pub was_free : (i : ℕ) → page ≤ i → i < page + 2 ^ order → IsCovered b i
  pub kept : (i : ℕ) → IsCovered b i → IsCovered blocks i ⊎ ((page ≤ i) × (i < page + 2 ^ order))
  pub only : (i : ℕ) → IsCovered blocks i → IsCovered b i
  pub next_poisoned : t.lists.next (lru l page) ≡ some poison1
  pub prev_poisoned : t.lists.prev (lru l page) ≡ some poison2
  pub foreign : SameForeign l total s.lists t.lists

-- A list of blocks that is not empty.
pub cons_of_length : (ps : List ℕ) → length ps ≢ 0 → (p : ℕ) × (rest : List ℕ) × (ps ≡ p ∷ rest)
cons_of_length [] ne = absurd (ne refl)
cons_of_length (p ∷ ps) ne = (p, ps, refl)

module _ {l : Layout} {total : ℕ} (y : IsLayout l) (small : total < 2 ^ 32 - 1) where
  take_blk-runs :
      (s t : Mm) (h : Heap) (curr order zone page : ℕ)
      → load_next (area l zone curr) s.lists ≡ some (lru l page, s.lists)
      → list_del (lru l page) s.lists ≡ some (tt, h)
      → split l curr order zone page (popped s h zone curr) ≡ some (tt, t)
      → take_blk l curr order zone s ≡ some (page, t)
  unfolding take_blk dec_nr_free
  take_blk-runs s t h curr order zone page first del halves = ground (arith, page_of-lru l page)

  pub take_blk-Allocated :
      {s : Mm} {b : Blocks} (curr order zone page : ℕ) (rest : List ℕ)
      → IsFree l total s b
      → zone < 2
      → order ≤ curr
      → curr ≤ max_order
      → b zone curr ≡ page ∷ rest
      → (t : Mm) × (take_blk l curr order zone s ≡ some (page, t))
        × Allocated l total s b order page t
        × SamePages s t
  unfolding load_next
  take_blk-Allocated {s} {b} curr order zone page rest f hz ho hc front =
      let r : Ring s.lists (area l zone curr) (lru l page ∷ lrus l rest) =
        rw front at (f.has_blocks.ring zone curr hz hc) in
      let p = list_del-Popped zone curr page rest y f.has_blocks f.disjoint hz hc front small in
      let free : IsFree l total (popped s p.out zone curr) (put_rest b zone curr rest) = record {
        has_blocks = p.has_blocks;
        disjoint = rest-AreDisjoint total b zone curr page rest front f.disjoint hz hc;
      } in
      let h = front-IsHeld total b zone curr page rest front f.disjoint hz hc in
      let u = split-HasSplit y small curr order zone page free h hz ho hc in
      let le = pow-le-pow_right {n = 2} (omega arith) ho in
      (
        u.out,
        take_blk-runs s u.out p.out curr order zone page (ground arith) p.runs u.runs,
        record {
          blocks = u.blocks;
          free = u.free;
          held = u.held;
          was_free = λ i lo hi. record {
            zone = zone;
            order = curr;
            page = page;
            zone_in = hz;
            order_in = hc;
            listed = rw front (ground arith);
            from = lo;
            to = omega arith;
          };
          kept = λ i c. elim (rest-IsCovered total b zone curr page rest front i c) [
            | inl d ↦ inl (u.kept i d)
            | inr (lo, hi) ↦ elim (Bool-cases (ltb i (page + 2 ^ order))) [
              | inl low ↦ inr (lo, ground arith)
              | inr high ↦ inl (u.freed i (ground arith) hi)
            ]
          ];
          only = λ i c. elim (u.only i c) [
            | inl d ↦ rest-IsCovered_inv total b zone curr page rest front i d
            | inr (lo, hi) ↦ record {
              zone = zone;
              order = curr;
              page = page;
              zone_in = hz;
              order_in = hc;
              listed = rw front (ground arith);
              from = omega arith;
              to = hi;
            }
          ];
          next_poisoned = u.head.next ∙ p.poisoned.0;
          prev_poisoned = u.head.prev ∙ p.poisoned.1;
          foreign = SameForeign-trans _ _ _ p.foreign u.foreign;
        },
        record { count = u.same.count; flags = u.same.flags; zonelist = u.same.zonelist },
      )
