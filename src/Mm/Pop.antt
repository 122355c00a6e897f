-- ===== src/Mm/Pop.antt =====
-- The block at the front of a free list taken out.
use quark_os.Base.{
  ℕ, ◌+◌, ◌-◌, ◌%◌, ◌^◌, ◌≤◌, ◌<◌, ◌≡◌, ◌&&◌, some, List, [], ◌∷◌, arith, ◌==◌, Bool-cases, inl,
  inr, if◌then◌else◌, has, ◌∈◌,
}
use quark_os.ListHead.{Heap, list_del, poison1, poison2}
use quark_os.ListHead.Ring.{IsNode, Ring, Ring-IsNode, Ring-frame, IsNode-frame, SameOutside}
use quark_os.ListHead.Del.{list_del-append}
use quark_os.Mm.{Layout, lru, area, max_order, Mm, write2}
use quark_os.Mm.Lists.{IsLayout, Blocks, lrus, HasBlocks, AreDisjoint, lists-Apart}
use quark_os.Mm.Foreign.{SameForeign, SameOutside-SameForeign, IsForeign-lrus, blocks-below}
use quark_os.Mm.Push.{length-blocks}

abbrev pub put_rest : Blocks → (zone order : ℕ) → List ℕ → Blocks
put_rest b zone order rest z o = if (z == zone) && (o == order) then rest else b z o

abbrev pub popped : Mm → Heap → (zone order : ℕ) → Mm
popped s h zone order = record s {
  lists = h;
  nr_free = write2 s.nr_free zone order ((s.nr_free zone order + (2 ^ 32 - 1)) % 2 ^ 32);
}

-- What is left when the first block `page` of a list is gone.
pub record Popped (l : Layout) (total : ℕ) (s : Mm) (b : Blocks) (zone order page : ℕ)
    (rest : List ℕ) : Type 0 where
  pub out : Heap
  pub runs : list_del (lru l page) s.lists ≡ some (tt, out)
  pub has_blocks : HasBlocks l total (popped s out zone order) (put_rest b zone order rest)
  pub poisoned : (out.next (lru l page) ≡ some poison1) × (out.prev (lru l page) ≡ some poison2)
  pub foreign : SameForeign l total s.lists out

module _ {l : Layout} {total : ℕ} {s : Mm} {b : Blocks} (zone order page : ℕ) (rest : List ℕ)
    (y : IsLayout l) (has_blocks : HasBlocks l total s b) (d : AreDisjoint total b) (hz : zone < 2)
    (ho : order ≤ max_order) (front : b zone order ≡ page ∷ rest) where
  module _ (h : Heap) (r : Ring h (area l zone order) (lrus l rest))
      (same : SameOutside (area l zone order ∷ lru l page ∷ lrus l rest) s.lists h)
      (node : IsNode h (lru l page)) where
    Ring-rest :
        (z o : ℕ)
        → z < 2
        → o ≤ max_order
        → Ring h (area l z o) (lrus l (put_rest b zone order rest z o))
    Ring-rest z o kz ko = elim (Bool-cases ((z == zone) && (o == order))) [
      | inl e ↦
          let ez : z ≡ zone = ground arith in
          let eo : o ≡ order = ground arith in rw e (rw (ez, eo) r)
      | inr ne ↦ rw ne (
          Ring-frame _ _ (has_blocks.ring z o kz ko) same
            λ a i. rw front at (lists-Apart l total b z o zone order y d kz ko hz ho ne a i))
    ]

    nodes-rest : (p : ℕ) → p < total → IsNode h (lru l p)
    nodes-rest p hp =
        elim (Bool-cases (has (lru l p) (area l zone order ∷ lru l page ∷ lrus l rest))) [
          | inl i ↦ elim (Bool-cases (lru l p == lru l page)) [
            | inl e ↦ let same_head : lru l p ≡ lru l page = ground arith in rw same_head node
            | inr ne ↦ Ring-IsNode _ (lru l p) r (ground arith)
          ]
          | inr out ↦ IsNode-frame (lru l p) _ (has_blocks.nodes p hp) same out
        ]

    popped-HasBlocks :
        total < 2 ^ 32 - 1 → HasBlocks l total (popped s h zone order) (put_rest b zone order rest)
    popped-HasBlocks small = record {
      ring = Ring-rest;
      counted = λ z o kz ko.
          ground (arith, has_blocks.counted z o kz ko, length-blocks zone order d hz ho);
      nodes = nodes-rest;
    }

  -- `list_del` of the first block succeeds, and poisons its list head.
  pub list_del-Popped : total < 2 ^ 32 - 1 → Popped l total s b zone order page rest
  list_del-Popped small =
      let (h, runs, p) =
        list_del-append [] (lrus l rest) (rw front at (has_blocks.ring zone order hz ho)) in
      record {
        out = h;
        runs = runs;
        has_blocks =
            popped-HasBlocks h p.0.ring p.0.same
              (record { next = ground arith; prev = ground arith }) small;
        poisoned = (p.1, p.2);
        foreign = SameOutside-SameForeign _ p.0.same λ a i.
            let below : (p : ℕ) → p ∈ page ∷ rest → p < total =
              λ p m. blocks-below total b zone order d hz ho p (rw front m) in
            ground (
              arith,
              i.no_page page (below page (ground arith)),
              i.no_area zone order,
              IsForeign-lrus a rest i (λ p m. below p (ground arith)),
            );
      }
