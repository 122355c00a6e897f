-- ===== src/Mm/Setup/Null.antt =====
-- The free lists that free_area_init leaves uninitialised, and the first split of a largest block.
use quark_os.Base.{
  ℕ, zero, suc, ◌+◌, ◌-◌, ◌^◌, ◌≤◌, ◌<◌, ◌≡◌, ◌≢◌, refl, true, some, List, [], ◌∷◌, arith, length,
  ◌∉◌, Bool-cases, inl, inr, has,
}
use native.Mathlib.Nat.{one-le-pow}
use quark_os.ListHead.{Heap, load_next, list_del}
use quark_os.ListHead.Ring.{Ring, IsNode, IsNode-frame}
use quark_os.ListHead.Del.{list_del-append}
use quark_os.Mm.{
  Layout, Mm, lru, area, max_order, zone_normal, find_blk, take_blk, split, dec_nr_free, rmqueue,
  alloc_from, alloc_pages, write,
}
use quark_os.Mm.Lists.{IsLayout, Blocks, AreDisjoint, lrus, area-lrus, page_of-lru, has-lrus}
use quark_os.Mm.Listed.{HasListed}
use quark_os.Mm.Pop.{popped}
use quark_os.Mm.Areas.Start.{at_start}
use quark_os.Mm.Setup.Torn.{two-pow-lt, IsUnset, split-IsTorn}

find_blk-largest :
    (left curr zone : ℕ) (s : Mm)
    → curr + left ≡ max_order
    → ((o : ℕ) → o < max_order → s.nr_free zone o ≡ 0)
    → s.nr_free zone max_order ≢ 0
    → find_blk (suc left) curr zone s ≡ some max_order
unfolding find_blk
find_blk-largest zero curr zone s e none_free more =
    let eq : curr ≡ max_order = omega arith in rw eq (ground (arith, more))
find_blk-largest (suc left) curr zone s e none_free more = ground (
  arith,
  none_free curr (omega arith),
  find_blk-largest left (curr + 1) zone s (omega arith) none_free more,
)

alloc_pages-split :
    (l : Layout) (order page : ℕ) (s t : Mm) (h : Heap)
    → order ≤ max_order
    → s.zonelist 0 ≡ some zone_normal
    → find_blk (max_order + 1 - order) order zone_normal s ≡ some max_order
    → load_next (area l zone_normal max_order) s.lists ≡ some (lru l page, s.lists)
    → list_del (lru l page) s.lists ≡ some (tt, h)
    → split l max_order order zone_normal page (popped s h zone_normal max_order) ≡ some (tt, t)
    → alloc_pages l order s ≡ some (some page, record t { count = write t.count page 1 })
unfolding alloc_pages alloc_from rmqueue take_blk dec_nr_free
alloc_pages-split l order page s t h le slot found first del halves =
    ground (arith, slot, found, first, page_of-lru l page, del, halves)

null-lrus : (l : Layout) (ps : List ℕ) → 0 ∉ lrus l ps
null-lrus l [] = refl
null-lrus l (p ∷ ps) = ground (arith, null-lrus l ps)

-- The block of an upper half is no other block of the list.
inner-rest :
    (total page o : ℕ) (rest : List ℕ) (b : Blocks)
    → AreDisjoint total b
    → b zone_normal max_order ≡ page ∷ rest
    → o < max_order
    → (page + 2 ^ o) ∉ rest
inner-rest total page o rest b d front ho = elim (Bool-cases (has (page + 2 ^ o) rest)) [
  | inl i ↦
      let one : has page (b zone_normal max_order) ≡ true = rw front (ground arith) in
      let two : has (page + 2 ^ o) (b zone_normal max_order) ≡ true =
        rw front (ground (arith, i)) in
      absurd (
        ground (
          arith,
          d.apart zone_normal max_order page zone_normal max_order (page + 2 ^ o) (omega arith)
              (omega arith) one (omega arith) (omega arith) two (ground (arith, one-le-pow o 2)),
          one-le-pow o 2,
          two-pow-lt o max_order ho,
        ))
  | inr out ↦ out
]

-- With the free lists as free_area_init leaves them, the zone NORMAL first in the zonelist, a
-- block in its list of the largest blocks and memory mapped at NULL, alloc_pages of an order
-- below MAX_ORDER returns the first page of that block, but each order's list that it puts an
-- upper half on ends at NULL instead of at its head, and the word at NULL->prev is overwritten
-- with the address of the last half.
pub alloc_pages-null :
    (l : Layout) (total order page : ℕ) (rest : List ℕ) (s : Mm) (b : Blocks)
    → IsLayout l
    → HasListed l total at_start s b
    → AreDisjoint total b
    → b zone_normal max_order ≡ page ∷ rest
    → s.zonelist 0 ≡ some zone_normal
    → IsNode s.lists 0
    → order < max_order
    → (t : Mm) × (alloc_pages l order s ≡ some (some page, t))
      × ((o : ℕ)
          → order ≤ o
          → o < max_order
          → (t.lists.next (area l zone_normal o) ≡ some (lru l (page + 2 ^ o)))
            × (t.lists.next (lru l (page + 2 ^ o)) ≡ some 0))
      × (t.lists.prev 0 ≡ some (lru l (page + 2 ^ order)))
unfolding load_next
alloc_pages-null l total order page rest s b y f d front slot null lt =
    let r : Ring s.lists (area l zone_normal max_order) (lru l page ∷ lrus l rest) =
      rw front at (f.ring zone_normal max_order (omega arith) (omega arith) refl) in
    let counted = f.counted zone_normal max_order (omega arith) (omega arith) refl in
    let more : s.nr_free zone_normal max_order ≡ suc (length rest) = rw front at counted in
    let (h, runs, p) = list_del-append [] (lrus l rest) r in
    let mem : has page (b zone_normal max_order) ≡ true = rw front (ground arith) in
    let same = p.0.same in
    let within = d.within zone_normal max_order page (omega arith) (omega arith) mem in
    let u : IsUnset l max_order page h = record {
      empty = λ o ho. ground (
        arith,
        same.next (area l zone_normal o),
        f.cleared zone_normal o (omega arith) (omega arith) (ground arith),
        area-lrus l zone_normal o (page ∷ rest) y,
      );
      blocks = λ o ho.
          IsNode-frame (lru l (page + 2 ^ o)) _
            (f.nodes (page + 2 ^ o) (omega (arith, within, two-pow-lt o max_order ho))) same
            (ground (
              arith,
              y.below,
              one-le-pow o 2,
              has-lrus l (page + 2 ^ o) rest,
              inner-rest total page o rest b d front ho,
            ));
      null = ground (arith, same.prev 0, null, null-lrus l rest);
    } in
    let (t, halves, torn) =
      split-IsTorn l max_order order page (popped s h zone_normal max_order) y (omega arith)
        (omega arith) u in
    (
      record t { count = write t.count page 1 },
      alloc_pages-split l order page s t h (omega arith) slot
          (ground (
            arith,
            find_blk-largest (max_order - order) order zone_normal s (omega arith)
                (λ o ho. (f.cleared zone_normal o (omega arith) (omega arith) (ground arith)).1)
                (omega (arith, more)),
          ))
          (ground (arith, r.chain)) runs halves,
      torn.listed,
      ground (arith, torn.null),
    )
