-- ===== src/Mm/Listed.antt =====
-- The free lists that are initialised so far, and a block put in front of one of them.
use quark_os.Base.{
  ℕ, ◌+◌, ◌-◌, ◌%◌, ◌^◌, ◌≤◌, ◌<◌, ◌≡◌, ap, Bool, true, false, ◌&&◌, ◌||◌, some, [], ◌∷◌, arith,
  ◌==◌, Bool-cases, inl, inr, if◌then◌else◌, has, ◌∉◌, length, length_of_below,
}
use quark_os.ListHead.{Heap, list_add, init_list_head}
use quark_os.ListHead.Ring.{IsNode, Ring, Ring-IsNode, Ring-frame, IsNode-frame, SameOutside}
use quark_os.ListHead.Add.{init_list_head-Ring, list_add-cons}
use mathlib.Core.Path.{ap₂}
use native.Mathlib.Nat.{one-le-pow}
use quark_os.Mm.{Layout, lru, area, max_order, Mm, write2}
use quark_os.Mm.Lists.{
  IsLayout, Blocks, lrus, AreDisjoint, lists-Apart, area-lrus, area-injective, has-lrus,
}

abbrev pub put : Blocks → (zone order page : ℕ) → Blocks
put b zone order page z o = if (z == zone) && (o == order) then page ∷ b z o else b z o

-- The state with other links and other counts.
abbrev pub relisted : Mm → Heap → ((zone order : ℕ) → ℕ) → Mm
relisted s h nr_free = record s { lists = h; nr_free = nr_free }

-- The counts once a block is added.
abbrev pub counted_up : ((zone order : ℕ) → ℕ) → (zone order : ℕ) → (zone order : ℕ) → ℕ
counted_up nr_free zone order = write2 nr_free zone order ((nr_free zone order + 1) % 2 ^ 32)

-- The lists that are initialised are the blocks, one ring and one count for each, and the others
-- hold NULL; every list and every page has its list head.
pub record HasListed (l : Layout) (total : ℕ) (listed : (zone order : ℕ) → Bool) (s : Mm)
    (b : Blocks) : Type 0 where
  pub ring :
      (z o : ℕ)
      → z < 2
      → o ≤ max_order
      → listed z o ≡ true
      → Ring s.lists (area l z o) (lrus l (b z o))
  pub counted :
      (z o : ℕ) → z < 2 → o ≤ max_order → listed z o ≡ true → s.nr_free z o ≡ length (b z o)
  pub nodes : (p : ℕ) → p < total → IsNode s.lists (lru l p)
  pub heads : (z o : ℕ) → z < 2 → o ≤ max_order → IsNode s.lists (area l z o)
  pub cleared :
      (z o : ℕ)
      → z < 2
      → o ≤ max_order
      → listed z o ≡ false
      → (s.lists.next (area l z o) ≡ some 0) × (s.nr_free z o ≡ 0) × (b z o ≡ [])

pub length-blocks :
    {total : ℕ} {b : Blocks} (z o : ℕ)
    → AreDisjoint total b
    → z < 2
    → o ≤ max_order
    → length (b z o) ≤ total
length-blocks {total} {b} z o d hz ho =
    length_of_below total (b z o) (d.once z o hz ho)
      λ a i. omega (arith, d.within z o a hz ho i, one-le-pow o 2)

module _ {l : Layout} {total : ℕ} {listed : (zone order : ℕ) → Bool} {s : Mm} {b : Blocks}
    (zone order : ℕ) (y : IsLayout l) (has_listed : HasListed l total listed s b)
    (d : AreDisjoint total b) (hz : zone < 2) (ho : order ≤ max_order) where
  module _ (page : ℕ) (in_list : listed zone order ≡ true) where
    module _ (h : Heap) (r : Ring h (area l zone order) (lru l page ∷ lrus l (b zone order)))
        (same : SameOutside (lru l page ∷ area l zone order ∷ lrus l (b zone order)) s.lists h)
        (fresh : (z o : ℕ) → z < 2 → o ≤ max_order → page ∉ b z o) where
      Ring-put :
          (z o : ℕ)
          → z < 2
          → o ≤ max_order
          → listed z o ≡ true
          → Ring h (area l z o) (lrus l (put b zone order page z o))
      Ring-put z o kz ko i = elim (Bool-cases ((z == zone) && (o == order))) [
        | inl e ↦
            let ez : z ≡ zone = ground arith in
            let eo : o ≡ order = ground arith in rw e (rw (ez, eo) r)
        | inr ne ↦ rw ne (
            Ring-frame _ _ (has_listed.ring z o kz ko i) same λ a m. ground (
              arith,
              lists-Apart l total b z o zone order y d kz ko hz ho ne a m,
              area-lrus l z o (page ∷ []) y,
              has-lrus l page (b z o),
              fresh z o kz ko,
            ))
      ]

      IsNode-put : (a : ℕ) → IsNode s.lists a → IsNode h a
      IsNode-put a n =
          elim (Bool-cases (has a (lru l page ∷ area l zone order ∷ lrus l (b zone order)))) [
            | inl i ↦ Ring-IsNode _ a r (ground arith)
            | inr out ↦ IsNode-frame a _ n same out
          ]

      cleared-put :
          (z o : ℕ)
          → z < 2
          → o ≤ max_order
          → listed z o ≡ false
          → (h.next (area l z o) ≡ some 0)
            × (counted_up s.nr_free zone order z o ≡ 0)
            × (put b zone order page z o ≡ [])
      cleared-put z o kz ko out = elim (Bool-cases ((z == zone) && (o == order))) [
        | inl e ↦
            let both : listed z o ≡ listed zone order = ap₂ listed (ground arith) (ground arith) in
            absurd (ground (arith, both, in_list, out))
        | inr ne ↦
            let (null, none_free, empty) = has_listed.cleared z o kz ko out in
            (
              ground (
                arith,
                same.next (area l z o),
                null,
                area-lrus l z o (page ∷ b zone order) y (omega arith) ko,
                area-injective l z o zone order ko ho,
              ),
              ground (arith, none_free),
              rw ne empty,
            )
      ]

      put-HasListed :
          total < 2 ^ 32 - 1
          → HasListed l total listed
              (relisted s h (counted_up s.nr_free zone order))
              (put b zone order page)
      put-HasListed small = record {
        ring = Ring-put;
        counted = λ z o kz ko i.
            ground (arith, has_listed.counted z o kz ko i, length-blocks z o d kz ko);
        nodes = λ p hp. IsNode-put (lru l p) (has_listed.nodes p hp);
        heads = λ z o kz ko. IsNode-put (area l z o) (has_listed.heads z o kz ko);
        cleared = cleared-put;
      }

    -- `list_add` of a page that heads no block succeeds and leaves the blocks with that one more.
    pub list_add-HasListed :
        ((z o : ℕ) → z < 2 → o ≤ max_order → page ∉ b z o)
        → page < total
        → total < 2 ^ 32 - 1
        → (h : Heap) × (list_add (lru l page) (area l zone order) s.lists ≡ some (tt, h))
          × HasListed l total listed
              (relisted s h (counted_up s.nr_free zone order))
              (put b zone order page)
          × SameOutside (lru l page ∷ area l zone order ∷ lrus l (b zone order)) s.lists h
    list_add-HasListed fresh hp small =
        let (h, runs, p) =
          list_add-cons (lrus l (b zone order)) (lru l page)
            (has_listed.ring zone order hz ho in_list) (has_listed.nodes page hp)
            (ground (
              arith,
              area-lrus l zone order (page ∷ []) y,
              has-lrus l page (b zone order),
              fresh zone order hz ho,
            )) in
        (h, runs, put-HasListed h p.0 p.1 fresh small, p.1)

  -- `INIT_LIST_HEAD` of a list that has no block yet, with its count set to 0, initialises it.
  pub init_list_head-HasListed :
      b zone order ≡ []
      → (h : Heap) × (init_list_head (area l zone order) s.lists ≡ some (tt, h))
        × HasListed l total
            (λ z o. ((z == zone) && (o == order)) || listed z o)
            (relisted s h (write2 s.nr_free zone order 0))
            b
  init_list_head-HasListed empty =
      let (h, runs, p) =
        init_list_head-Ring (area l zone order) (has_listed.heads zone order hz ho) in
      let kept : (a : ℕ) → IsNode s.lists a → IsNode h a = λ a n.
        elim (Bool-cases (a == area l zone order)) [
          | inl e ↦ Ring-IsNode _ a p.0 (ground arith)
          | inr out ↦ IsNode-frame a _ n p.1 (ground arith)
        ] in
      let ring : (z o : ℕ)
          → z < 2
          → o ≤ max_order
          → (((z == zone) && (o == order)) || listed z o) ≡ true
          → Ring h (area l z o) (lrus l (b z o)) =
        λ z o kz ko i. elim (Bool-cases ((z == zone) && (o == order))) [
          | inl e ↦
              let ez : z ≡ zone = ground arith in
              let eo : o ≡ order = ground arith in rw (ez, eo, empty) p.0
          | inr ne ↦ Ring-frame _ _ (has_listed.ring z o kz ko (ground arith)) p.1 λ a m. ground (
            arith,
            area-lrus l zone order (b z o) y (omega arith) ho,
            area-injective l z o zone order ko ho,
          )
        ] in
      (
        h,
        runs,
        record {
          ring = ring;
          counted = λ z o kz ko i.
              ground (arith, has_listed.counted z o kz ko, ap (length {A = ℕ}) empty);
          nodes = λ p hp. kept (lru l p) (has_listed.nodes p hp);
          heads = λ z o kz ko. kept (area l z o) (has_listed.heads z o kz ko);
          cleared = λ z o kz ko out.
              let (null, none_free, still) = has_listed.cleared z o kz ko (ground arith) in
              (
                ground (arith, p.1.next (area l z o), null, area-injective l z o zone order ko ho),
                ground (arith, none_free),
                still,
              );
        },
      )
