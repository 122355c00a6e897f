-- ===== src/Mm/Setup/Torn.antt =====
-- The splitting of a block where the lists of the lower orders still hold NULL.
use quark_os.Base.{
  ℕ, zero, suc, ◌+◌, ◌^◌, ◌≤◌, ◌<◌, ◌≡◌, ◌≢◌, ◌∙◌, refl, true, some, arith, ltb, ◌==◌, ◌&&◌, ◌%◌,
  if◌then◌else◌, Bool-cases, inl, inr,
}
use native.Mathlib.Nat.{pow-le-pow_right, two-pow-succ, one-le-pow}
use quark_os.ListHead.{Heap, load_next, list_add, store_next, store_prev, add_between, update}
use quark_os.ListHead.Ring.{IsNode, is_some, some_of}
use quark_os.Mm.{Layout, Mm, lru, area, max_order, zone_normal, split, inc_nr_free}
use quark_os.Mm.Lists.{IsLayout}

-- The heap once `list_add` has put an entry in front of a head that holds NULL: the list head at
-- NULL is written to.
abbrev pub before_null : (new head : ℕ) → Heap → Heap
before_null new head h = record {
  next = update (update h.next new 0) head new;
  prev = update (update h.prev 0 new) new head;
}

list_add-null :
    (new head : ℕ) (h : Heap)
    → 0 < new
    → h.next head ≡ some 0
    → is_some (h.prev 0) ≡ true
    → IsNode h new
    → list_add new head h ≡ some (tt, before_null new head h)
unfolding list_add load_next add_between store_next store_prev
list_add-null new head h pos e null n =
    let (v, at_null) = some_of (h.prev 0) null in
    let (a, before) = some_of (h.prev new) n.prev in
    let (c, after) = some_of (h.next new) n.next in ground (arith, e, at_null, before, after)

-- The address is that of no list head that a split of orders below `curr` writes.
abbrev pub IsAside : Layout → (curr page a : ℕ) → Type 0
IsAside l curr page a = (o : ℕ) → o < curr → (a ≢ area l zone_normal o) × (a ≢ lru l (page + 2 ^ o))

pub two-pow-lt : (o curr : ℕ) → o < curr → 2 ^ o < 2 ^ curr
two-pow-lt o curr lt = ground (
  arith,
  pow-le-pow_right {n = 2} (omega arith) {i = suc o} {j = curr} (omega arith),
  two-pow-succ o,
  one-le-pow o 2,
)

-- What the splitting starts from: lists and NULL without a list, and blocks with list heads.
pub record IsUnset (l : Layout) (curr page : ℕ) (h : Heap) : Type 0 where
  pub empty : (o : ℕ) → o < curr → h.next (area l zone_normal o) ≡ some 0
  pub blocks : (o : ℕ) → o < curr → IsNode h (lru l (page + 2 ^ o))
  pub null : is_some (h.prev 0) ≡ true

-- What it leaves: each list that it adds to ends at NULL, which points to the last block.
pub record IsTorn (l : Layout) (curr order page : ℕ) (h g : Heap) : Type 0 where
  pub listed :
      (o : ℕ)
      → order ≤ o
      → o < curr
      → (g.next (area l zone_normal o) ≡ some (lru l (page + 2 ^ o)))
        × (g.next (lru l (page + 2 ^ o)) ≡ some 0)
  pub null : g.prev 0 ≡ (if ltb order curr then some (lru l (page + 2 ^ order)) else h.prev 0)
  pub aside : (a : ℕ) → IsAside l curr page a → g.next a ≡ h.next a

step-IsUnset :
    (l : Layout) (curr page : ℕ) (h : Heap)
    → IsLayout l
    → curr < max_order
    → IsUnset l (suc curr) page h
    → IsUnset l curr page (before_null (lru l (page + 2 ^ curr)) (area l zone_normal curr) h)
step-IsUnset l curr page h y le u = record {
  empty = λ o lt. ground (arith, u.empty o (omega arith), y.below);
  blocks = λ o lt.
      let n = u.blocks o (omega arith) in
      record { next = ground (arith, n.next); prev = ground (arith, n.prev) };
  null = ground (arith, y.below);
}

step-IsTorn :
    (l : Layout) (curr order page : ℕ) (h g : Heap)
    → IsLayout l
    → curr < max_order
    → order ≤ curr
    → IsTorn l curr order page (before_null (lru l (page + 2 ^ curr)) (area l zone_normal curr) h) g
    → IsTorn l (suc curr) order page h g
step-IsTorn l curr order page h g y small le t =
    let new = lru l (page + 2 ^ curr) in
    let head = area l zone_normal curr in
    let head_aside : IsAside l curr page head =
      λ o lt. (ground (arith, y.below), ground (arith, y.below)) in
    let new_aside : IsAside l curr page new =
      λ o lt. (ground (arith, y.below), ground (arith, two-pow-lt o curr lt)) in
    record {
      listed = λ o lo hi. elim (Bool-cases (o == curr)) [
        | inl e ↦
            let at : o ≡ curr = ground (arith, e) in
            rw at (
              t.aside head head_aside ∙ ground (arith),
              t.aside new new_aside ∙ ground (arith, y.below),
            )
        | inr ne ↦ t.listed o lo (ground (arith, ne))
      ];
      null = ground (arith, t.null, y.below);
      aside =
          λ a out. t.aside a (λ o lt. out o (omega arith)) ∙ ground (arith, out curr (omega arith));
    }

pub split-IsTorn :
    (l : Layout) (curr order page : ℕ) (s : Mm)
    → IsLayout l
    → curr ≤ max_order
    → order ≤ curr
    → IsUnset l curr page s.lists
    → (t : Mm) × (split l curr order zone_normal page s ≡ some (tt, t))
      × IsTorn l curr order page s.lists t.lists
unfolding split inc_nr_free
split-IsTorn l zero order page s y small le u = (
  s,
  refl,
  record { listed = λ o lo hi. absurd (omega arith); null = ground arith; aside = λ a out. refl },
)
split-IsTorn l (suc curr) order page s y small le u = elim (Bool-cases (ltb order (suc curr))) [
  | inl more ↦
      let new = lru l (page + 2 ^ curr) in
      let head = area l zone_normal curr in
      let added =
        list_add-null new head s.lists (omega arith) (u.empty curr (omega arith)) u.null
          (u.blocks curr (omega arith)) in
      let m : Mm = record s {
        lists = before_null new head s.lists;
        nr_free = λ z o.
            if (z == zone_normal) && (o == curr)
            then (s.nr_free zone_normal curr + 1) % 2 ^ 32
            else s.nr_free z o;
      } in
      let (t, runs, torn) =
        split-IsTorn l curr order page m y (omega arith) (ground (arith, more))
          (step-IsUnset l curr page s.lists y (omega arith) u) in
      (
        t,
        rw more (ground (arith, added, runs)),
        step-IsTorn l curr order page s.lists t.lists y (omega arith) (ground (arith, more)) torn,
      )
  | inr done ↦ (
    s,
    rw done refl,
    record {
      listed = λ o lo hi. absurd (ground (arith, done));
      null = ground (arith, done);
      aside = λ a out. refl;
    },
  )
]
