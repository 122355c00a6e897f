-- ===== src/Kmem/Lists.antt =====
-- list_del of a slab and list_add of it to the list where it belongs.
use quark_os.Base.{ℕ, ◌≡◌, List, [], ◌∷◌, some, arith, has, Apart, Bool-cases, inl, inr}
use quark_os.ListHead.{Heap, list_del, list_add, poison1, poison2}
use quark_os.ListHead.Ring.{IsNode, Ring, Ring-frame}
use quark_os.ListHead.Del.{list_del-append}
use quark_os.ListHead.Add.{list_add-cons}

-- The two commands run, and leave what `P` says.
abbrev pub Moves : (Heap → Type 0) → (x to : ℕ) → Heap → Type 0
Moves P x to h =
    (d : Heap) × (g : Heap) × (list_del x h ≡ some (tt, d)) × (list_add x to d ≡ some (tt, g)) × P g

-- Lists that share no list head with those of `xs` stand as they were.
abbrev pub Keeps : List ℕ → Heap → Heap → Type 0
Keeps xs h g = (other : ℕ) (ys : List ℕ) → Ring h other ys → Apart (other ∷ ys) xs → Ring g other ys

poisoned : (d : Heap) (x : ℕ) → d.next x ≡ some poison1 → d.prev x ≡ some poison2 → IsNode d x
poisoned d x n p = ground (arith, n, p)

pub Apart-swap : (xs ys : List ℕ) → Apart xs ys → Apart ys xs
Apart-swap xs ys apart a i = elim (Bool-cases (has a xs)) [
  | inl e ↦ absurd (ground (arith, apart a e))
  | inr e ↦ e
]

module _ {h : Heap} (from x : ℕ) (xs : List ℕ) (r : Ring h from (x ∷ xs)) where
  -- Back to the front of its own list.
  pub moved_back : Moves (λ g. Ring g from (x ∷ xs) × Keeps (from ∷ x ∷ xs) h g) x from h
  moved_back =
      let (d, gone, del) = list_del-append [] xs r in
      let (g, runs, p) =
        list_add-cons xs x del.0.ring (poisoned d x del.1 del.2) (ground (arith, r.distinct)) in
      (
        d,
        g,
        gone,
        runs,
        (
          p.0,
          λ other ys o apart.
              Ring-frame ys (x ∷ from ∷ xs) (Ring-frame ys (from ∷ x ∷ xs) o del.0.same apart) p.1
                (λ a i. ground (arith, apart a i)),
        ),
      )

  -- To the front of another.
  pub moved_across :
      (to : ℕ) (zs : List ℕ)
      → Ring h to zs
      → Apart (to ∷ zs) (from ∷ x ∷ xs)
      → Moves
          (λ g.
            Ring g from xs
            × Ring g to (x ∷ zs)
            × ((other : ℕ) (ys : List ℕ)
                → Ring h other ys
                → Apart (other ∷ ys) (from ∷ x ∷ xs)
                → Apart (other ∷ ys) (to ∷ zs)
                → Ring g other ys))
          x
          to
          h
  moved_across to zs t apart =
      let (d, gone, del) = list_del-append [] xs r in
      let t' = Ring-frame zs (from ∷ x ∷ xs) t del.0.same apart in
      let back = Apart-swap (to ∷ zs) (from ∷ x ∷ xs) apart in
      let (g, runs, p) = list_add-cons zs x t' (poisoned d x del.1 del.2) (back x (ground arith)) in
      (
        d,
        g,
        gone,
        runs,
        (
          Ring-frame xs (x ∷ to ∷ zs) del.0.ring p.1 (λ a i. ground (arith, back a, r.distinct)),
          p.0,
          λ other ys o q u.
              Ring-frame ys (x ∷ to ∷ zs) (Ring-frame ys (from ∷ x ∷ xs) o del.0.same q) p.1
                (λ a i. ground (arith, q a i, u a i)),
        ),
      )
