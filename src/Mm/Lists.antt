-- ===== src/Mm/Lists.antt =====
-- Which free lists a state holds, and what keeps their list heads apart.
use quark_os.Base.{
  ℕ, ◌+◌, ◌*◌, ◌^◌, ◌≤◌, ◌<◌, ◌≡◌, refl, false, ◌&&◌, List, [], ◌∷◌, arith, ◌==◌, Bool-cases, ◌⊎◌,
  inl, inr, has, ◌∈◌, ◌∉◌, length, Apart, Distinct,
}
use native.Mathlib.Nat.{one-le-pow}
use quark_os.ListHead.Ring.{IsNode, Ring}
use quark_os.Mm.{Layout, lru, page_of, area, max_order, Mm}

-- The list heads of the zones lie below those of the page structures.
pub record IsLayout (l : Layout) : Type 0 where
  pub below : l.zones + 164 * 3 ≤ l.mem_map

-- The blocks of each zone and order, by the page frame number of their first page.
abbrev pub Blocks : Type 0
Blocks = (zone order : ℕ) → List ℕ

abbrev pub lrus : Layout → List ℕ → List ℕ
lrus l [] = []
lrus l (p ∷ ps) = lru l p ∷ lrus l ps

-- The free lists of the state are the blocks, one ring and one count for each zone and order.
-- Every page has its list head.
pub record HasBlocks (l : Layout) (total : ℕ) (s : Mm) (b : Blocks) : Type 0 where
  pub ring : (z o : ℕ) → z < 2 → o ≤ max_order → Ring s.lists (area l z o) (lrus l (b z o))
  pub counted : (z o : ℕ) → z < 2 → o ≤ max_order → s.nr_free z o ≡ length (b z o)
  pub nodes : (p : ℕ) → p < total → IsNode s.lists (lru l p)

-- Two ranges of pages do not meet.
abbrev pub Clear : (p m q n : ℕ) → Type 0
Clear p m q n = (p + m ≤ q) ⊎ (q + n ≤ p)

-- No two blocks overlap, and all lie within `total` pages.
pub record AreDisjoint (total : ℕ) (b : Blocks) : Type 0 where
  pub once : (z o : ℕ) → z < 2 → o ≤ max_order → Distinct (b z o)
  pub apart :
      (z o p z' o' p' : ℕ)
      → z < 2
      → o ≤ max_order
      → p ∈ b z o
      → z' < 2
      → o' ≤ max_order
      → p' ∈ b z' o'
      → ((z == z') && (o == o') && (p == p')) ≡ false
      → Clear p (2 ^ o) p' (2 ^ o')
  pub within : (z o p : ℕ) → z < 2 → o ≤ max_order → p ∈ b z o → p + 2 ^ o ≤ total

-- The pages from `p` on, `n` of them, belong to no block.
pub record IsHeld (total : ℕ) (b : Blocks) (p n : ℕ) : Type 0 where
  pub clear : (z o q : ℕ) → z < 2 → o ≤ max_order → q ∈ b z o → Clear p n q (2 ^ o)
  pub within : p + n ≤ total

-- A page heads one block at most.
not_shared :
    (total : ℕ) (b : Blocks) (z o z' o' p : ℕ)
    → AreDisjoint total b
    → z < 2
    → o ≤ max_order
    → z' < 2
    → o' ≤ max_order
    → ((z == z') && (o == o')) ≡ false
    → p ∈ b z o
    → p ∉ b z' o'
not_shared total b z o z' o' p d hz ho hz' ho' ne i = elim (Bool-cases (has p (b z' o'))) [
  | inl j ↦ absurd (ground (arith, d.apart z o p z' o' p, one-le-pow o 2, one-le-pow o' 2))
  | inr out ↦ out
]

module _ (l : Layout) where
  pub page_of-lru : (p : ℕ) → page_of l (lru l p) ≡ p
  page_of-lru p = omega arith

  pub has-lrus : (p : ℕ) (ps : List ℕ) → has (lru l p) (lrus l ps) ≡ has p ps
  has-lrus p [] = refl
  has-lrus p (q ∷ ps) = ground (arith, has-lrus p ps)

  pub mem-lrus : (a : ℕ) (ps : List ℕ) → a ∈ lrus l ps → (p : ℕ) × (p ∈ ps) × (a ≡ lru l p)
  mem-lrus a [] i = absurd (cc)
  mem-lrus a (q ∷ ps) i = elim (Bool-cases (a == lru l q)) [
    | inl e ↦ (q, ground arith, ground arith)
    | inr ne ↦ let (p, k, e) = mem-lrus a ps (ground arith) in (p, ground arith, e)
  ]

  -- A list head of a zone is no list head of a page, and no other of a zone.
  pub area-lrus :
      (z o : ℕ) (ps : List ℕ) → IsLayout l → z < 3 → o ≤ max_order → area l z o ∉ lrus l ps
  area-lrus z o [] y hz ho = refl
  area-lrus z o (p ∷ ps) y hz ho = ground (arith, area-lrus z o ps y hz ho, y.below)

  pub area-injective :
      (z o z' o' : ℕ)
      → o ≤ max_order
      → o' ≤ max_order
      → area l z o ≡ area l z' o'
      → (z ≡ z') × (o ≡ o')
  area-injective z o z' o' ho ho' e = (omega arith, omega arith)

  lrus-Distinct : (ps : List ℕ) → Distinct ps → Distinct (lrus l ps)
  lrus-Distinct [] d = tt
  lrus-Distinct (p ∷ ps) d = (rw has-lrus d.0, lrus-Distinct ps d.1)

  -- Lists of different zones or orders share no list head.
  pub lists-Apart :
      (total : ℕ) (b : Blocks) (z o z' o' : ℕ)
      → IsLayout l
      → AreDisjoint total b
      → z < 2
      → o ≤ max_order
      → z' < 2
      → o' ≤ max_order
      → ((z == z') && (o == o')) ≡ false
      → Apart (area l z o ∷ lrus l (b z o)) (area l z' o' ∷ lrus l (b z' o'))
  lists-Apart total b z o z' o' y d hz ho hz' ho' ne a i = elim (Bool-cases (a == area l z o)) [
    | inl e ↦ ground (arith, area-lrus z o (b z' o') y, area-injective z o z' o' ho ho')
    | inr out ↦
        let (p, k, e) = mem-lrus a (b z o) (ground arith) in
        ground (
          arith,
          area-lrus z' o' (p ∷ []) y,
          has-lrus p (b z' o'),
          not_shared total b z o z' o' p d hz ho hz' ho' ne k,
        )
  ]
