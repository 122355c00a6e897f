-- ===== src/Mm/Foreign.antt =====
-- The list heads that are not the page allocator's: it leaves them alone.
use quark_os.Base.{ℕ, ◌≤◌, ◌<◌, ◌≡◌, ◌∙◌, refl, false, List, [], ◌∷◌, arith, ◌==◌, ◌∈◌, ◌∉◌}
use native.Mathlib.Nat.{one-le-pow}
use quark_os.ListHead.{Heap}
use quark_os.ListHead.Ring.{Ring, Chain-frame, SameOutside}
use quark_os.Mm.{Layout, lru, area, max_order}
use quark_os.Mm.Lists.{lrus, Blocks, AreDisjoint}

-- The address is that of no list head of one of `total` pages or a zone.
pub record IsForeign (l : Layout) (total a : ℕ) : Type 0 where
  pub no_page : (p : ℕ) → p < total → (a == lru l p) ≡ false
  pub no_area : (z o : ℕ) → z < 2 → o ≤ max_order → (a == area l z o) ≡ false

-- The links at such addresses stay.
pub record SameForeign (l : Layout) (total : ℕ) (h g : Heap) : Type 0 where
  pub next : (a : ℕ) → IsForeign l total a → g.next a ≡ h.next a
  pub prev : (a : ℕ) → IsForeign l total a → g.prev a ≡ h.prev a

pub IsForeign-lrus :
    {l : Layout} {total : ℕ} (a : ℕ) (ps : List ℕ)
    → IsForeign l total a
    → ((p : ℕ) → p ∈ ps → p < total)
    → a ∉ lrus l ps
IsForeign-lrus a [] f below = refl
IsForeign-lrus a (p ∷ ps) f below = ground (
  arith,
  f.no_page p (below p (ground arith)),
  IsForeign-lrus a ps f (λ q i. below q (ground arith)),
)

pub SameForeign-refl : (l : Layout) (total : ℕ) (h : Heap) → SameForeign l total h h
SameForeign-refl l total h = record { next = λ a f. refl; prev = λ a f. refl }

pub SameForeign-trans :
    {l : Layout} {total : ℕ} (h g k : Heap)
    → SameForeign l total h g
    → SameForeign l total g k
    → SameForeign l total h k
SameForeign-trans h g k s t = record {
  next = λ a f. t.next a f ∙ s.next a f;
  prev = λ a f. t.prev a f ∙ s.prev a f;
}

-- A write to a free list and a block stays within the allocator.
pub SameOutside-SameForeign :
    {l : Layout} {total : ℕ} {h g : Heap} (xs : List ℕ)
    → SameOutside xs h g
    → ((a : ℕ) → IsForeign l total a → a ∉ xs)
    → SameForeign l total h g
SameOutside-SameForeign xs s out = record {
  next = λ a f. s.next a (out a f);
  prev = λ a f. s.prev a (out a f);
}

-- A list of foreign list heads stays as it is.
pub Ring-SameForeign :
    {l : Layout} {total : ℕ} {h g : Heap} (head : ℕ) (xs : List ℕ)
    → Ring h head xs
    → SameForeign l total h g
    → ((a : ℕ) → a ∈ head ∷ xs → IsForeign l total a)
    → Ring g head xs
Ring-SameForeign head xs r s foreign = record {
  chain =
      Chain-frame head head xs r.chain (λ a i. s.next a (foreign a i))
        (λ a i. s.prev a (foreign a (ground arith)));
  distinct = r.distinct;
}

-- The blocks of a list lie within the pages.
pub blocks-below :
    (total : ℕ) (b : Blocks) (z o : ℕ)
    → AreDisjoint total b
    → z < 2
    → o ≤ max_order
    → (p : ℕ) → p ∈ b z o
    → p < total
blocks-below total b z o d hz ho p i = omega (arith, d.within z o p hz ho i, one-le-pow o 2)
