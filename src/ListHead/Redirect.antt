-- ===== src/ListHead/Redirect.antt =====
-- A chain whose last entry is made to lead elsewhere.
use quark_os.Base.{ℕ, ◌≡◌, ◌≢◌, List, [], ◌∷◌, some, arith, ◌∈◌, Distinct}
use quark_os.ListHead.{Heap}
use quark_os.ListHead.Ring.{Chain, Linked}

-- What stands before the end of a chain is one of its entries, or its start.
pub prev-mem :
    (h : Heap) (p q l : ℕ) (xs : List ℕ) → Chain h p xs q → h.prev q ≡ some l → l ∈ p ∷ xs
prev-mem h p q l [] c e = ground arith
prev-mem h p q l (x ∷ xs) c e = ground (arith, prev-mem h x q l xs c.1 e)

-- The two heaps differ on the chain only behind its last entry `l`, which now leads to `to`.
pub record Redirected (h g : Heap) (l to : ℕ) (p : ℕ) (xs : List ℕ) : Type 0 where
  pub linked : Linked g l to
  pub next : (a : ℕ) → a ∈ p ∷ xs → a ≢ l → g.next a ≡ h.next a
  pub prev : (a : ℕ) → a ∈ xs → g.prev a ≡ h.prev a

pub Chain-redirect :
    (h g : Heap) (p q l to : ℕ) (xs : List ℕ)
    → Chain h p xs q
    → Distinct (p ∷ xs)
    → h.prev q ≡ some l
    → Redirected h g l to p xs
    → Chain g p xs to
Chain-redirect h g p q l to [] c d e r = ground (arith, r.linked)
Chain-redirect h g p q l to (x ∷ xs) c d e r = (
  ground (arith, prev-mem h x q l xs c.1 e, r.next p, r.prev x),
  Chain-redirect h g x q l to xs c.1 d.1 e (record {
    linked = r.linked;
    next = λ a i. r.next a (ground arith);
    prev = λ a i. r.prev a (ground arith);
  }),
)
