-- ===== src/ListHead/Ring.antt =====
-- What a list of include/list.h stands for: the entries of a ring through its head, in order.
use quark_os.Base.{
  ℕ, ◌≡◌, refl, Bool, true, false, ◌||◌, Option, none, some, List, [], ◌∷◌, ◌++◌, arith, ◌==◌, has,
  ◌∈◌, ◌∉◌, Distinct, Distinct-swap, Apart,
}
use quark_os.ListHead.{Heap, Cmd}

abbrev pub is_some : Option ℕ → Bool
is_some none = false
is_some (some _) = true

pub some_of : (o : Option ℕ) → is_some o ≡ true → (a : ℕ) × (o ≡ some a)
some_of none e = absurd (cc)
some_of (some a) e = (a, refl)

-- Both words of a list head stand at the address.
pub record IsNode (h : Heap) (a : ℕ) : Type 0 where
  pub next : is_some (h.next a) ≡ true
  pub prev : is_some (h.prev a) ≡ true

-- `q` follows `p`, in both directions.
abbrev pub Linked : Heap → ℕ → ℕ → Type 0
Linked h p q = (h.next p ≡ some q) × (h.prev q ≡ some p)

-- From `p` through the entries `xs` to `q`.
abbrev pub Chain : Heap → ℕ → List ℕ → ℕ → Type 0
Chain h p [] q = Linked h p q
Chain h p (x ∷ xs) q = Linked h p x × Chain h x xs q

-- The list at `head` has the entries `xs`.
pub record Ring (h : Heap) (head : ℕ) (xs : List ℕ) : Type 0 where
  pub chain : Chain h head xs head
  pub distinct : Distinct (head ∷ xs)

-- The two heaps agree but at the addresses of `xs`.
pub record SameOutside (xs : List ℕ) (h g : Heap) : Type 0 where
  pub next : (a : ℕ) → a ∉ xs → g.next a ≡ h.next a
  pub prev : (a : ℕ) → a ∉ xs → g.prev a ≡ h.prev a

-- The command ends without a fault, in a heap with the property.
abbrev pub Ends : (Heap → Type 0) → Cmd (Unit {0}) → Heap → Type 0
Ends P m h = (g : Heap) × (m h ≡ some (tt, g)) × P g

pub Chain-frame :
    {h g : Heap} (p q : ℕ) (xs : List ℕ)
    → Chain h p xs q
    → ((a : ℕ) → a ∈ p ∷ xs → g.next a ≡ h.next a)
    → ((a : ℕ) → (has a xs || a == q) ≡ true → g.prev a ≡ h.prev a)
    → Chain g p xs q
Chain-frame p q [] c n b = ground (arith, n p, b q)
Chain-frame p q (x ∷ xs) c n b = (
  ground (arith, n p, b x),
  Chain-frame x q xs c.1 (λ a i. n a (ground arith)) (λ a i. b a (ground arith)),
)

module _ (h : Heap) where
  pub Chain-append :
      (p x q : ℕ) (xs ys : List ℕ) → Chain h p xs x → Chain h x ys q → Chain h p (xs ++ x ∷ ys) q
  Chain-append p x q [] ys c d = (c, d)
  Chain-append p x q (y ∷ xs) ys c d = (c.0, Chain-append y x q xs ys c.1 d)

  pub Chain-split :
      (p x q : ℕ) (xs ys : List ℕ) → Chain h p (xs ++ x ∷ ys) q → Chain h p xs x × Chain h x ys q
  Chain-split p x q [] ys c = (c.0, c.1)
  Chain-split p x q (y ∷ xs) ys c = let (a, b) = Chain-split y x q xs ys c.1 in ((c.0, a), b)

pub SameOutside-mono :
    {h g : Heap} (xs ys : List ℕ)
    → SameOutside xs h g
    → ((a : ℕ) → a ∉ ys → a ∉ xs)
    → SameOutside ys h g
SameOutside-mono xs ys s sub = record {
  next = λ a o. s.next a (sub a o);
  prev = λ a o. s.prev a (sub a o);
}

-- A ring may be read from any of its entries.
pub Ring-rotate :
    {h : Heap} (p x : ℕ) (xs ys : List ℕ) → Ring h p (xs ++ x ∷ ys) → Ring h x (ys ++ p ∷ xs)
Ring-rotate {h} p x xs ys r =
    let (c, d) = Chain-split h p x p xs ys r.chain in
    record {
      chain = Chain-append h x p x ys xs d c;
      distinct = Distinct-swap (p ∷ xs) (x ∷ ys) r.distinct;
    }

-- Both words of every entry, and of the head, are there.
Chain-IsNode :
    (h : Heap) (p q : ℕ) (xs : List ℕ)
    → Chain h p xs q
    → (a : ℕ)
    → (a ∈ p ∷ xs → is_some (h.next a) ≡ true)
      × ((has a xs || a == q) ≡ true → is_some (h.prev a) ≡ true)
Chain-IsNode h p q [] c a = (λ i. ground arith, λ i. ground arith)
Chain-IsNode h p q (x ∷ xs) c a =
    let (n, b) = Chain-IsNode h x q xs c.1 a in (λ i. ground (arith, n), λ i. ground (arith, b))

pub Ring-IsNode : {h : Heap} {p : ℕ} (xs : List ℕ) (a : ℕ) → Ring h p xs → a ∈ p ∷ xs → IsNode h a
Ring-IsNode {h} {p} xs a r i =
    let (n, b) = Chain-IsNode h p p xs r.chain a in record { next = n i; prev = ground (arith, b) }

-- A ring is untouched by writes elsewhere.
pub Ring-frame :
    {h g : Heap} {head : ℕ} (xs zs : List ℕ)
    → Ring h head xs
    → SameOutside zs h g
    → Apart (head ∷ xs) zs
    → Ring g head xs
Ring-frame {head} xs zs r s apart = record {
  chain =
      Chain-frame head head xs r.chain (λ a i. s.next a (apart a i))
        (λ a i. s.prev a (apart a (ground arith)));
  distinct = r.distinct;
}

pub IsNode-frame :
    {h g : Heap} (a : ℕ) (zs : List ℕ) → IsNode h a → SameOutside zs h g → a ∉ zs → IsNode g a
IsNode-frame a zs n s out = ground (arith, s.next a, s.prev a)
