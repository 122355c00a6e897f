-- ===== src/Base/Lists.antt =====
-- Lists measured by native numbers, and membership of a number as a Boolean test.
use Prim.Native.Nat.{ℕ, suc, ◌+◌}
use mathlib.Core.Path.{◌≡◌, refl}
use mathlib.Core.Bool.{Bool, true, false, ◌||◌, or_assoc}
use mathlib.Core.List.{List, [], ◌∷◌, ◌++◌}
use native.Mathlib.Omega.{arith}
use quark_os.Base.Tests.{◌==◌}

abbrev pub length {ℓ} : {A : Type ℓ} → List A → ℕ
length [] = 0
length (x ∷ xs) = suc (length xs)

pub length-append {ℓ} : {A : Type ℓ} (xs ys : List A) → length (xs ++ ys) ≡ length xs + length ys
length-append [] ys = omega arith
length-append (x ∷ xs) ys = omega (arith, length-append xs ys)

abbrev pub has : ℕ → List ℕ → Bool
has a [] = false
has a (x ∷ xs) = a == x || has a xs

infix 40 ◌∈◌ ◌∉◌
abbrev pub ◌∈◌ : ℕ → List ℕ → Type 0
a ∈ xs = has a xs ≡ true

abbrev pub ◌∉◌ : ℕ → List ℕ → Type 0
a ∉ xs = has a xs ≡ false

pub has-append : (a : ℕ) (xs ys : List ℕ) → has a (xs ++ ys) ≡ (has a xs || has a ys)
has-append a [] ys = refl
has-append a (x ∷ xs) ys = rw (has-append a xs ys, or_assoc)

-- No number stands twice.
abbrev pub Distinct : List ℕ → Type 0
Distinct [] = Unit
Distinct (x ∷ xs) = (x ∉ xs) × Distinct xs

-- No number stands in both.
abbrev pub Apart : List ℕ → List ℕ → Type 0
Apart xs ys = (a : ℕ) → a ∈ xs → a ∉ ys

pub Distinct-append :
    (xs ys : List ℕ) → Distinct xs → Distinct ys → Apart xs ys → Distinct (xs ++ ys)
Distinct-append [] ys d e apart = e
Distinct-append (x ∷ xs) ys d e apart = (
  ground (arith, has-append x xs ys, apart x),
  Distinct-append xs ys d.1 e (λ a i. apart a (ground arith)),
)

pub Distinct-split :
    (xs ys : List ℕ) → Distinct (xs ++ ys) → Distinct xs × Distinct ys × Apart xs ys
Distinct-split [] ys d = (tt, d, λ a i. absurd (cc))
Distinct-split (x ∷ xs) ys d =
    let (l, r, apart) = Distinct-split xs ys d.1 in
    ((ground (arith, has-append x xs ys), l), r, λ a i. ground (arith, apart a, has-append x xs ys))

pub Distinct-swap : (xs ys : List ℕ) → Distinct (xs ++ ys) → Distinct (ys ++ xs)
Distinct-swap xs ys d =
    let (l, r, apart) = Distinct-split xs ys d in
    Distinct-append ys xs r l (λ a i. ground (arith, apart a))

pub Distinct-cons_append :
    (y : ℕ) (xs ys : List ℕ)
    → Distinct xs
    → Distinct (y ∷ ys)
    → Apart xs (y ∷ ys)
    → Distinct (y ∷ xs ++ ys)
Distinct-cons_append y xs ys d e apart = (
  ground (arith, has-append y xs ys, apart y),
  Distinct-append xs ys d e.1 (λ a i. ground (arith, apart a)),
)

-- A list is empty or has a last element.
pub data Snoc : List ℕ → Type 0 where
  none_left : Snoc []
  last : (xs : List ℕ) (x : ℕ) → Snoc (xs ++ x ∷ [])

Snoc-cons : (x : ℕ) {xs : List ℕ} → Snoc xs → Snoc (x ∷ xs)
Snoc-cons x none_left = last [] x
Snoc-cons x (last ys y) = last (x ∷ ys) y

pub snoc : (xs : List ℕ) → Snoc xs
snoc [] = none_left
snoc (x ∷ xs) = Snoc-cons x (snoc xs)
