-- ===== src/Base/Pigeonhole.antt =====
-- A list of different numbers below `n` has at most `n` of them.
use quark_os.Base.Tests.{◌==◌, if◌then◌else◌}
use quark_os.Base.Lists.{length, ◌∈◌, ◌∉◌, Distinct}
use Prim.Native.Nat.{ℕ, zero, suc, ◌+◌, ◌≤◌, ◌<◌}
use mathlib.Core.Path.{◌≡◌}
use mathlib.Core.Bool.{false}
use mathlib.Core.List.{List, [], ◌∷◌}
use native.Mathlib.Omega.{arith}

without : ℕ → List ℕ → List ℕ
without n [] = []
without n (x ∷ xs) = if x == n then without n xs else x ∷ without n xs

mem_of_mem-without : (a n : ℕ) (xs : List ℕ) → a ∈ without n xs → (a ∈ xs) × ((a == n) ≡ false)
unfolding without
mem_of_mem-without a n [] i = absurd (cc)
mem_of_mem-without a n (x ∷ xs) i = ground (arith, mem_of_mem-without a n xs)

not-mem-without : (a n : ℕ) (xs : List ℕ) → a ∉ xs → a ∉ without n xs
unfolding without
not-mem-without a n [] o = o
not-mem-without a n (x ∷ xs) o = ground (arith, not-mem-without a n xs)

Distinct-without : (n : ℕ) (xs : List ℕ) → Distinct xs → Distinct (without n xs)
unfolding without
Distinct-without n [] d = tt
Distinct-without n (x ∷ xs) d = ground (arith, Distinct-without n xs d.1, not-mem-without x n xs)

length-without_out : (n : ℕ) (xs : List ℕ) → n ∉ xs → length xs ≤ length (without n xs)
unfolding without
length-without_out n [] o = omega arith
length-without_out n (x ∷ xs) o = ground (arith, length-without_out n xs)

length-without : (n : ℕ) (xs : List ℕ) → Distinct xs → length xs ≤ length (without n xs) + 1
unfolding without
length-without n [] d = omega arith
length-without n (x ∷ xs) d = ground (arith, length-without n xs d.1, length-without_out n xs)

pub length_of_below :
    (n : ℕ) (xs : List ℕ) → Distinct xs → ((a : ℕ) → a ∈ xs → a < n) → length xs ≤ n
length_of_below zero [] d below = omega arith
length_of_below zero (x ∷ xs) d below = absurd (ground (arith, below x))
length_of_below (suc n) xs d below = omega (
  arith,
  length-without n xs d,
  length_of_below n (without n xs) (Distinct-without n xs d)
      (λ a i. let m = mem_of_mem-without a n xs i in ground (arith, below a)),
)
