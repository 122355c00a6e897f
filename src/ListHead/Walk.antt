-- ===== src/ListHead/Walk.antt =====
-- include/list.h: the loops over a list.
use mathlib.Core.List.{reverse, reverse-append, reverse-reverse}
use quark_os.Base.{
  ℕ, zero, suc, ◌<◌, ◌+◌, ◌≡◌, refl, List, [], ◌∷◌, some, arith, has, has-append, length,
  length-append, ◌∉◌,
}
use quark_os.ListHead.{Heap, walk, walk_prev, list_for_each, list_for_each_prev}
use quark_os.ListHead.Ring.{Chain, Ring, Chain-split}

walk-Chain :
    (h : Heap) (fuel p head : ℕ) (xs : List ℕ)
    → Chain h p xs head
    → p ∉ head ∷ []
    → head ∉ xs
    → length xs + 1 < fuel
    → walk fuel p head h ≡ some (p ∷ xs, h)
unfolding walk
walk-Chain h zero p head xs c ne out f = absurd (omega arith)
walk-Chain h (suc zero) p head [] c ne out f = absurd (omega arith)
walk-Chain h (suc (suc fuel)) p head [] c ne out f = ground arith
walk-Chain h (suc fuel) p head (x ∷ xs) c ne out f = ground (arith, walk-Chain h fuel x head xs c.1)

-- list_for_each meets the entries of a list in their order and ends, within one step more than
-- there are entries.
pub list_for_each_lem :
    {h : Heap} {head : ℕ} (fuel : ℕ) (xs : List ℕ)
    → Ring h head xs
    → length xs < fuel
    → list_for_each fuel head h ≡ some (xs, h)
unfolding list_for_each
list_for_each_lem zero xs r f = absurd (omega arith)
list_for_each_lem {h} {head} (suc fuel) [] r f = ground arith
list_for_each_lem {h} {head} (suc fuel) (x ∷ xs) r f =
    ground (arith, walk-Chain h (suc fuel) x head xs r.chain.1)

has-reverse : (a : ℕ) (xs : List ℕ) → has a (reverse xs) ≡ has a xs
has-reverse a [] = refl
has-reverse a (x ∷ xs) =
    ground (arith, reverse-append (x ∷ []) xs, has-append a (reverse xs) (x ∷ []), has-reverse a xs)

length-reverse : (xs : List ℕ) → length (reverse xs) ≡ length xs
length-reverse [] = refl
length-reverse (x ∷ xs) =
    ground
      (arith, reverse-append (x ∷ []) xs, length-append (reverse xs) (x ∷ []), length-reverse xs)

walk_prev-Chain :
    (h : Heap) (fuel q head : ℕ) (ys : List ℕ)
    → Chain h head (reverse ys) q
    → head ∉ ys
    → length ys < fuel
    → (p : ℕ) × (h.prev q ≡ some p) × (walk_prev fuel p head h ≡ some (ys, h))
unfolding walk_prev
walk_prev-Chain h zero q head ys c out f = absurd (omega arith)
walk_prev-Chain h (suc fuel) q head [] c out f = (head, c.1, ground arith)
walk_prev-Chain h (suc fuel) q head (y ∷ ys) c out f =
    let (front, back) =
      Chain-split h head y q (reverse ys) [] (rw (reverse-append (y ∷ []) ys) at c) in
    let (p, e, runs) = walk_prev-Chain h fuel y head ys front (ground arith) (omega arith) in
    (y, back.1, ground (arith, e, runs))

-- list_for_each_prev meets the entries of a list in the opposite order and ends, within one step
-- more than there are entries.
pub list_for_each_prev_lem :
    {h : Heap} {head : ℕ} (fuel : ℕ) (xs : List ℕ)
    → Ring h head xs
    → length xs < fuel
    → list_for_each_prev fuel head h ≡ some (reverse xs, h)
unfolding list_for_each_prev
list_for_each_prev_lem {h} {head} fuel xs r f =
    let (p, e, runs) =
      walk_prev-Chain h fuel head head (reverse xs) (rw reverse-reverse r.chain)
        (rw has-reverse r.distinct.0) (rw length-reverse f) in
    ground (arith, e, runs)
