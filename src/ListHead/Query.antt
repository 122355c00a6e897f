-- ===== src/ListHead/Query.antt =====
-- include/list.h: the tests.
use quark_os.Base.{
  ℕ, ◌≡◌, Bool, true, false, List, [], ◌∷◌, ◌++◌, some, arith, has-append, Snoc, none_left, last,
  snoc,
}
use quark_os.ListHead.{Heap, list_empty, list_empty_careful, list_is_last, list_is_singular}
use quark_os.ListHead.Ring.{Linked, Ring, Ring-rotate, Chain-split}

abbrev pub is_nil : List ℕ → Bool
is_nil [] = true
is_nil (_ ∷ _) = false

abbrev pub is_one : List ℕ → Bool
is_one [] = false
is_one (_ ∷ xs) = is_nil xs

module _ {h : Heap} {head : ℕ} where
  pub list_empty_lem : (xs : List ℕ) → Ring h head xs → list_empty head h ≡ some (is_nil xs, h)
  unfolding list_empty
  list_empty_lem [] r = ground arith
  list_empty_lem (x ∷ xs) r = ground arith

  -- list_empty_careful says whether a list has no entry, and changes nothing.
  pub list_empty_careful_lem :
      (xs : List ℕ) → Ring h head xs → list_empty_careful head h ≡ some (is_nil xs, h)
  unfolding list_empty_careful
  list_empty_careful_lem [] r = ground arith
  list_empty_careful_lem (x ∷ xs) r = ground arith

-- The last entry stands before the head.
pub prev_head : {h : Heap} (head l : ℕ) (xs : List ℕ) → Ring h head (xs ++ l ∷ []) → Linked h l head
prev_head head l xs r = (Ring-rotate head l xs [] r).chain.0

module _ {h : Heap} {head : ℕ} where
  singular-Snoc :
      (x : ℕ) {xs : List ℕ}
      → Snoc xs
      → Ring h head (x ∷ xs)
      → list_is_singular head h ≡ some (is_nil xs, h)
  unfolding list_is_singular
  singular-Snoc x none_left r = ground arith
  singular-Snoc x (last [] l) r = ground arith
  singular-Snoc x (last (y ∷ xs) l) r =
      ground (arith, prev_head head l (x ∷ y ∷ xs) r, has-append x xs (l ∷ []))

  -- list_is_singular says whether a list has one entry, and changes nothing.
  pub list_is_singular_lem :
      (xs : List ℕ) → Ring h head xs → list_is_singular head h ≡ some (is_one xs, h)
  unfolding list_is_singular
  list_is_singular_lem [] r = ground arith
  list_is_singular_lem (x ∷ xs) r = singular-Snoc x (snoc xs) r

  -- list_is_last of an entry of a list says whether no entry stands behind it, and changes
  -- nothing.
  pub list_is_last_lem :
      (xs ys : List ℕ) (e : ℕ)
      → Ring h head (xs ++ e ∷ ys)
      → list_is_last e head h ≡ some (is_nil ys, h)
  unfolding list_is_last
  list_is_last_lem xs [] e r = ground (arith, prev_head head e xs r)
  list_is_last_lem xs (y ∷ ys) e r =
      let (c, d) = Chain-split h head e head xs (y ∷ ys) r.chain in
      ground (arith, has-append y xs (e ∷ y ∷ ys), has-append head xs (e ∷ y ∷ ys))
