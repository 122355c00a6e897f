-- ===== src/ListHead/Splice.antt =====
-- include/list.h: joining two lists.
use mathlib.Core.List.{append-nil}
use quark_os.Base.{ℕ, refl, List, [], ◌∷◌, ◌++◌, arith, ◌∉◌, has-append, Apart}
use quark_os.ListHead.{
  Heap, init_list_head, list_splice, list_splice_init, list_splice_tail, list_splice_tail_init,
}
use quark_os.ListHead.Ring.{IsNode-frame, Ring, Ring-IsNode, SameOutside, Ends, Ring-frame}
use quark_os.ListHead.Add.{init_list_head-Ring}
use quark_os.ListHead.Join.{Joined, splice_between-Joined, splice_between-Joined_tail}

module _ {h : Heap} (list head : ℕ) where
  -- list_splice puts the entries of a list in front of those of another that shares no list head
  -- with it, in their order, and writes nothing but list heads of those entries, of the other
  -- list and its head.
  pub list_splice-append :
      (xs ys : List ℕ)
      → Ring h list xs
      → Ring h head ys
      → Apart (list ∷ xs) (head ∷ ys)
      → Ends (Joined h head xs ys) (list_splice list head) h
  unfolding list_splice
  list_splice-append [] ys r q apart = (h, ground arith, record { ring = q; same = ground arith })
  list_splice-append (x ∷ xs) ys r q apart =
      let (next, at_next, (g, runs, p)) = splice_between-Joined list head x xs ys r q apart in
      (g, ground (arith, runs), p)

  -- list_splice_tail puts the entries of a list behind those of another that shares no list head
  -- with it, in their order, and writes nothing but list heads of those entries, of the other
  -- list and its head.
  pub list_splice_tail-append :
      (xs ys : List ℕ)
      → Ring h list xs
      → Ring h head ys
      → Apart (list ∷ xs) (head ∷ ys)
      → Ends
          (λ g. Ring g head (ys ++ xs) × SameOutside (ys ++ head ∷ xs) h g)
          (list_splice_tail list head)
          h
  unfolding list_splice_tail
  list_splice_tail-append [] ys r q apart = (h, ground arith, (rw append-nil q, ground arith))
  list_splice_tail-append (x ∷ xs) ys r q apart =
      let (prev, at_prev, (g, runs, p)) = splice_between-Joined_tail list head x xs ys r q apart in
      (g, ground (arith, runs), (p.ring, p.same))

  -- After the splice `list` is initialised, which leaves the joined ring alone.
  emptied :
      (g : Heap) (xs ts ws : List ℕ)
      → Ring h list xs
      → Ring g head ts
      → SameOutside ws h g
      → list ∉ ws
      → list ∉ head ∷ ts
      → Ends
          (λ k. Ring k head ts × Ring k list [] × SameOutside (list ∷ ws) h k)
          (init_list_head list)
          g
  emptied g xs ts ws r t s o i =
      let node = IsNode-frame list ws (Ring-IsNode xs list r (ground arith)) s o in
      let (k, runs, p) = init_list_head-Ring list node in
      (
        k,
        runs,
        (
          Ring-frame ts (list ∷ []) t p.1 (λ a j. ground arith),
          p.0,
          record {
            next = λ a j. ground (arith, p.1.next a, s.next a);
            prev = λ a j. ground (arith, p.1.prev a, s.prev a);
          },
        ),
      )

  -- list_splice_init puts the entries of a list in front of those of another that shares no list
  -- head with it, leaves the first list empty, and writes nothing outside the two.
  pub list_splice_init-append :
      (xs ys : List ℕ)
      → Ring h list xs
      → Ring h head ys
      → Apart (list ∷ xs) (head ∷ ys)
      → Ends
          (λ g. Ring g head (xs ++ ys) × Ring g list [] × SameOutside (list ∷ xs ++ head ∷ ys) h g)
          (list_splice_init list head)
          h
  unfolding list_splice_init
  list_splice_init-append [] ys r q apart =
      (h, ground arith, (q, r, record { next = λ a i. refl; prev = λ a i. refl }))
  list_splice_init-append (x ∷ xs) ys r q apart =
      let (next, at_next, (g, runs, p)) = splice_between-Joined list head x xs ys r q apart in
      let (k, runs', p') =
        emptied g (x ∷ xs) (x ∷ xs ++ ys) (x ∷ xs ++ head ∷ ys) r p.ring p.same
          (ground (arith, apart list, r.distinct, has-append list xs (head ∷ ys)))
          (ground (arith, apart list, r.distinct, has-append list xs ys)) in
      (k, ground (arith, at_next, runs, runs'), p')

  -- list_splice_tail_init puts the entries of a list behind those of another that shares no list
  -- head with it, leaves the first list empty, and writes nothing outside the two.
  pub list_splice_tail_init-append :
      (xs ys : List ℕ)
      → Ring h list xs
      → Ring h head ys
      → Apart (list ∷ xs) (head ∷ ys)
      → Ends
          (λ g. Ring g head (ys ++ xs) × Ring g list [] × SameOutside (list ∷ ys ++ head ∷ xs) h g)
          (list_splice_tail_init list head)
          h
  unfolding list_splice_tail_init
  list_splice_tail_init-append [] ys r q apart =
      (h, ground arith, (rw append-nil q, r, record { next = λ a i. refl; prev = λ a i. refl }))
  list_splice_tail_init-append (x ∷ xs) ys r q apart =
      let (prev, at_prev, (g, runs, p)) = splice_between-Joined_tail list head x xs ys r q apart in
      let (k, runs', p') =
        emptied g (x ∷ xs) (ys ++ x ∷ xs) (ys ++ head ∷ x ∷ xs) r p.ring p.same
          (ground (arith, apart list, r.distinct, has-append list ys (head ∷ x ∷ xs)))
          (ground (arith, apart list, r.distinct, has-append list ys (x ∷ xs))) in
      (k, ground (arith, at_prev, runs, runs'), p')
