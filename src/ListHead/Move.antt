-- ===== src/ListHead/Move.antt =====
-- include/list.h: moving an entry to the front or to the back of a list.
use quark_os.Base.{ℕ, List, [], ◌∷◌, ◌++◌, arith, ◌∈◌, ◌∉◌, has-append, Apart}
use quark_os.ListHead.{Heap, list_move, list_move_tail}
use quark_os.ListHead.Ring.{IsNode, Ring, SameOutside, Ends, Ring-frame}
use quark_os.ListHead.Unlink.{Unlinked, Ring-Unlinked, not-mem_rest}
use quark_os.ListHead.Add.{list_add-cons, list_add_tail-append}

module _ {h : Heap} (head e : ℕ) (xs ys : List ℕ) (r : Ring h head (xs ++ e ∷ ys)) where
  abbrev taken : Unlinked h head e (xs ++ ys)
  taken = Ring-Unlinked xs ys r

  taken-IsNode : IsNode taken.out e
  taken-IsNode =
      let u = taken in
      let out = not-mem_rest head e xs ys r.distinct in
      record {
        next = ground (arith, u.at_next, u.same.next e);
        prev = ground (arith, u.at_prev, u.same.prev e);
      }

  -- Within one list list_move brings the entry to the front, keeps the others in their order and
  -- writes nothing outside the list.
  pub list_move-front :
      Ends
        (λ g. Ring g head (e ∷ xs ++ ys) × SameOutside (e ∷ head ∷ xs ++ ys) h g)
        (list_move e head)
        h
  unfolding list_move
  list_move-front =
      let u = taken in
      let out = not-mem_rest head e xs ys r.distinct in
      let (g, runs, p) = list_add-cons (xs ++ ys) e u.ring taken-IsNode out in
      (
        g,
        ground (arith, u.at_prev, u.at_next, u.runs, runs),
        (
          p.0,
          record {
            next = λ a o. ground (arith, p.1.next a, u.same.next a);
            prev = λ a o. ground (arith, p.1.prev a, u.same.prev a);
          },
        ),
      )

  -- Within one list list_move_tail brings the entry to the back, keeps the others in their order
  -- and writes nothing outside the list.
  pub list_move_tail-back :
      Ends
        (λ g. Ring g head ((xs ++ ys) ++ e ∷ []) × SameOutside (e ∷ head ∷ xs ++ ys) h g)
        (list_move_tail e head)
        h
  unfolding list_move_tail
  list_move_tail-back =
      let u = taken in
      let out = not-mem_rest head e xs ys r.distinct in
      let (g, runs, p) = list_add_tail-append (xs ++ ys) e u.ring taken-IsNode out in
      (
        g,
        ground (arith, u.at_prev, u.at_next, u.runs, runs),
        (
          p.0,
          record {
            next = λ a o. ground (arith, p.1.next a, u.same.next a);
            prev = λ a o. ground (arith, p.1.prev a, u.same.prev a);
          },
        ),
      )

  module _ (to : ℕ) (zs : List ℕ) (t : Ring h to zs)
      (apart : Apart (head ∷ xs ++ e ∷ ys) (to ∷ zs)) where
    mem : (a : ℕ) → a ∈ head ∷ xs ++ ys → a ∉ to ∷ zs
    mem a i = apart a (ground (arith, has-append a xs ys, has-append a xs (e ∷ ys)))

    e_out : e ∉ to ∷ zs
    e_out = apart e (ground (arith, has-append e xs (e ∷ ys)))

    target : Ring taken.out to zs
    target = Ring-frame zs (head ∷ xs ++ ys) t taken.same λ a i. ground (arith, mem a)

    both_same :
        (g : Heap)
        → SameOutside (e ∷ to ∷ zs) taken.out g
        → SameOutside ((to ∷ zs) ++ (head ∷ (xs ++ e ∷ ys))) h g
    both_same g s = record {
      next = λ a o. ground (
        arith,
        has-append a zs (head ∷ xs ++ e ∷ ys),
        has-append a xs (e ∷ ys),
        has-append a xs ys,
        s.next a,
        taken.same.next a,
      );
      prev = λ a o. ground (
        arith,
        has-append a zs (head ∷ xs ++ e ∷ ys),
        has-append a xs (e ∷ ys),
        has-append a xs ys,
        s.prev a,
        taken.same.prev a,
      );
    }

    -- list_move takes an entry out of its list, keeping the others in their order, and puts it in
    -- front of another list that shares no list head with the first, and writes nothing outside
    -- the two.
    pub list_move-cons :
        Ends
          (λ g.
            Ring g head (xs ++ ys)
            × Ring g to (e ∷ zs)
            × SameOutside ((to ∷ zs) ++ (head ∷ (xs ++ e ∷ ys))) h g)
          (list_move e to)
          h
    unfolding list_move
    list_move-cons =
        let u = taken in
        let out = not-mem_rest head e xs ys r.distinct in
        let (g, runs, p) = list_add-cons zs e target taken-IsNode e_out in
        (
          g,
          ground (arith, u.at_prev, u.at_next, u.runs, runs),
          (
            Ring-frame (xs ++ ys) (e ∷ to ∷ zs) u.ring p.1 (λ a i. ground (arith, mem a)),
            p.0,
            both_same g p.1,
          ),
        )

    -- list_move_tail takes an entry out of its list, keeping the others in their order, and puts
    -- it behind another list that shares no list head with the first, and writes nothing outside
    -- the two.
    pub list_move_tail-append :
        Ends
          (λ g.
            Ring g head (xs ++ ys)
            × Ring g to (zs ++ e ∷ [])
            × SameOutside ((to ∷ zs) ++ (head ∷ (xs ++ e ∷ ys))) h g)
          (list_move_tail e to)
          h
    unfolding list_move_tail
    list_move_tail-append =
        let u = taken in
        let out = not-mem_rest head e xs ys r.distinct in
        let (g, runs, p) = list_add_tail-append zs e target taken-IsNode e_out in
        (
          g,
          ground (arith, u.at_prev, u.at_next, u.runs, runs),
          (
            Ring-frame (xs ++ ys) (e ∷ to ∷ zs) u.ring p.1 (λ a i. ground (arith, mem a)),
            p.0,
            both_same g p.1,
          ),
        )
