-- ===== src/ListHead/Replace.antt =====
-- include/list.h: putting one entry in the place of another.
use quark_os.Base.{ℕ, ◌≡◌, List, [], ◌∷◌, ◌++◌, some, arith, ◌∉◌, has-append, Apart}
use quark_os.ListHead.{Heap, update, list_replace, list_replace_init}
use quark_os.ListHead.Ring.{
  IsNode, Ring, Ring-IsNode, Ring-rotate, SameOutside, SameOutside-mono, Ends, Ring-frame, some_of,
}
use quark_os.ListHead.Add.{init_list_head-Ring}
use quark_os.ListHead.Redirect.{prev-mem, Chain-redirect}
use quark_os.ListHead.Unlink.{not-mem_rest}

module _ (h : Heap) (old new : ℕ) where
  abbrev replaced : (next prev : ℕ) → Heap
  replaced next prev = record {
    next = update (update h.next new next) prev new;
    prev = update (update h.prev next new) new prev;
  }

  replace-Ring :
      (x l : ℕ) (xs : List ℕ)
      → Ring h old (x ∷ xs)
      → IsNode h new
      → new ∉ old ∷ x ∷ xs
      → h.prev old ≡ some l
      → (list_replace old new h ≡ some (tt, replaced x l))
        × Ring (replaced x l) new (x ∷ xs)
        × SameOutside (new ∷ x ∷ xs) h (replaced x l)
  unfolding list_replace
  replace-Ring x l xs r n out e =
      let i = prev-mem h x old l xs r.chain.1 e in
      let last_node = (Ring-IsNode (x ∷ xs) l r (ground arith)).next in
      (
        ground arith,
        record {
          chain = (
            ground arith,
            Chain-redirect h (replaced x l) x old l new xs r.chain.1 r.distinct.1 e (record {
              linked = ground arith;
              next = λ a k ne. ground arith;
              prev = λ a k. ground arith;
            }),
          );
          distinct = ground arith;
        },
        ground arith,
      )

  overwritten-Ring :
      Ring h old []
      → IsNode h new
      → new ∉ old ∷ []
      → Ends
          (λ g. Ring g new [] × SameOutside (new ∷ old ∷ []) h g × IsNode g old)
          (list_replace old new)
          h
  unfolding list_replace
  overwritten-Ring r n out =
      (replaced old new, ground arith, (ground arith, ground arith, ground arith))

  not_overwritten-Ring :
      (x : ℕ) (xs : List ℕ)
      → Ring h old (x ∷ xs)
      → IsNode h new
      → new ∉ old ∷ x ∷ xs
      → Ends
          (λ g. Ring g new (x ∷ xs) × SameOutside (new ∷ x ∷ xs) h g × IsNode g old)
          (list_replace old new)
          h
  not_overwritten-Ring x xs r n out =
      let node = (Ring-IsNode (x ∷ xs) old r (ground arith)).prev in
      let (l, e) = some_of (h.prev old) node in
      let p = replace-Ring x l xs r n out e in (replaced x l, p.0, (p.1, p.2, ground arith))

  -- The new list head takes the place of the old one, be that the head or an entry.
  list_replace-Ring :
      (xs : List ℕ)
      → Ring h old xs
      → IsNode h new
      → new ∉ old ∷ xs
      → Ends
          (λ g. Ring g new xs × SameOutside (new ∷ old ∷ xs) h g × IsNode g old)
          (list_replace old new)
          h
  list_replace-Ring [] r n out = overwritten-Ring r n out
  list_replace-Ring (x ∷ xs) r n out =
      let (g, runs, p) = not_overwritten-Ring x xs r n out in
      (g, runs, (p.0, SameOutside-mono _ _ p.1 (λ a o. ground arith), p.2))

-- list_replace puts an entry that is not in the list where the old one stood, writes nothing
-- outside the list and the new entry, and the old entry keeps its two links.
pub list_replace-append :
    {h : Heap} {head : ℕ} (xs ys : List ℕ) (old new : ℕ)
    → Ring h head (xs ++ old ∷ ys)
    → IsNode h new
    → new ∉ head ∷ xs ++ old ∷ ys
    → Ends
        (λ g.
          Ring g head (xs ++ new ∷ ys)
          × SameOutside (new ∷ head ∷ xs ++ old ∷ ys) h g
          × IsNode g old)
        (list_replace old new)
        h
list_replace-append {h} {head} xs ys old new r n out =
    let at_old = Ring-rotate head old xs ys r in
    let (g, runs, p) =
      list_replace-Ring h old new (ys ++ head ∷ xs) at_old n
        (ground (arith, has-append new ys (head ∷ xs), has-append new xs (old ∷ ys))) in
    (
      g,
      runs,
      (
        Ring-rotate new head ys xs p.0,
        SameOutside-mono _ _ p.1
            (λ a o. ground (arith, has-append a ys (head ∷ xs), has-append a xs (old ∷ ys))),
        p.2,
      ),
    )

-- list_replace_init puts an entry that is not in the list where the old one stood and makes the
-- old one an empty list.
pub list_replace_init-append :
    {h : Heap} {head : ℕ} (xs ys : List ℕ) (old new : ℕ)
    → Ring h head (xs ++ old ∷ ys)
    → IsNode h new
    → new ∉ head ∷ xs ++ old ∷ ys
    → Ends (λ g. Ring g head (xs ++ new ∷ ys) × Ring g old []) (list_replace_init old new) h
unfolding list_replace_init
list_replace_init-append {h} {head} xs ys old new r n out =
    let (g, runs, p) = list_replace-append xs ys old new r n out in
    let (g', runs', p') = init_list_head-Ring old p.2 in
    let apart : Apart (head ∷ xs ++ new ∷ ys) (old ∷ []) = λ a i. ground (
      arith,
      not-mem_rest head old xs ys r.distinct,
      has-append a xs ys,
      has-append a xs (new ∷ ys),
      has-append a xs (old ∷ ys),
    ) in
    (g', ground (arith, runs, runs'), (Ring-frame (xs ++ new ∷ ys) (old ∷ []) p.0 p'.1 apart, p'.0))
