-- ===== src/ListHead/Add.antt =====
-- include/list.h: insertion.
use quark_os.Base.{
  ℕ, ◌≡◌, ◌∙◌, some, List, [], ◌∷◌, ◌++◌, arith, ◌∉◌, has-append, Snoc, none_left, last, snoc,
}
use mathlib.Core.List.{append_assoc}
use quark_os.ListHead.{Heap, update, init_list_head, add_between, list_add, list_add_tail}
use quark_os.ListHead.Ring.{
  IsNode, Linked, Ring, SameOutside, Ends, Chain-frame, Ring-rotate, SameOutside-mono,
}

-- INIT_LIST_HEAD of a list head makes it an empty list and writes nothing else.
pub init_list_head-Ring :
    {h : Heap} (list : ℕ)
    → IsNode h list
    → Ends (λ g. Ring g list [] × SameOutside (list ∷ []) h g) (init_list_head list) h
unfolding init_list_head
init_list_head-Ring {h} list n = (
  record { next = update h.next list list; prev = update h.prev list list },
  ground arith,
  (ground arith, ground arith),
)

abbrev inserted : Heap → (new prev next : ℕ) → Heap
inserted h new prev next = record {
  next = update (update h.next new next) prev new;
  prev = update (update h.prev next new) new prev;
}

add_between-inserted :
    {h : Heap} (new prev next : ℕ)
    → IsNode h new
    → Linked h prev next
    → add_between new prev next h ≡ some (tt, inserted h new prev next)
unfolding add_between
add_between-inserted new prev next n l = ground arith

-- list_add puts an entry that is not in the list in front of its entries and writes nothing
-- outside the list and the entry.
pub list_add-cons :
    {h : Heap} {head : ℕ} (xs : List ℕ) (new : ℕ)
    → Ring h head xs
    → IsNode h new
    → new ∉ head ∷ xs
    → Ends (λ g. Ring g head (new ∷ xs) × SameOutside (new ∷ head ∷ xs) h g) (list_add new head) h
unfolding list_add
list_add-cons {h} {head} [] new r n out = (
  inserted h new head head,
  ground (arith, add_between-inserted new head head n r.chain),
  (ground arith, ground arith),
)
list_add-cons {h} {head} (x ∷ xs) new r n out = (
  inserted h new head x,
  ground (arith, add_between-inserted new head x n r.chain.0),
  (
    record {
      chain = (
        ground arith,
        (ground arith, Chain-frame x head xs r.chain.1 (λ a i. ground arith) (λ a i. ground arith)),
      );
      distinct = ground arith;
    },
    ground arith,
  ),
)

-- `list_add_tail` is `list_add` behind the last entry.
list_add_tail-list_add :
    (h : Heap) (head l new : ℕ) → Linked h l head → list_add_tail new head h ≡ list_add new l h
unfolding list_add_tail list_add
list_add_tail-list_add h head l new e = ground arith

list_add_tail-Snoc :
    {h : Heap} {head : ℕ} {xs : List ℕ} (new : ℕ)
    → Snoc xs
    → Ring h head xs
    → IsNode h new
    → new ∉ head ∷ xs
    → Ends
        (λ g. Ring g head (xs ++ new ∷ []) × SameOutside (new ∷ head ∷ xs) h g)
        (list_add_tail new head)
        h
list_add_tail-Snoc {h} {head} new none_left r n out =
    rw (list_add_tail-list_add h head head new r.chain) (list_add-cons [] new r n out)
list_add_tail-Snoc {h} {head} new (last xs l) r n out =
    let at_last = Ring-rotate head l xs [] r in
    let (g, runs, so) =
      list_add-cons (head ∷ xs) new at_last n (ground (arith, has-append new xs (l ∷ []))) in
    (
      g,
      list_add_tail-list_add h head l new at_last.chain.0 ∙ runs,
      (
        rw (append_assoc xs) (Ring-rotate l head (new ∷ []) xs so.0),
        SameOutside-mono _ _ so.1 λ a i. ground (arith, has-append a xs (l ∷ [])),
      ),
    )

-- list_add_tail puts an entry that is not in the list behind its entries and writes nothing
-- outside the list and the entry.
pub list_add_tail-append :
    {h : Heap} {head : ℕ} (xs : List ℕ) (new : ℕ)
    → Ring h head xs
    → IsNode h new
    → new ∉ head ∷ xs
    → Ends
        (λ g. Ring g head (xs ++ new ∷ []) × SameOutside (new ∷ head ∷ xs) h g)
        (list_add_tail new head)
        h
list_add_tail-append xs new r n out = list_add_tail-Snoc new (snoc xs) r n out
