-- ===== src/ListHead/Tests.antt =====
-- Runs of the operations of include/list.h on one heap: the list at 10 has the entries 20 and 30,
-- the list at 40 has the entry 50, and the list at 60 is empty.
use quark_os.Base.{ℕ, ◌≡◌, ◌==◌, refl, Option, none, some, [], ◌∷◌, arith, if◌then◌else◌, Apart}
use quark_os.ListHead.{Heap, list_add, list_del, poison1, poison2}
use quark_os.ListHead.Ring.{IsNode, Ring, SameOutside, Ends}
use quark_os.ListHead.Add.{list_add-cons}
use quark_os.ListHead.Del.{Deleted, list_del-append}

abbrev next : ℕ → Option ℕ
next a =
    if a == 10
    then some 20
    else if a == 20
    then some 30
    else if a == 30
    then some 10
    else if a == 40
    then some 50
    else if a == 50
    then some 40
    else if a == 60
    then some 60
    else none

abbrev prev : ℕ → Option ℕ
prev a =
    if a == 10
    then some 30
    else if a == 20
    then some 10
    else if a == 30
    then some 20
    else if a == 40
    then some 50
    else if a == 50
    then some 40
    else if a == 60
    then some 60
    else none

abbrev lists : Heap
lists = record { next = next; prev = prev }

two_Ring : Ring lists 10 (20 ∷ 30 ∷ [])
two_Ring = record {
  chain = ((refl, refl), ((refl, refl), (refl, refl)));
  distinct = (refl, (refl, (refl, tt)));
}

one_Ring : Ring lists 40 (50 ∷ [])
one_Ring = record { chain = ((refl, refl), (refl, refl)); distinct = (refl, (refl, tt)) }

node : IsNode lists 60
node = record { next = refl; prev = refl }

two-one_Apart : Apart (10 ∷ 20 ∷ 30 ∷ []) (40 ∷ 50 ∷ [])
two-one_Apart a i = ground arith

list_add-cons_example :
    Ends
      (λ g. Ring g 10 (60 ∷ 20 ∷ 30 ∷ []) × SameOutside (60 ∷ 10 ∷ 20 ∷ 30 ∷ []) lists g)
      (list_add 60 10)
      lists
list_add-cons_example = list_add-cons (20 ∷ 30 ∷ []) 60 two_Ring node refl

list_del-append_example :
    Ends
      (λ g.
        Deleted lists 10 30 (20 ∷ []) [] g
        × (g.next 30 ≡ some poison1)
        × (g.prev 30 ≡ some poison2))
      (list_del 30)
      lists
list_del-append_example = list_del-append (20 ∷ []) [] two_Ring
