-- ===== src/Hlist/Tests.antt =====
-- Nodes at 100 and 200, put in the list at 8, and one of them taken out again.
use quark_os.Base.{◌≡◌, refl, Option, none, some, [], ◌∷◌}
use quark_os.Hlist.{
  Words, hlist_add_head, hlist_add_after, hlist_unlink, hlist_del, hlist_del_init, hlist_unhashed,
  init_hlist_node, hlist_move_list, hlist_walk, ◌>>◌,
}

abbrev empty : Words
empty a = some 0

abbrev words_of : Option (Unit {0} × Words) → Words
words_of none = empty
words_of (some (u, m)) = m

two_nodes :
    hlist_walk 3 8 (words_of ((hlist_add_head 100 8 >> hlist_add_after 100 200) empty))
    ≡ some (100 ∷ 200 ∷ [])
unfolding hlist_add_head hlist_add_after hlist_walk
two_nodes = refl

first_deleted :
    hlist_walk 3 8
      (words_of ((hlist_add_head 100 8 >> (hlist_add_after 100 200 >> hlist_del 100)) empty))
    ≡ some (200 ∷ [])
unfolding hlist_add_head hlist_add_after hlist_del hlist_unlink hlist_walk
first_deleted = refl

moved :
    hlist_walk 3 16 (
      words_of (
        (hlist_add_head 100 8
            >> (hlist_add_head 200 8 >> (hlist_del_init 100 >> hlist_move_list 8 16)))
          empty))
    ≡ some (200 ∷ [])
unfolding hlist_add_head hlist_del_init hlist_unhashed hlist_unlink init_hlist_node hlist_move_list
    hlist_walk
moved = refl
