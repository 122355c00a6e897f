-- ===== src/ListHead.antt =====
-- include/list.h: the heap of list heads and the operations on it.
--
-- A `struct list_head` stands at an address; `next` and `prev` give the two words of each, and
-- `none` is an address that holds no list head. Every function of the header is a command: it
-- reads and writes the two words in the order of the source, and a read or a write at an address
-- that holds no list head is a fault.
pub mod Ring
pub mod Add
mod Unlink
pub mod Del
pub mod Move
pub mod Replace
pub mod Query
mod Redirect
mod Join
pub mod Splice
pub mod Cut
pub mod Walk
mod Tests
use quark_os.Base.{
  ℕ, zero, suc, Bool, false, not, ◌&&◌, Option, none, some, List, [], ◌∷◌, ◌==◌, if◌then◌else◌,
}

pub record Heap : Type 0 where
  pub next : ℕ → Option ℕ
  pub prev : ℕ → Option ℕ

-- `none` is a fault.
abbrev pub Cmd : Type 0 → Type 0
Cmd A = Heap → Option (A × Heap)

abbrev pub pure : {A : Type 0} → A → Cmd A
pure a h = some (a, h)

infixl 5 ◌>>=◌ ◌>>◌
abbrev pub ◌>>=◌ : {A B : Type 0} → Cmd A → (A → Cmd B) → Cmd B
◌>>=◌ m f h = elim (m h) [ none ↦ none | some (a, h') ↦ f a h' ]

abbrev pub ◌>>◌ : {B : Type 0} → Cmd (Unit {0}) → Cmd B → Cmd B
m >> k = m >>= λ _. k

abbrev pub update : (ℕ → Option ℕ) → ℕ → ℕ → ℕ → Option ℕ
update f p v q = if q == p then some v else f q

-- The reads `p->next` and `p->prev`.
unfoldable pub load_next : ℕ → Cmd ℕ
load_next p h = elim (h.next p) [ none ↦ none | some q ↦ some (q, h) ]

unfoldable pub load_prev : ℕ → Cmd ℕ
load_prev p h = elim (h.prev p) [ none ↦ none | some q ↦ some (q, h) ]

-- The writes `p->next = q` and `p->prev = q`.
unfoldable pub store_next : ℕ → ℕ → Cmd (Unit {0})
store_next p q h = elim (h.next p) [
  | none ↦ none
  | some _ ↦ some (tt, record h { next = update h.next p q })
]

unfoldable pub store_prev : ℕ → ℕ → Cmd (Unit {0})
store_prev p q h = elim (h.prev p) [
  | none ↦ none
  | some _ ↦ some (tt, record h { prev = update h.prev p q })
]

abbrev pub poison1 : ℕ
poison1 = 0x00100100

abbrev pub poison2 : ℕ
poison2 = 0x00200200

unfoldable pub init_list_head : ℕ → Cmd (Unit {0})
unfolding store_next store_prev
init_list_head list = do store_next list list; store_prev list list

-- `__list_add`
unfoldable pub add_between : (new prev next : ℕ) → Cmd (Unit {0})
unfolding store_next store_prev
add_between new prev next = do
  store_prev next new
  store_next new next
  store_prev new prev
  store_next prev new

unfoldable pub list_add : (new head : ℕ) → Cmd (Unit {0})
unfolding load_next add_between
list_add new head = do add_between new head (← load_next head)

unfoldable pub list_add_tail : (new head : ℕ) → Cmd (Unit {0})
unfolding load_prev add_between
list_add_tail new head = do prev ← load_prev head; add_between new prev head

-- `__list_del`
unfoldable pub del_between : (prev next : ℕ) → Cmd (Unit {0})
unfolding store_next store_prev
del_between prev next = do store_prev next prev; store_next prev next

unfoldable pub list_del : ℕ → Cmd (Unit {0})
unfolding load_next load_prev del_between store_next store_prev
list_del entry = do
  prev ← load_prev entry
  next ← load_next entry
  del_between prev next
  store_next entry poison1
  store_prev entry poison2

unfoldable pub list_replace : (old new : ℕ) → Cmd (Unit {0})
unfolding load_next load_prev store_next store_prev
list_replace old new = do
  next ← load_next old
  store_next new next
  first ← load_next new
  store_prev first new
  prev ← load_prev old
  store_prev new prev
  last ← load_prev new
  store_next last new

unfoldable pub list_replace_init : (old new : ℕ) → Cmd (Unit {0})
unfolding list_replace init_list_head
list_replace_init old new = do list_replace old new; init_list_head old

unfoldable pub list_del_init : ℕ → Cmd (Unit {0})
unfolding load_next load_prev del_between init_list_head
list_del_init entry = do
  prev ← load_prev entry
  next ← load_next entry
  del_between prev next
  init_list_head entry

unfoldable pub list_move : (list head : ℕ) → Cmd (Unit {0})
unfolding load_next load_prev del_between list_add
list_move list head = do
  prev ← load_prev list
  next ← load_next list
  del_between prev next
  list_add list head

unfoldable pub list_move_tail : (list head : ℕ) → Cmd (Unit {0})
unfolding load_next load_prev del_between list_add_tail
list_move_tail list head = do
  prev ← load_prev list
  next ← load_next list
  del_between prev next
  list_add_tail list head

unfoldable pub list_is_last : (list head : ℕ) → Cmd Bool
unfolding load_next
list_is_last list head = do next ← load_next list; pure (next == head)

unfoldable pub list_empty : ℕ → Cmd Bool
unfolding load_next
list_empty head = do next ← load_next head; pure (next == head)

unfoldable pub list_empty_careful : ℕ → Cmd Bool
unfolding load_next load_prev
list_empty_careful head = do
  next ← load_next head
  if next == head then (do prev ← load_prev head; pure (next == prev)) else pure false

unfoldable pub list_is_singular : ℕ → Cmd Bool
unfolding list_empty load_next load_prev
list_is_singular head = do
  empty ← list_empty head
  if empty then pure false else do next ← load_next head; prev ← load_prev head; pure (next == prev)

-- `__list_cut_position`
unfoldable pub cut_after : (list head entry : ℕ) → Cmd (Unit {0})
unfolding load_next store_next store_prev
cut_after list head entry = do
  new_first ← load_next entry
  head_next ← load_next head
  store_next list head_next
  list_next ← load_next list
  store_prev list_next list
  store_prev list entry
  store_next entry list
  store_next head new_first
  store_prev new_first head

unfoldable pub list_cut_position : (list head entry : ℕ) → Cmd (Unit {0})
unfolding list_empty list_is_singular load_next init_list_head cut_after
list_cut_position list head entry = do
  empty ← list_empty head
  if empty then pure tt else do
    single ← list_is_singular head
    head_next ← load_next head
    if single && (not (head_next == entry) && not (head == entry))
        then pure tt
        else if entry == head
        then init_list_head list
        else cut_after list head entry

-- `__list_splice`
unfoldable pub splice_between : (list prev next : ℕ) → Cmd (Unit {0})
unfolding load_next load_prev store_next store_prev
splice_between list prev next = do
  first ← load_next list
  last ← load_prev list
  store_prev first prev
  store_next prev first
  store_next last next
  store_prev next last

unfoldable pub list_splice : (list head : ℕ) → Cmd (Unit {0})
unfolding list_empty load_next splice_between
list_splice list head = do
  empty ← list_empty list
  if empty then pure tt else do next ← load_next head; splice_between list head next

unfoldable pub list_splice_tail : (list head : ℕ) → Cmd (Unit {0})
unfolding list_empty load_prev splice_between
list_splice_tail list head = do
  empty ← list_empty list
  if empty then pure tt else do prev ← load_prev head; splice_between list prev head

unfoldable pub list_splice_init : (list head : ℕ) → Cmd (Unit {0})
unfolding list_empty load_next splice_between init_list_head
list_splice_init list head = do
  empty ← list_empty list
  if empty
      then pure tt
      else do next ← load_next head; splice_between list head next; init_list_head list

unfoldable pub list_splice_tail_init : (list head : ℕ) → Cmd (Unit {0})
unfolding list_empty load_prev splice_between init_list_head
list_splice_tail_init list head = do
  empty ← list_empty list
  if empty
      then pure tt
      else do prev ← load_prev head; splice_between list prev head; init_list_head list

-- `list_for_each` over `pos`: the entries in the order in which the loop meets them. The walk ends
-- at the head; the fuel bounds its rounds.
unfoldable pub walk : ℕ → (pos head : ℕ) → Cmd (List ℕ)
unfolding load_next
walk zero pos head = λ _. none
walk (suc fuel) pos head =
    let rest = do next ← load_next pos; entries ← walk fuel next head; pure (pos ∷ entries)
    in if pos == head then pure [] else rest

unfoldable pub list_for_each : ℕ → ℕ → Cmd (List ℕ)
unfolding load_next walk
list_for_each fuel head = do walk fuel (← load_next head) head

-- `list_for_each_prev`
unfoldable pub walk_prev : ℕ → (pos head : ℕ) → Cmd (List ℕ)
unfolding load_prev
walk_prev zero pos head = λ _. none
walk_prev (suc fuel) pos head =
    let rest = do prev ← load_prev pos; entries ← walk_prev fuel prev head; pure (pos ∷ entries)
    in if pos == head then pure [] else rest

unfoldable pub list_for_each_prev : ℕ → ℕ → Cmd (List ℕ)
unfolding load_prev walk_prev
list_for_each_prev fuel head = do walk_prev fuel (← load_prev head) head
