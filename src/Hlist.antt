-- ===== src/Hlist.antt =====
-- include/list.h: the lists with a single pointer as head, hlist_head and hlist_node.
--
-- The memory gives the pointer in each word, `none` where nothing is mapped, and NULL is 0. The
-- field `first` of a head is the word at its address; `next` of a node is the word at its address,
-- and `pprev`, the address of the word that points to the node, the one behind it. Each function
-- reads and writes the words in the source's order and faults where nothing is mapped.
pub mod Chain
mod Tests
use quark_os.Base.{ℕ, zero, suc, ◌+◌, Bool, Option, none, some, List, [], ◌∷◌, ◌==◌, if◌then◌else◌}
use quark_os.ListHead.{poison1, poison2}

abbrev pub Words : Type 0
Words = ℕ → Option ℕ

-- `none` is a fault.
abbrev pub W : Type 0 → Type 0
W A = Words → Option (A × Words)

abbrev pub pure : {A : Type 0} → A → W A
pure a m = some (a, m)

infixl 5 ◌>>=◌ ◌>>◌
abbrev pub ◌>>=◌ : {A B : Type 0} → W A → (A → W B) → W B
◌>>=◌ c f m = elim (c m) [ none ↦ none | some (a, m') ↦ f a m' ]

abbrev pub ◌>>◌ : {B : Type 0} → W (Unit {0}) → W B → W B
c >> k = c >>= λ _. k

abbrev pub load_word : ℕ → W ℕ
load_word a m = elim (m a) [ none ↦ none | some v ↦ some (v, m) ]

abbrev pub set_word : (a v : ℕ) → Words → Words
set_word a v m k = if k == a then some v else m k

abbrev pub store_word : (a v : ℕ) → W (Unit {0})
store_word a v m = elim (m a) [ none ↦ none | some _ ↦ some (tt, set_word a v m) ]

-- `&n->pprev`
abbrev pub pprev : ℕ → ℕ
pprev n = n + 4

unfoldable pub init_hlist_head : ℕ → W (Unit {0})
init_hlist_head h = store_word h 0

unfoldable pub init_hlist_node : ℕ → W (Unit {0})
init_hlist_node n = do store_word n 0; store_word (pprev n) 0

unfoldable pub hlist_unhashed : ℕ → W Bool
hlist_unhashed n = do p ← load_word (pprev n); pure (p == 0)

unfoldable pub hlist_empty : ℕ → W Bool
hlist_empty h = do first ← load_word h; pure (first == 0)

-- `__hlist_del`
unfoldable pub hlist_unlink : ℕ → W (Unit {0})
hlist_unlink n = do
  next ← load_word n
  slot ← load_word (pprev n)
  store_word slot next
  if next == 0 then pure tt else store_word (pprev next) slot

unfoldable pub hlist_del : ℕ → W (Unit {0})
hlist_del n = do hlist_unlink n; store_word n poison1; store_word (pprev n) poison2

unfoldable pub hlist_del_init : ℕ → W (Unit {0})
hlist_del_init n =
    let out : W (Unit {0}) = (do hlist_unlink n; init_hlist_node n) in
    do unhashed ← hlist_unhashed n; if unhashed then pure tt else out

unfoldable pub hlist_add_head : (n h : ℕ) → W (Unit {0})
hlist_add_head n h = do
  first ← load_word h
  store_word n first
  if first == 0 then pure tt else store_word (pprev first) n
  store_word h n
  store_word (pprev n) h

unfoldable pub hlist_add_before : (n next : ℕ) → W (Unit {0})
hlist_add_before n next = do
  slot ← load_word (pprev next)
  store_word (pprev n) slot
  store_word n next
  store_word (pprev next) n
  slot ← load_word (pprev n)
  store_word slot n

unfoldable pub hlist_add_after : (n next : ℕ) → W (Unit {0})
hlist_add_after n next = do
  after ← load_word n
  store_word next after
  store_word n next
  store_word (pprev next) n
  after ← load_word next
  if after == 0 then pure tt else store_word (pprev after) next

unfoldable pub hlist_move_list : (old new : ℕ) → W (Unit {0})
hlist_move_list old new = do
  first ← load_word old
  store_word new first
  if first == 0 then pure tt else store_word (pprev first) new
  store_word old 0

-- The nodes that `hlist_for_each` meets, from the node in the word `slot` on; `none` is also a run
-- out of fuel.
unfoldable pub hlist_walk : (fuel slot : ℕ) → Words → Option (List ℕ)
hlist_walk zero slot m = none
hlist_walk (suc fuel) slot m = elim (m slot) [
  | none ↦ none
  | some n ↦
      let rest = hlist_walk fuel n m in
      if n == 0 then some [] else elim rest [ none ↦ none | some ns ↦ some (n ∷ ns) ]
]
