-- ===== src/Mm.antt =====
-- kernel/mm.c and include/page.h: page structures, zones and the buddy allocator.
--
-- A `struct page *` is its index in `mem_map` (its page frame number), and `NULL` is `none`. The
-- list heads inside the page structures and the zones stand in one heap of `ListHead`, at their
-- addresses: i386 lays a `struct page` out in 20 bytes with `lru` at 12, a `struct zone` in 164
-- bytes with `free_areas` at 8 and 12 bytes for each area. The other fields are functions of the
-- index. The calls of printf are left out.
pub mod Lists
pub mod Addr
pub mod Foreign
pub mod Listed
pub mod Push
pub mod Pop
pub mod Cover
pub mod Taken
pub mod Split
pub mod Alloc
pub mod AllocPages
pub mod Buddy
pub mod Free
pub mod Overlap
pub mod Init
pub mod Areas
pub mod Setup
mod Tests
use quark_os.Base.{
  ℕ, zero, suc, ◌+◌, ◌-◌, ◌*◌, ◌/◌, ◌%◌, ◌^◌, Bool, true, false, not, ◌&&◌, ◌||◌, Option, none,
  some, ◌==◌, ltb, leb, if◌then◌else◌,
}
use Prim.Native.Nat.{bit_or, bit_xor}
use quark_os.ListHead.{Heap, Cmd, load_next, list_add, list_del, init_list_head, update}

-- Where the linker and mm_init put the arrays `mem_map` and `zones`.
pub record Layout : Type 0 where
  pub mem_map : ℕ
  pub zones : ℕ

-- `&page->lru`, and `list_entry(entry, struct page, lru)`.
abbrev pub lru : Layout → ℕ → ℕ
lru l page = l.mem_map + 20 * page + 12

abbrev pub page_of : Layout → ℕ → ℕ
page_of l entry = (entry - 12 - l.mem_map) / 20

-- `&zones[zone].free_areas[order].free_list`
abbrev pub area : Layout → (zone order : ℕ) → ℕ
area l zone order = l.zones + 164 * zone + 8 + 12 * order

abbrev pub page_shift : ℕ
page_shift = 12

abbrev pub zone_dma_pages : ℕ
zone_dma_pages = 16 * 1024 * 1024 / 2 ^ page_shift

abbrev pub max_order : ℕ
max_order = 11

abbrev pub zone_dma : ℕ
zone_dma = 0

abbrev pub zone_normal : ℕ
zone_normal = 1

pub record Mm : Type 0 where
  pub lists : Heap
  pub count : ℕ → ℕ
  pub flags : ℕ → ℕ
  pub nr_free : (zone order : ℕ) → ℕ
  pub spanned_pages : ℕ → ℕ
  pub free_pages : ℕ → ℕ
  pub zone_mem_map : ℕ → ℕ
  pub zonelist : ℕ → Option ℕ

-- `none` is a fault of a list operation, or `BUG()`.
abbrev pub M : Type 0 → Type 0
M A = Mm → Option (A × Mm)

abbrev pub pure : {A : Type 0} → A → M A
pure a s = some (a, s)

infixl 5 ◌>>=◌ ◌>>◌
abbrev pub ◌>>=◌ : {A B : Type 0} → M A → (A → M B) → M B
◌>>=◌ m f s = elim (m s) [ none ↦ none | some (a, s') ↦ f a s' ]

abbrev pub ◌>>◌ : {B : Type 0} → M (Unit {0}) → M B → M B
m >> k = m >>= λ _. k

abbrev pub bug : {A : Type 0} → M A
bug s = none

-- A list operation on the heap of the state.
abbrev pub on_lists : {A : Type 0} → Cmd A → M A
on_lists c s = elim (c s.lists) [ none ↦ none | some (a, h) ↦ some (a, record s { lists = h }) ]

abbrev pub write {ℓ} : {A : Type ℓ} → (ℕ → A) → ℕ → A → ℕ → A
write f i v j = if j == i then v else f j

abbrev pub write2 {ℓ} : {A : Type ℓ} → (ℕ → ℕ → A) → ℕ → ℕ → A → ℕ → ℕ → A
write2 f i k v j o = if j == i && o == k then v else f j o

abbrev pub set_nr_free : (zone order v : ℕ) → M (Unit {0})
set_nr_free zone order v s = some (tt, record s { nr_free = write2 s.nr_free zone order v })

-- An `unsigned long` counts modulo 2 ^ 32.
unfoldable pub inc_nr_free : (zone order : ℕ) → M (Unit {0})
inc_nr_free zone order s =
    some
      (tt, record s { nr_free = write2 s.nr_free zone order ((s.nr_free zone order + 1) % 2 ^ 32) })

unfoldable pub dec_nr_free : (zone order : ℕ) → M (Unit {0})
dec_nr_free zone order s = some (
  tt,
  record s {
    nr_free = write2 s.nr_free zone order ((s.nr_free zone order + (2 ^ 32 - 1)) % 2 ^ 32);
  },
)

-- `PG_ISSET(pg, bit)`: `flags & (1 << bit)`, for the bit PG_RVSD.
abbrev pub bit_of : ℕ → ℕ → Bool
bit_of flags bit = flags / 2 ^ bit % 2 == 1

abbrev pub pg_rvsd : ℕ
pg_rvsd = 1

abbrev pub is_rvsd : Mm → ℕ → Bool
is_rvsd s page = bit_of (s.flags page) pg_rvsd

-- The index of `page_zone(page)` in `zones`.
abbrev pub page_zone : Mm → ℕ → ℕ
page_zone s page = s.flags page / 2 ^ 30

abbrev pub set_page_count : (page count : ℕ) → M (Unit {0})
set_page_count page count s = some (tt, record s { count = write s.count page count })

unfoldable pub page_isfree : Mm → ℕ → Bool
page_isfree s page = s.count page == 0 && not (is_rvsd s page)

unfoldable pub page_is_buddy : Mm → (page order : ℕ) → Bool
page_is_buddy s page order = s.count page == 0 && not (is_rvsd s page)

-- The search of rmqueue, from `curr` on, over the orders that are left.
unfoldable pub find_blk : (left curr zone : ℕ) → Mm → Option ℕ
find_blk zero curr zone s = none
find_blk (suc left) curr zone s =
    if s.nr_free zone curr == 0 then find_blk left (curr + 1) zone s else some curr

-- The page frame number of the buddy of the block of order `order` at `page`.
unfoldable pub page_find_buddy : (page page_idx order : ℕ) → ℕ
page_find_buddy page page_idx order = page + bit_xor page_idx (2 ^ order) - page_idx

module _ (l : Layout) where
  -- The splitting of a block of order `curr` down to `order`: the upper half goes back.
  unfoldable pub split : (curr order zone page : ℕ) → M (Unit {0})
  split zero order zone page = pure tt
  split (suc curr) order zone page =
      let rest = do
        on_lists (list_add (lru l (page + 2 ^ curr)) (area l zone curr))
        inc_nr_free zone curr
        split curr order zone page
      in if ltb order (suc curr) then rest else pure tt

  -- The block at the front of the list of order `curr`, split down to `order`.
  unfoldable pub take_blk : (curr order zone : ℕ) → M ℕ
  take_blk curr order zone = do
    entry ← on_lists (load_next (area l zone curr))
    let page = page_of l entry
    on_lists (list_del (lru l page))
    dec_nr_free zone curr
    split curr order zone page
    pure page

  unfoldable pub rmqueue : (zone order : ℕ) → M (Option ℕ)
  rmqueue zone order s = elim (find_blk (max_order + 1 - order) order zone s) [
    | none ↦ some (none, s)
    | some curr ↦ (do page ← take_blk curr order zone; pure (some page)) s
  ]

  -- The walk over the zones of the zonelist, from `slot` on.
  unfoldable pub alloc_from : (slots slot order : ℕ) → M (Option ℕ)
  alloc_from zero slot order s = some (none, s)
  alloc_from (suc slots) slot order s = elim (s.zonelist slot) [
    | none ↦ some (none, s)
    | some zone ↦
        (do
          found ← rmqueue zone order
          elim found [
            | none ↦ alloc_from slots (slot + 1) order
            | some page ↦ do set_page_count page 1; pure (some page)
          ])
          s
  ]

  -- `order` is not negative. A zonelist has ZONE_NR + 1 slots.
  unfoldable pub alloc_pages : ℕ → M (Option ℕ)
  alloc_pages order = if ltb max_order order then pure none else alloc_from 4 0 order

  -- The merging of __free_pages, over the orders that are left below MAX_ORDER: it ends with the
  -- block and its order.
  unfoldable pub merge : (left order zone page : ℕ) → M (ℕ × ℕ)
  merge zero order zone page s = some ((page, order), s)
  merge (suc left) order zone page s =
      let page_idx = page % 2 ^ max_order in
      let buddy = page_find_buddy page page_idx order in
      let rest = do
        on_lists (list_del (lru l page))
        dec_nr_free zone order
        merge left (order + 1) zone (if ltb buddy page then buddy else page)
      in if page_is_buddy s buddy order then rest s else some ((page, order), s)

  unfoldable pub free_pages : (page order : ℕ) → M (Unit {0})
  free_pages page order s =
      let zone = page_zone s page in
      (do
        (block, top) ← merge (max_order - order) order zone page
        on_lists (list_add (lru l block) (area l zone top))
        set_page_count block 0
        inc_nr_free zone top)
        s
