-- ===== src/Kmem.antt =====
-- kernel/slab.c: allocation from a cache.
--
-- The slabs of a cache stand on the three lists of its `struct kmem_list3`, whose list heads and
-- those of the slabs are in the heap of the page allocator's state. A `struct slab` is known by its
-- address, which is that of its list head. Of `array_cache` and `kmem_list3` the state keeps the
-- fields that change; the fields of `struct kmem_cache` are a record. The calls of printf are left
-- out, and NULL is 0.
pub mod Lists
pub mod Serve
pub mod Fresh
pub mod Alloc
pub mod Grow
pub mod Enlarge
pub mod Supply
pub mod Init
pub mod Start
mod Tests
use quark_os.Base.{
  ℕ, zero, suc, ◌+◌, ◌-◌, ◌*◌, ◌^◌, ◌%◌, Bool, true, false, not, ◌&&◌, Option, none, some, ◌==◌,
  ltb, leb, if◌then◌else◌,
}
use quark_os.Ram.{Ram, memset}
use quark_os.ListHead.{Heap, Cmd, load_next, list_add, list_add_tail, list_del, update}
use quark_os.Mm.{Layout, Mm, alloc_pages}
use quark_os.Mm.Addr.{page_address}
use quark_os.Slab.{
  Slab, Cache, bufctl_end, alloc_slabmgmt, cache_init_objs, slab_get_obj, slab_after_get,
}

pub record KmemCache : Type 0 where
  pub layout : Layout
  pub cache : Cache
  pub gfporder : ℕ
  pub colour : ℕ
  pub colour_off : ℕ
  pub batchcount : ℕ
  pub nodelist : ℕ

pub record State : Type 0 where
  pub mm : Mm
  pub ram : Ram
  pub slab_at : ℕ → Slab
  pub avail : ℕ
  pub touched : Bool
  pub entry : ℕ → ℕ
  pub free_objects : ℕ
  pub colour_next : ℕ
  pub free_touched : Bool

-- The three list heads of `struct kmem_list3`.
abbrev pub slabs_partial : KmemCache → ℕ
slabs_partial c = c.nodelist

abbrev pub slabs_full : KmemCache → ℕ
slabs_full c = c.nodelist + 8

abbrev pub slabs_free : KmemCache → ℕ
slabs_free c = c.nodelist + 16

-- `none` is a fault of a list operation, `BUG()` or a run out of fuel.
abbrev pub K : Type 0 → Type 0
K A = State → Option (A × State)

abbrev pub pure : {A : Type 0} → A → K A
pure a s = some (a, s)

infixl 5 ◌>>=◌ ◌>>◌
abbrev pub ◌>>=◌ : {A B : Type 0} → K A → (A → K B) → K B
◌>>=◌ m f s = elim (m s) [ none ↦ none | some (a, s') ↦ f a s' ]

abbrev pub ◌>>◌ : {B : Type 0} → K (Unit {0}) → K B → K B
m >> k = m >>= λ _. k

abbrev pub bug : {A : Type 0} → K A
bug s = none

abbrev pub on_lists : {A : Type 0} → Cmd A → K A
on_lists m s = elim (m s.mm.lists) [
  | none ↦ none
  | some (a, h) ↦ some (a, record s { mm = record s.mm { lists = h } })
]

abbrev pub set_slab : (at : ℕ) → Slab → State → State
set_slab at slab s = record s { slab_at = λ a. if a == at then slab else s.slab_at a }

module _ (c : KmemCache) where
  unfoldable pub kmem_getpages : K ℕ
  kmem_getpages s = elim (alloc_pages c.layout c.gfporder s.mm) [
    | none ↦ none
    | some (none, mm) ↦ some (0, record s { mm = mm })
    | some (some page, mm) ↦ some (page_address page, record s { mm = mm })
  ]

  -- The memory at `slabp` becomes a `struct slab`, whose first two words are a list head.
  unfoldable pub new_slab : (objp offset : ℕ) → K (Unit {0})
  new_slab objp offset s =
      let slabp = (objp + offset) % 2 ^ 32 in
      let slab =
        cache_init_objs c.cache (alloc_slabmgmt c.cache objp offset 0 (s.slab_at slabp).bufctl) in
      let h = s.mm.lists in
      let raw : Heap = record { next = update h.next slabp 0; prev = update h.prev slabp 0 } in
      on_lists (list_add_tail slabp (slabs_free c)) (record (set_slab slabp slab s) {
        mm = record s.mm { lists = raw };
        free_objects = (s.free_objects + c.cache.num) % 2 ^ 32;
      })

  unfoldable pub next_colour : State → State
  next_colour s =
      let next = (s.colour_next + 1) % 2 ^ 32 in
      record s { colour_next = if leb c.colour next then 0 else next }

  unfoldable pub cache_grow : (objp : ℕ) → K (Unit {0})
  cache_grow objp s =
      let offset = s.colour_next * c.colour_off % 2 ^ 32 in
      (do
        objp ← if objp == 0 then kmem_getpages else pure objp
        if objp == 0 then bug else new_slab objp offset)
        (next_colour s)

  -- One object of the slab goes into the array.
  unfoldable pub take_obj : (slabp : ℕ) → State → State
  take_obj slabp s =
      let slab = s.slab_at slabp in
      let obj = slab_get_obj c.cache slab in
      record (set_slab slabp (slab_after_get slab) s) {
        entry = λ i. if i == s.avail then obj else s.entry i;
        avail = s.avail + 1;
      }

  -- `while (slabp->inuse < cachep->num && batchcount--)`: what is left of `batchcount`, 0 for -1.
  unfoldable pub take_objs : (batchcount slabp : ℕ) → State → ℕ × State
  take_objs zero slabp s = (0, s)
  take_objs (suc batchcount) slabp s =
      let rest = take_objs batchcount slabp (take_obj slabp s) in
      if ltb (s.slab_at slabp).inuse c.cache.num then rest else (suc batchcount, s)

  -- A slab is emptied into the array as far as asked for, and put on the list it then belongs to.
  unfoldable pub serve : (batchcount slabp : ℕ) → K ℕ
  serve batchcount slabp s =
      let (left, s) = take_objs batchcount slabp s in
      let list = if (s.slab_at slabp).free == bufctl_end then slabs_full c else slabs_partial c in
      (do on_lists (list_del slabp); on_lists (list_add slabp list); pure left) s

  abbrev pub touch_free : K (Unit {0})
  touch_free s = some (tt, record s { free_touched = true })

  -- The first slab of the free list, 0 for none.
  unfoldable pub find_free : K ℕ
  find_free = do
    touch_free
    entry ← on_lists (load_next (slabs_free c))
    pure (if entry == slabs_free c then 0 else entry)

  -- The first slab of the partial list, or else of the free list.
  unfoldable pub find_slab : K ℕ
  find_slab = do
    entry ← on_lists (load_next (slabs_partial c))
    if entry == slabs_partial c then find_free else pure entry

  -- `while (batchcount > 0)`
  unfoldable pub refill : (fuel batchcount : ℕ) → K (Unit {0})
  refill zero batchcount = bug
  refill (suc fuel) zero = pure tt
  refill (suc fuel) (suc batchcount) =
      let go_on : ℕ → K (Unit {0}) =
        λ slabp. (do left ← serve (suc batchcount) slabp; refill fuel left) in
      do slabp ← find_slab; if slabp == 0 then pure tt else go_on slabp

  -- `ac->entry[--ac->avail]`
  unfoldable pub pop : K ℕ
  pop s = some (s.entry (s.avail - 1), record s { avail = s.avail - 1 })

  abbrev pub is_empty : K Bool
  is_empty s = some (s.avail == 0, s)

  abbrev pub touch : K (Unit {0})
  touch s = some (tt, record s { touched = true })

  -- From the label `retry` on.
  unfoldable pub cache_alloc_refill : (fuel : ℕ) → K ℕ
  cache_alloc_refill zero s = none
  cache_alloc_refill (suc fuel) s =
      let batchcount = if not s.touched && ltb 16 c.batchcount then 16 else c.batchcount in
      let again : K ℕ = (do cache_grow 0; cache_alloc_refill fuel) in
      let got : K ℕ = (do touch; pop) in
      (do refill (batchcount + 1) batchcount; empty ← is_empty; if empty then again else got) s

  abbrev pub clear : (zeroed : Bool) (ret : ℕ) → K (Unit {0})
  clear zeroed ret s = some (
    tt,
    if zeroed && not (ret == 0)
        then record s { ram = memset c.cache.buffer_size ret 0 s.ram }
        else s,
  )

  -- `zeroed` is the flag __GFP_ZERO.
  unfoldable pub kmem_cache_alloc : (fuel : ℕ) (zeroed : Bool) → K ℕ
  kmem_cache_alloc fuel zeroed = do
    empty ← is_empty
    ret ← if empty then cache_alloc_refill fuel else pop
    clear zeroed ret
    pure ret
