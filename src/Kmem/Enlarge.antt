-- ===== src/Kmem/Enlarge.antt =====
-- kmem_cache_alloc from a cache without a free object: it grows, and tries again.
use quark_os.Base.{
  ℕ, suc, ◌+◌, ◌*◌, ◌%◌, ◌^◌, ◌<◌, ◌≡◌, ◌∙◌, ap, refl, Bool, true, some, List, [], ◌∷◌, ◌++◌, arith,
  has,
}
use quark_os.ListHead.{load_next}
use quark_os.Slab.{Slab, Cache, index_to_obj}
use quark_os.Kmem.{
  KmemCache, State, kmem_getpages, new_slab, next_colour, cache_grow, find_free, find_slab, refill,
  cache_alloc_refill, kmem_cache_alloc,
}
use quark_os.Kmem.Serve.{HasSlabs}
use quark_os.Kmem.Alloc.{kmem_cache_alloc_lem}
use quark_os.Kmem.Grow.{IsNew, new_slab_lem}

-- The state in which the cache asks for pages.
abbrev pub asking : KmemCache → State → State
asking c s = next_colour c (record s { free_touched = true })

abbrev pub offset_of : KmemCache → State → ℕ
offset_of c s = s.colour_next * c.colour_off % 2 ^ 32

first_obj :
    (cache : Cache) (slab : Slab) (objp offset : ℕ)
    → slab.inuse ≡ 0
    → slab.s_mem ≡ objp + (offset + cache.slab_size)
    → objp + (offset + cache.slab_size) < 2 ^ 32
    → index_to_obj cache slab slab.inuse ≡ objp + offset + cache.slab_size
unfolding index_to_obj
first_obj cache slab objp offset none_used mem room = rw none_used (omega (arith, mem, room))

module _ (c : KmemCache) where
  pub find_slab-none :
      (s : State) (fs : List ℕ)
      → HasSlabs c s [] fs []
      → find_slab c s ≡ some (0, record s { free_touched = true })
  unfolding find_slab find_free load_next
  find_slab-none s fs h = ground (arith, h.partial.chain.0, h.free.chain.0)

  cache_grow-new_slab :
      (s s₂ t : State) (objp : ℕ)
      → kmem_getpages c (next_colour c s) ≡ some (objp, s₂)
      → 0 < objp
      → new_slab c objp (offset_of c s) s₂ ≡ some (tt, t)
      → cache_grow c 0 s ≡ some (tt, t)
  unfolding cache_grow
  cache_grow-new_slab s s₂ t objp pages pos runs = ground (arith, pages, runs)

  refill_again :
      (s t : State) (fuel : ℕ)
      → s.avail ≡ 0
      → c.batchcount ≡ 1
      → find_slab c s ≡ some (0, record s { free_touched = true })
      → cache_grow c 0 (record s { free_touched = true }) ≡ some (tt, t)
      → cache_alloc_refill c (suc fuel) s ≡ cache_alloc_refill c fuel t
  unfolding cache_alloc_refill refill
  refill_again s t fuel e one nothing grown = ground (arith, e, one, nothing, grown)

  again :
      (s t : State) (fuel : ℕ) (zeroed : Bool)
      → s.avail ≡ 0
      → t.avail ≡ 0
      → cache_alloc_refill c (suc fuel) s ≡ cache_alloc_refill c fuel t
      → kmem_cache_alloc c (suc fuel) zeroed s ≡ kmem_cache_alloc c fuel zeroed t
  unfolding kmem_cache_alloc
  again s t fuel zeroed e e' same = ground (arith, e, e', same)

  -- When the array is empty, no slab is on the partial or the free list, the full list is linked
  -- and kmem_getpages returns an address other than 0 and leaves the slabs' lists and the array
  -- alone, and the slab at that address plus the colour's offset is at the address of no list
  -- head in use, kmem_cache_alloc of a cache with batchcount 1 and with more than 0 and fewer
  -- than 2 ^ 32 objects in a slab ends after one retry and returns the first object of the new
  -- slab, right behind the slab's management data; that slab has one object in use, is the only
  -- one that joins the lists, and the slabs are again on the lists where they belong, with the
  -- array empty.
  pub kmem_cache_alloc-cache_grow :
      (fuel objp : ℕ) (zeroed : Bool) (s s₂ : State) (fs : List ℕ)
      → s.avail ≡ 0
      → c.batchcount ≡ 1
      → 0 < c.cache.num
      → c.cache.num < 2 ^ 32
      → HasSlabs c s [] fs []
      → kmem_getpages c (asking c s) ≡ some (objp, s₂)
      → 0 < objp
      → HasSlabs c s₂ [] fs []
      → s₂.avail ≡ 0
      → objp + (offset_of c s + c.cache.slab_size) < 2 ^ 32
      → IsNew c (objp + offset_of c s) [] fs []
      → let at = objp + offset_of c s in
        (ps' : List ℕ) × (fs' : List ℕ) × (frs' : List ℕ) × (t : State) × (kmem_cache_alloc c
            (suc (suc fuel))
            zeroed
            s
          ≡ some (at + c.cache.slab_size, t))
        × HasSlabs c t ps' fs' frs'
        × (t.avail ≡ 0)
        × ((t.slab_at at).inuse ≡ 1)
        × ((a : ℕ) → has a (ps' ++ fs' ++ frs') ≡ has a (fs ++ at ∷ []))
  kmem_cache_alloc-cache_grow fuel objp zeroed s s₂ fs e one pos small h pages real h₂ e₂ room new =
      let at = objp + offset_of c s in
      let (t, made, k, others, objects, still, mem) =
        new_slab_lem c s₂ [] fs [] h₂ pos objp (offset_of c s) room new in
      let grown =
        cache_grow-new_slab (record s { free_touched = true }) s₂ t objp pages real made in
      let (ps', fs', frs', u, runs, l, empty, more, rest, members) =
        kmem_cache_alloc_lem c fuel zeroed t (still ∙ e₂) one small at [] fs (at ∷ []) pos k refl in
      let unused = (k.in_free at (ground arith)).inuse in
      (
        ps',
        fs',
        frs',
        u,
        again s t (suc fuel) zeroed e (still ∙ e₂)
              (refill_again s t (suc fuel) e one (find_slab-none s fs h) grown)
            ∙ runs
            ∙ ap (λ (n : ℕ). some (n, u))
                (first_obj c.cache (t.slab_at at) objp (offset_of c s) unused mem room),
        l,
        empty,
        omega (arith, more, unused),
        members,
      )
