-- ===== src/Kmem/Supply.antt =====
-- kmem_cache_alloc from a cache without a free object, on the page allocator.
use quark_os.Base.{ℕ, ◌+◌, ◌*◌, ◌^◌, ◌≤◌, ◌<◌, ◌≡◌, Option, some, List, [], ◌∷◌, ◌++◌, has, ◌∈◌}
use quark_os.Mm.{Mm}
use quark_os.Mm.Addr.{page_address, page_size}
use quark_os.Mm.Lists.{Blocks}
use quark_os.Mm.Foreign.{IsForeign}
use quark_os.Mm.Cover.{IsCovered}
use quark_os.Kmem.{KmemCache, State, slabs_partial, slabs_full, slabs_free}
use quark_os.Kmem.Serve.{HasSlabs}
use quark_os.Kmem.Grow.{IsNew}
use quark_os.Kmem.Enlarge.{asking, offset_of}

-- The state once the cache has the pages.
abbrev supplied : KmemCache → State → Mm → State
supplied c s mm = record (asking c s) { mm = mm }

-- The lists of a cache with full slabs only, of which the page allocator writes no list head.
pub record IsSeparate (c : KmemCache) (total : ℕ) (b : Blocks) (s : State) (fs : List ℕ)
    : Type 0 where
  pub foreign :
      (a : ℕ) → a ∈ slabs_partial c ∷ slabs_full c ∷ slabs_free c ∷ fs → IsForeign c.layout total a
  pub new : (p : ℕ) → IsCovered b p → IsNew c (page_address p + offset_of c s) [] fs []

module _ (c : KmemCache) (s : State) where
  -- An object of a new slab: its pages were free, and it stands right behind the management data.
  pub record Supplied (b : Blocks) (fs : List ℕ) (r : Option (ℕ × State)) : Type 0 where
    pub page : ℕ
    pub partial : List ℕ
    pub full : List ℕ
    pub free : List ℕ
    pub out : State
    pub was_free : (i : ℕ) → page ≤ i → i < page + 2 ^ c.gfporder → IsCovered b i
    pub within :
        page_address page + offset_of c s + c.cache.slab_size + c.cache.buffer_size
        ≤ page_address page + page_size * 2 ^ c.gfporder
    pub below : page_address page + page_size * 2 ^ c.gfporder ≤ 2 ^ 32
    pub runs : r ≡ some (page_address page + offset_of c s + c.cache.slab_size, out)
    pub slabs : HasSlabs c out partial full free
    pub avail : out.avail ≡ 0
    pub inuse : (out.slab_at (page_address page + offset_of c s)).inuse ≡ 1
    pub members :
        (a : ℕ)
        → has a (partial ++ full ++ free) ≡ has a (fs ++ (page_address page + offset_of c s) ∷ [])
