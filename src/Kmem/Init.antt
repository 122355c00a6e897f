-- ===== src/Kmem/Init.antt =====
-- kernel/slab.c, kmem_list3_init, kmem_cache_create and kmem_cache_init: the cache of caches.
pub mod Empty
use quark_os.Base.{ℕ, zero, suc, ◌+◌, ◌*◌, ◌^◌, Bool, true, false, some, ◌==◌, if◌then◌else◌}
use quark_os.ListHead.{init_list_head}
use quark_os.Mm.{Layout, max_order}
use quark_os.Slab.{Cache, cache_num, cache_line_size, align_up, sizeof_slab, sizeof_bufctl}
use quark_os.Kmem.{
  KmemCache, State, slabs_partial, slabs_full, slabs_free, K, ◌>>=◌, ◌>>◌, on_lists,
  kmem_cache_alloc,
}

abbrev pub reset : K (Unit {0})
reset s = some (tt, record s { colour_next = 0; free_objects = 0; free_touched = false })

unfoldable pub kmem_list3_init : KmemCache → K (Unit {0})
kmem_list3_init c = do
  on_lists (init_list_head (slabs_full c))
  on_lists (init_list_head (slabs_partial c))
  on_lists (init_list_head (slabs_free c))
  reset

-- `sizeof(struct kmem_cache)`
abbrev pub sizeof_kmem_cache : ℕ
sizeof_kmem_cache = 68

-- The first order from `order` on whose slabs have objects, and how many; `left` orders are left.
unfoldable pub find_order : (left order : ℕ) → ℕ × ℕ
find_order zero order = (order, 0)
find_order (suc left) order =
    let num = cache_num order sizeof_kmem_cache cache_line_size in
    let rest = find_order left (order + 1) in if num == 0 then rest else (order, num)

-- `cache_cache` with `initarray_cache`, as kmem_cache_init sets them; `nodelist` is
-- `&initkmem_list3`. The other fields are 0.
unfoldable pub cache_cache : Layout → (nodelist : ℕ) → KmemCache
cache_cache layout nodelist =
    let num = (find_order max_order 0).1 in
    record {
      layout = layout;
      cache = record {
        num = num;
        buffer_size = sizeof_kmem_cache;
        slab_size = align_up (num * sizeof_bufctl + sizeof_slab) cache_line_size;
      };
      gfporder = 0;
      colour = 0;
      colour_off = cache_line_size;
      batchcount = 1;
      nodelist = nodelist;
    }

-- `kmem_cache_zalloc(&cache_cache, 0)`
unfoldable pub kmem_cache_create : KmemCache → (fuel : ℕ) → K ℕ
kmem_cache_create c fuel = kmem_cache_alloc c fuel true

-- It gives `malloc_sizes[0].cs_cachep`: the loop over the sizes ends after the first.
unfoldable pub kmem_cache_init : Layout → (nodelist fuel : ℕ) → K ℕ
kmem_cache_init layout nodelist fuel = do
  kmem_list3_init (cache_cache layout nodelist)
  kmem_list3_init (cache_cache layout nodelist)
  kmem_list3_init (cache_cache layout nodelist)
  kmem_cache_create (cache_cache layout nodelist) fuel
