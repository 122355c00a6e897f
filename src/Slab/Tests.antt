-- ===== src/Slab/Tests.antt =====
-- The slab of kmem_cache structures, which have 68 bytes, in one page.
use quark_os.Base.{◌+◌, ◌*◌, ◌^◌, ◌≤◌, ◌<◌, ◌≡◌, refl, [], ◌∷◌, arith}
use quark_os.Slab.{
  Cache, page_size, cache_line_size, cache_num, slab_mgmt_size, cache_init_objs, alloc_slabmgmt,
}
use quark_os.Slab.Estimate.{used, cache_num-used}
use quark_os.Slab.Chain.{got, after_got, got-cache_init_objs}

abbrev cache : Cache
cache = record { num = 56; buffer_size = 68; slab_size = 256 }

cache_num-used_example :
    (used (cache_num 0 68 cache_line_size) 68 ≤ page_size * 2 ^ 0)
    × (page_size * 2 ^ 0 < used (cache_num 0 68 cache_line_size + 1) 68)
cache_num-used_example = cache_num-used 0 68 (omega arith) (omega arith) (omega arith)

-- The number of objects that the estimate gives.
num_test : cache_num 0 68 cache_line_size ≡ 56
unfolding cache_num slab_mgmt_size
num_test = refl

got-cache_init_objs_example :
    (got 3 cache (cache_init_objs cache (alloc_slabmgmt cache 4096 32 0 (λ i. 0)))
      ≡ 4384 ∷ 4452 ∷ 4520 ∷ [])
    × ((after_got 3 (cache_init_objs cache (alloc_slabmgmt cache 4096 32 0 (λ i. 0)))).inuse ≡ 3)
    × ((after_got 3 (cache_init_objs cache (alloc_slabmgmt cache 4096 32 0 (λ i. 0)))).free ≡ 3)
got-cache_init_objs_example =
    got-cache_init_objs 3 cache 4096 32 0 (λ i. 0) (omega arith) (omega arith) (omega arith)
      (omega arith) (omega arith)

-- Of 8 bytes each the 338 objects take more than the page: one object less does not make room for
-- the rounding of the indices.
small_object_test : page_size * 2 ^ 0 < used (cache_num 0 8 cache_line_size) 8
unfolding cache_num slab_mgmt_size
small_object_test = omega arith
