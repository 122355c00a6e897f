-- ===== src/Kmem/Start.antt =====
-- kernel/mm.c, mm_init: the page allocator, its test and the cache of caches.
use quark_os.Base.{ℕ, none, some}
use quark_os.Mm.{M}
use quark_os.Mm.Setup.{memory_pages, layout_of, init_pages, mm_test}
use quark_os.Kmem.{K, pure, ◌>>=◌, ◌>>◌}
use quark_os.Kmem.Init.{kmem_cache_init}

-- A step of the page allocator.
abbrev pub on_mm : {A : Type 0} → M A → K A
on_mm m s = elim (m s.mm) [ none ↦ none | some (a, mm) ↦ some (a, record s { mm = mm }) ]

-- `pg`, `zones` and `nodelist`, for `&initkmem_list3`, are the linker's.
unfoldable pub mm_init : (pg zones nodelist mem_size_kbytes fuel : ℕ) → K (Unit {0})
mm_init pg zones nodelist mem_size_kbytes fuel =
    let pages = memory_pages mem_size_kbytes in
    let l = layout_of pg zones pages in
    (do
      on_mm (init_pages pg zones pages)
      on_mm (mm_test l)
      cachep ← kmem_cache_init l nodelist fuel
      pure tt)
