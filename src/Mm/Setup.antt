-- ===== src/Mm/Setup.antt =====
-- kernel/mm.c, mm_init and mm_test: the page allocator at start.
pub mod Covered
pub mod Torn
pub mod Null
mod Tests
use quark_os.Base.{ℕ, ◌+◌, ◌-◌, ◌*◌, ◌/◌, ◌%◌, ◌^◌, Option, none, some, if◌then◌else◌}
use quark_os.Mm.{Layout, Mm, M, pure, ◌>>=◌, ◌>>◌, bug, alloc_pages, free_pages}
use quark_os.Mm.Addr.{page_align, virt_to_page}
use quark_os.Mm.Init.{mm_reserved_init, zone_init, page_init}
use quark_os.Mm.Areas.{free_area_init}

-- `PGDIR_SIZE`
abbrev pub pgdir_size : ℕ
pgdir_size = 4096

-- `sizeof(struct page)`
abbrev pub sizeof_page : ℕ
sizeof_page = 20

-- `(mem_size_kbytes + 1024) >> 2`, on 32 bits.
unfoldable pub memory_pages : (mem_size_kbytes : ℕ) → ℕ
memory_pages mem_size_kbytes = (mem_size_kbytes + 1024) % 2 ^ 32 / 4

-- `mem_map`: behind the page directory and the page tables.
unfoldable pub mem_map_start : (pg pages : ℕ) → ℕ
mem_map_start pg pages = page_align ((pg + pgdir_size + pages * 4 % 2 ^ 32) % 2 ^ 32)

-- `free_mem_start`: behind the page structures.
unfoldable pub free_mem_start : (pg pages : ℕ) → ℕ
free_mem_start pg pages = page_align ((mem_map_start pg pages + pages * sizeof_page) % 2 ^ 32)

-- Where the arrays of the page allocator stand; `pg` and `zones` are the linker's.
unfoldable pub layout_of : (pg zones pages : ℕ) → Layout
layout_of pg zones pages = record { mem_map = mem_map_start pg pages; zones = zones }

-- The calls of mm_init up to free_area_init.
unfoldable pub init_pages : (pg zones pages : ℕ) → M (Unit {0})
init_pages pg zones pages s =
    let l = layout_of pg zones pages in
    elim (virt_to_page (free_mem_start pg pages)) [
      | none ↦ bug s
      | some end ↦
          (do mm_reserved_init l end 0; zone_init l; page_init l pages 0; free_area_init l) s
    ]

-- A page is taken and given back; `none` is also the use of NULL as a page.
unfoldable pub mm_test : Layout → M (Unit {0})
mm_test l = do found ← alloc_pages l 0; elim found [ none ↦ bug | some page ↦ free_pages l page 0 ]
