-- ===== src/Kmem/Tests.antt =====
-- A cache of 56 objects of 68 bytes: an allocation from a slab at 0xC0200000, and one that makes
-- this slab of a free page.
use quark_os.Base.{
  ℕ, ◌+◌, ◌%◌, ◌^◌, ◌≡◌, ◌≢◌, refl, true, false, ◌&&◌, Option, none, some, [], ◌∷◌, arith, ◌==◌,
  if◌then◌else◌,
}
use quark_os.ListHead.Ring.{Ring}
use quark_os.Mm.{lru, area}
use quark_os.Mm.Lists.{Blocks}
use quark_os.Kmem.{KmemCache, State, new_slab}
use quark_os.Kmem.Serve.{HasSlabs}
use quark_os.Kmem.Alloc.{Gives, kmem_cache_alloc_lem}
use quark_os.Kmem.Grow.{new_slab_lem}
use quark_os.Kmem.Init.{kmem_list3_init}
use quark_os.Kmem.Init.Empty.{kmem_list3_init_lem}

abbrev cache_cache : KmemCache
cache_cache = record {
  layout = record { mem_map = 4194304 + 4096; zones = 4194304 };
  cache = record { num = 56; buffer_size = 68; slab_size = 256 };
  gfporder = 0;
  colour = 0;
  colour_off = 32;
  batchcount = 1;
  nodelist = 4096;
}

-- Every address holds an empty list.
abbrev start : State
start = record {
  mm = record {
    lists = record { next = λ a. some a; prev = λ a. some a };
    count = λ page. 0;
    flags = λ page. 0;
    nr_free = λ zone order. 0;
    spanned_pages = λ zone. 0;
    free_pages = λ zone. 0;
    zone_mem_map = λ zone. 0;
    zonelist = λ slot. none;
  };
  ram = λ a. 1;
  slab_at =
      λ a. record { colouroff = 0; s_mem = 0; inuse = 0; free = 0; nodeid = 0; bufctl = λ i. 0 };
  avail = 0;
  touched = false;
  entry = λ i. 0;
  free_objects = 0;
  colour_next = 0;
  free_touched = false;
}

start-HasSlabs : HasSlabs cache_cache start [] [] []
start-HasSlabs = record {
  partial = record { chain = (refl, refl); distinct = (refl, tt) };
  full = record { chain = (refl, refl); distinct = (refl, tt) };
  free = record { chain = (refl, refl); distinct = (refl, tt) };
  partial_full = λ a i. ground arith;
  partial_free = λ a i. ground arith;
  full_free = λ a i. ground arith;
  in_partial = λ a i. absurd (ground arith);
  some_left = λ a i. absurd (ground arith);
  in_full = λ a i. absurd (ground arith);
  in_free = λ a i. absurd (ground arith);
  no_null = refl;
}

abbrev at : ℕ
at = 0xC0200000

one_slab :
    (t : State) × (new_slab cache_cache at 0 start ≡ some (tt, t))
    × HasSlabs cache_cache t [] [] ((at + 0) ∷ [])
    × ((a : ℕ) → a ≢ at + 0 → t.slab_at a ≡ start.slab_at a)
    × (t.free_objects ≡ (start.free_objects + cache_cache.cache.num) % 2 ^ 32)
    × (t.avail ≡ start.avail)
    × ((t.slab_at (at + 0)).s_mem ≡ at + (0 + cache_cache.cache.slab_size))
one_slab =
    new_slab_lem cache_cache start [] [] [] start-HasSlabs (omega arith) at 0 (omega arith)
      (omega arith, refl, refl, refl)

-- The state with one slab.
abbrev ready : State
ready = one_slab.0

kmem_cache_alloc_lem_example : Gives cache_cache 0 true ready (at + 0) [] [] ((at + 0) ∷ [])
kmem_cache_alloc_lem_example =
    kmem_cache_alloc_lem cache_cache 0 true ready one_slab.5 refl (omega arith) (at + 0) [] []
      ((at + 0) ∷ []) (omega arith) one_slab.2 refl

kmem_list3_init_lem_example :
    (t : State) × (kmem_list3_init cache_cache start ≡ some (tt, t))
    × HasSlabs cache_cache t [] [] []
    × (t.free_objects ≡ 0)
    × (t.avail ≡ start.avail)
kmem_list3_init_lem_example =
    kmem_list3_init_lem cache_cache start (record { next = refl; prev = refl })
      (record { next = refl; prev = refl }) (record { next = refl; prev = refl })

-- The page 512 is free: it is the one block of order 0 of the DMA zone.
abbrev block : ℕ
block = lru cache_cache.layout 512

abbrev dma : ℕ
dma = area cache_cache.layout 0 0

abbrev linked : ℕ → Option ℕ
linked a = if a == block then some dma else if a == dma then some block else some a

abbrev one_page : State
one_page = record start {
  mm = record start.mm {
    lists = record { next = linked; prev = linked };
    nr_free = λ zone order. if (zone == 0) && (order == 0) then 1 else 0;
    zonelist = λ slot. if slot == 0 then some 0 else none;
  };
}

abbrev blocks : Blocks
blocks zone order = if (zone == 0) && (order == 0) then 512 ∷ [] else []
