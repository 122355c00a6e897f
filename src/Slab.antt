-- ===== src/Slab.antt =====
-- kernel/slab.c: the layout of a slab and its chain of free objects.
--
-- A slab of `2 ^ order` pages starts with a `struct slab` of 28 bytes and one index for each
-- object, and the objects follow from `s_mem` on. The indices behind the structure are a function.
-- Numbers are 32 bits wide. No caller gives a constructor, so that `ctor` is NULL, and the flag
-- CFLGS_OFF_SLAB, whose branches are not written, is never set.
pub mod Estimate
pub mod Chain
mod Tests
use quark_os.Base.{ℕ, zero, suc, ◌+◌, ◌-◌, ◌*◌, ◌/◌, ◌%◌, ◌^◌, Bool, ◌==◌, ltb, if◌then◌else◌}

abbrev pub page_size : ℕ
page_size = 2 ^ 12

abbrev pub sizeof_slab : ℕ
sizeof_slab = 28

abbrev pub sizeof_bufctl : ℕ
sizeof_bufctl = 4

abbrev pub bufctl_end : ℕ
bufctl_end = 2 ^ 32 - 1

abbrev pub slab_limit : ℕ
slab_limit = 2 ^ 32 - 1 - 3

-- `cache_line_size()`
abbrev pub cache_line_size : ℕ
cache_line_size = 2 ^ 5

-- `ALIGN(a, b)`, for `b` a power of two.
abbrev pub align_up : (a b : ℕ) → ℕ
align_up a b = (a + b - 1) % 2 ^ 32 / b * b

unfoldable pub slab_mgmt_size : (nr_objs align : ℕ) → ℕ
slab_mgmt_size nr_objs align = align_up ((sizeof_slab + nr_objs * sizeof_bufctl) % 2 ^ 32) align

-- The number of objects of a slab, and the bytes left over, of which `size_t` keeps 32 bits.
unfoldable pub cache_num : (order buffer_size align : ℕ) → ℕ
cache_num order buffer_size align =
    let slab_size = page_size * 2 ^ order in
    let nr_objs = (slab_size - sizeof_slab) / ((buffer_size + sizeof_bufctl) % 2 ^ 32) in
    let fits =
      if ltb slab_size ((slab_mgmt_size nr_objs align + nr_objs * buffer_size) % 2 ^ 32)
      then nr_objs - 1
      else nr_objs in
    if ltb slab_limit fits then slab_limit else fits

unfoldable pub cache_left_over : (order buffer_size align : ℕ) → ℕ
cache_left_over order buffer_size align =
    let num = cache_num order buffer_size align in
    (2 ^ 33 + page_size * 2 ^ order - num * buffer_size % 2 ^ 32 - slab_mgmt_size num align)
    % 2 ^ 32

pub record Slab : Type 0 where
  pub colouroff : ℕ
  pub s_mem : ℕ
  pub inuse : ℕ
  pub free : ℕ
  pub nodeid : ℕ
  pub bufctl : ℕ → ℕ

-- Of `struct kmem_cache`, the fields that the operations on one slab read.
pub record Cache : Type 0 where
  pub num : ℕ
  pub buffer_size : ℕ
  pub slab_size : ℕ

abbrev pub set_bufctl : Slab → (i v : ℕ) → Slab
set_bufctl s i v = record s { bufctl = λ j. if j == i then v else s.bufctl j }

unfoldable pub index_to_obj : Cache → Slab → ℕ → ℕ
index_to_obj cache slab idx = (slab.s_mem + cache.buffer_size * idx) % 2 ^ 32

-- The slab at `objp + colour_off`. What stood in its indices is kept.
unfoldable pub alloc_slabmgmt : Cache → (objp colour_off nodeid : ℕ) → (bufctl : ℕ → ℕ) → Slab
alloc_slabmgmt cache objp colour_off nodeid bufctl =
    let colour_off = (colour_off + cache.slab_size) % 2 ^ 32 in
    record {
      colouroff = colour_off;
      s_mem = (objp + colour_off) % 2 ^ 32;
      inuse = 0;
      free = 0;
      nodeid = nodeid;
      bufctl = bufctl;
    }

-- The loop of cache_init_objs, from `i` on.
unfoldable pub link_objs : (left i : ℕ) → Slab → Slab
link_objs zero i s = s
link_objs (suc left) i s = link_objs left (i + 1) (set_bufctl s i (i + 1))

-- Without objects the last write meets the last word of the structure, which is `nodeid`.
unfoldable pub cache_init_objs : Cache → Slab → Slab
cache_init_objs cache s =
    let t = link_objs cache.num 0 s in
    if cache.num == 0
    then record t { nodeid = 2 ^ 16 - 1 }
    else set_bufctl t (cache.num - 1) bufctl_end

-- The object handed out, and the slab afterwards.
unfoldable pub slab_get_obj : Cache → Slab → ℕ
slab_get_obj cache s = index_to_obj cache s s.free

unfoldable pub slab_after_get : Slab → Slab
slab_after_get s = record s { inuse = (s.inuse + 1) % 2 ^ 32; free = s.bufctl s.free }
