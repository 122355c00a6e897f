-- ===== src/Slab/Chain.antt =====
-- The chain of free objects: cache_init_objs and slab_get_obj.
use quark_os.Base.{
  ℕ, zero, suc, ◌+◌, ◌*◌, ◌^◌, ◌≤◌, ◌<◌, ◌≡◌, ◌∙◌, refl, ap, ◌&&◌, List, [], ◌∷◌, arith, ◌==◌, ltb,
  leb, if◌then◌else◌,
}
use native.Mathlib.Nat.{mul-le-mul_left, mul-add}
use quark_os.Slab.{
  Slab, Cache, set_bufctl, index_to_obj, alloc_slabmgmt, link_objs, cache_init_objs, slab_get_obj,
  slab_after_get, bufctl_end,
}

-- `n` calls of slab_get_obj: the objects in the order they are handed out, and the slab.
unfoldable pub got : ℕ → Cache → Slab → List ℕ
got zero cache s = []
got (suc n) cache s = slab_get_obj cache s ∷ got n cache (slab_after_get s)

unfoldable pub after_got : ℕ → Slab → Slab
after_got zero s = s
after_got (suc n) s = after_got n (slab_after_get s)

-- The addresses of `n` objects, from number `i` on.
abbrev pub objects : (n i s_mem buffer_size : ℕ) → List ℕ
objects zero i s_mem buffer_size = []
objects (suc n) i s_mem buffer_size =
    (s_mem + buffer_size * i) ∷ objects n (i + 1) s_mem buffer_size

-- What stands for the first free object once `i` of `num` are handed out.
abbrev pub free_at : (num i : ℕ) → ℕ
free_at num i = if i == num then bufctl_end else i

-- `i` objects are handed out, and the free ones are chained in order.
pub record IsChained (num i : ℕ) (s : Slab) : Type 0 where
  pub free : s.free ≡ free_at num i
  pub inuse : s.inuse ≡ i
  pub links : (j : ℕ) → j < num → s.bufctl j ≡ free_at num (j + 1)

linked :
    (left i : ℕ) (s : Slab)
    → ((link_objs left i s).free ≡ s.free)
      × ((link_objs left i s).inuse ≡ s.inuse)
      × ((link_objs left i s).s_mem ≡ s.s_mem)
      × ((j : ℕ)
          → (link_objs left i s).bufctl j
            ≡ (if leb i j && ltb j (i + left) then j + 1 else s.bufctl j))
unfolding link_objs
linked zero i s = (refl, refl, refl, λ j. ground arith)
linked (suc left) i s =
    let (f, u, m, b) = linked left (i + 1) (set_bufctl s i (i + 1)) in
    (f, u, m, λ j. ground (arith, b j))

pub init-IsChained :
    (cache : Cache) (objp colour nodeid : ℕ) (old : ℕ → ℕ)
    → 0 < cache.num
    → IsChained cache.num 0 (cache_init_objs cache (alloc_slabmgmt cache objp colour nodeid old))
unfolding cache_init_objs alloc_slabmgmt
init-IsChained cache objp colour nodeid old pos =
    let s = alloc_slabmgmt cache objp colour nodeid old in
    let (f, u, m, b) = linked cache.num 0 s in
    record {
      free = ground (arith, f);
      inuse = ground (arith, u);
      links = λ j h. ground (arith, b j);
    }

pub step-IsChained :
    (num i : ℕ) (s : Slab)
    → i < num
    → num < 2 ^ 32
    → IsChained num i s
    → IsChained num (i + 1) (slab_after_get s)
unfolding slab_after_get
step-IsChained num i s h small c = record {
  free = ground (arith, c.free, c.links i);
  inuse = ground (arith, c.inuse);
  links = c.links;
}

after-IsChained :
    (n num i : ℕ) (s : Slab)
    → i + n ≤ num
    → num < 2 ^ 32
    → IsChained num i s
    → IsChained num (i + n) (after_got n s)
unfolding after_got
after-IsChained zero num i s h small c = record {
  free = ground (arith, c.free);
  inuse = omega (arith, c.inuse);
  links = c.links;
}
after-IsChained (suc n) num i s h small c =
    let d =
      after-IsChained n num (i + 1) (slab_after_get s) (omega arith) small
        (step-IsChained num i s (omega arith) small c) in
    record { free = ground (arith, d.free); inuse = omega (arith, d.inuse); links = d.links }

mem_kept : (s : Slab) → (slab_after_get s).s_mem ≡ s.s_mem
unfolding slab_after_get
mem_kept s = refl

-- An object ends where the objects end, at the latest.
pub object-below :
    (buffer_size i num : ℕ) → i < num → buffer_size * i + buffer_size ≤ buffer_size * num
object-below b i num h =
    omega (arith, mul-le-mul_left {m = i + 1} {n = num} b (omega arith), mul-add b i 1)

got-objects :
    (n i : ℕ) (cache : Cache) (s : Slab)
    → i + n ≤ cache.num
    → cache.num < 2 ^ 32
    → 0 < cache.buffer_size
    → s.s_mem + cache.buffer_size * cache.num ≤ 2 ^ 32
    → IsChained cache.num i s
    → got n cache s ≡ objects n i s.s_mem cache.buffer_size
unfolding got slab_get_obj index_to_obj
got-objects zero i cache s h small some_bytes room c = refl
got-objects (suc n) i cache s h small some_bytes room c =
    let at : s.free ≡ i = ground (arith, c.free) in
    let rest =
      got-objects n (i + 1) cache (slab_after_get s) (omega arith) small some_bytes
        (rw (mem_kept s) room) (step-IsChained cache.num i s (omega arith) small c) in
    let below = object-below cache.buffer_size i cache.num (omega arith) in
    ground (arith, at, rest, mem_kept s, below)

pub init_mem :
    (cache : Cache) (objp colour nodeid : ℕ) (old : ℕ → ℕ)
    → objp + (colour + cache.slab_size) < 2 ^ 32
    → (cache_init_objs cache (alloc_slabmgmt cache objp colour nodeid old)).s_mem
      ≡ objp + (colour + cache.slab_size)
unfolding cache_init_objs alloc_slabmgmt
init_mem cache objp colour nodeid old room =
    let s = alloc_slabmgmt cache objp colour nodeid old in
    let (f, u, m, b) = linked cache.num 0 s in ground (arith, m)

-- From a slab that alloc_slabmgmt sets up and cache_init_objs fills for a cache of more than 0
-- and fewer than 2 ^ 32 objects, of more than 0 bytes each, with the last object ending at or
-- below 2 ^ 32, n calls of slab_get_obj, for n up to the number of objects, hand out the first n
-- objects behind the slab's management data in the order of their addresses, each one once; n
-- objects then count as in use, and the first free index is n, or BUFCTL_END after the last.
pub got-cache_init_objs :
    (n : ℕ) (cache : Cache) (objp colour nodeid : ℕ) (old : ℕ → ℕ)
    → 0 < cache.num
    → cache.num < 2 ^ 32
    → 0 < cache.buffer_size
    → objp + (colour + cache.slab_size) + cache.buffer_size * cache.num ≤ 2 ^ 32
    → n ≤ cache.num
    → let s = cache_init_objs cache (alloc_slabmgmt cache objp colour nodeid old) in
      (got n cache s ≡ objects n 0 (objp + (colour + cache.slab_size)) cache.buffer_size)
      × ((after_got n s).inuse ≡ n)
      × ((after_got n s).free ≡ (if n == cache.num then bufctl_end else n))
got-cache_init_objs n cache objp colour nodeid old pos small some_bytes room le =
    let below = object-below cache.buffer_size 0 cache.num pos in
    let mem = init_mem cache objp colour nodeid old (omega (arith, below)) in
    let c = init-IsChained cache objp colour nodeid old pos in
    let d = after-IsChained n cache.num 0 _ (omega arith) small c in
    (
      got-objects n 0 cache _ (omega arith) small some_bytes (rw mem room) c
          ∙ ap (λ (a : ℕ). objects n 0 a cache.buffer_size) mem,
      omega (arith, d.inuse),
      ground (arith, d.free),
    )
