-- ===== src/Kmem/Init/Empty.antt =====
-- The caches at the start: no slab on any list.
use quark_os.Base.{ℕ, ◌≡◌, refl, false, [], ◌∷◌, some, arith}
use quark_os.ListHead.Ring.{IsNode, Ring-frame, IsNode-frame}
use quark_os.ListHead.Add.{init_list_head-Ring}
use quark_os.Mm.{Layout}
use quark_os.Slab.{cache_num, slab_mgmt_size}
use quark_os.Kmem.{KmemCache, State, slabs_partial, slabs_full, slabs_free}
use quark_os.Kmem.Serve.{HasSlabs}
use quark_os.Kmem.Init.{kmem_list3_init, find_order, cache_cache}

module _ (c : KmemCache) (s : State) where
  -- kmem_list3_init on a node list whose three list heads are in memory succeeds and leaves three
  -- empty lists, no free objects counted and the array as it was: the state in which the caches'
  -- lists start.
  pub kmem_list3_init_lem :
      IsNode s.mm.lists (slabs_partial c)
      → IsNode s.mm.lists (slabs_full c)
      → IsNode s.mm.lists (slabs_free c)
      → (t : State) × (kmem_list3_init c s ≡ some (tt, t))
        × HasSlabs c t [] [] []
        × (t.free_objects ≡ 0)
        × (t.avail ≡ s.avail)
  unfolding kmem_list3_init
  kmem_list3_init_lem p f r =
      let (h₁, one, (full, s₁)) = init_list_head-Ring (slabs_full c) f in
      let (h₂, two, (part, s₂)) =
        init_list_head-Ring (slabs_partial c)
          (IsNode-frame (slabs_partial c) (slabs_full c ∷ []) p s₁ (ground arith)) in
      let (h₃, three, (free, s₃)) = init_list_head-Ring (slabs_free c) (
        IsNode-frame (slabs_free c) (slabs_partial c ∷ [])
          (IsNode-frame (slabs_free c) (slabs_full c ∷ []) r s₁ (ground arith)) s₂
          (ground arith)) in
      let t : State = record s {
        mm = record s.mm { lists = h₃ };
        colour_next = 0;
        free_objects = 0;
        free_touched = false;
      } in
      (
        t,
        ground (arith, one, two, three),
        record {
          partial = Ring-frame [] (slabs_free c ∷ []) part s₃ (λ a i. ground arith);
          full =
              Ring-frame [] (slabs_free c ∷ [])
                (Ring-frame [] (slabs_partial c ∷ []) full s₂ (λ a i. ground arith)) s₃
                (λ a i. ground arith);
          free = free;
          partial_full = λ a i. ground arith;
          partial_free = λ a i. ground arith;
          full_free = λ a i. ground arith;
          in_partial = λ a i. absurd (cc);
          some_left = λ a i. absurd (cc);
          in_full = λ a i. absurd (cc);
          in_free = λ a i. absurd (cc);
          no_null = refl;
        },
        refl,
        refl,
      )

-- The cache of caches has 56 objects in a slab of one page, of which 256 bytes are management data.
pub cache_cache_lem :
    (layout : Layout) (nodelist : ℕ)
    → cache_cache layout nodelist ≡ record {
      layout = layout;
      cache = record { num = 56; buffer_size = 68; slab_size = 256 };
      gfporder = 0;
      colour = 0;
      colour_off = 32;
      batchcount = 1;
      nodelist = nodelist;
    }
unfolding cache_cache find_order cache_num slab_mgmt_size
cache_cache_lem layout nodelist = refl
