-- ===== src/Kmem/Alloc.antt =====
-- kmem_cache_alloc from a cache that has a free object, one object at a time.
use quark_os.Base.{
  ℕ, suc, ◌+◌, ◌-◌, ◌^◌, ◌<◌, ◌≡◌, ◌≢◌, ◌∙◌, ap, sym, refl, Bool, true, not, ◌&&◌, Option, none,
  List, [], ◌∷◌, ◌++◌, some, arith, ◌==◌, if◌then◌else◌, has, has-append, Bool-cases, inl, inr,
}
use quark_os.Ram.{Ram, memset}
use quark_os.ListHead.{Heap, load_next}
use quark_os.Slab.{Slab, index_to_obj, slab_get_obj}
use quark_os.Slab.Chain.{IsChained, step-IsChained}
use quark_os.Kmem.{
  KmemCache, State, serve, find_free, find_slab, refill, pop, cache_alloc_refill, kmem_cache_alloc,
}
use quark_os.Kmem.Serve.{HasSlabs, served, full_from_partial, still_partial}
use quark_os.Kmem.Fresh.{full_from_free, partial_from_free}

-- The slab that the next object comes from.
abbrev pub front : (ps frs : List ℕ) → Option ℕ
front (x ∷ ps) frs = some x
front [] (x ∷ frs) = some x
front [] [] = none

members_moved : (a x : ℕ) (ps rest : List ℕ) → has a (ps ++ x ∷ rest) ≡ has a (x ∷ ps ++ rest)
members_moved a x ps rest = ground (arith, has-append a ps (x ∷ rest), has-append a ps rest)

module _ (c : KmemCache) where
  -- What the slabs hold does not hang on the other fields.
  HasSlabs-kept :
      (s : State) (ps fs frs : List ℕ) (ram : Ram) (avail : ℕ) (touched free_touched : Bool)
      → HasSlabs c s ps fs frs
      → HasSlabs c
          (record s { ram = ram; avail = avail; touched = touched; free_touched = free_touched })
          ps
          fs
          frs
  HasSlabs-kept s ps fs frs ram avail touched free_touched h = record {
    partial = h.partial;
    full = h.full;
    free = h.free;
    partial_full = h.partial_full;
    partial_free = h.partial_free;
    full_free = h.full_free;
    in_partial = h.in_partial;
    some_left = h.some_left;
    in_full = h.in_full;
    in_free = h.in_free;
    no_null = h.no_null;
  }

  -- The state that find_slab leaves.
  abbrev looked : State → (ps : List ℕ) → State
  looked s [] = record s { free_touched = true }
  looked s (x ∷ ps) = s

  find_slab-front :
      (s : State) (ps fs frs : List ℕ) (x : ℕ)
      → HasSlabs c s ps fs frs
      → front ps frs ≡ some x
      → find_slab c s ≡ some (x, looked s ps)
  unfolding find_slab find_free load_next
  find_slab-front s (y ∷ ps) fs frs x h e =
      ground (arith, e, h.partial.chain.0.0, h.partial.distinct.0)
  find_slab-front s [] fs (y ∷ frs) x h e =
      ground (arith, e, h.partial.chain.0, h.free.chain.0.0, h.free.distinct.0)
  find_slab-front s [] fs [] x h e = absurd (cc)

  -- The state that kmem_cache_alloc leaves, with the slab `x` served and the lists in `g`.
  abbrev handed : (x : ℕ) → State → Heap → (zeroed : Bool) → State
  handed x s g zeroed =
      let ret = slab_get_obj c.cache (s.slab_at x) in
      let t = served c x s g in
      record t {
        avail = t.avail - 1;
        touched = true;
        ram = if zeroed && not (ret == 0) then memset c.cache.buffer_size ret 0 s.ram else s.ram;
      }

  runs_through :
      (s s₀ : State) (x fuel : ℕ) (g : Heap) (zeroed : Bool)
      → s.avail ≡ 0
      → c.batchcount ≡ 1
      → 0 < x
      → find_slab c s ≡ some (x, s₀)
      → s₀.avail ≡ 0
      → serve c 1 x s₀ ≡ some (0, served c x s₀ g)
      → kmem_cache_alloc c (suc fuel) zeroed s
        ≡ some (slab_get_obj c.cache (s₀.slab_at x), handed x s₀ g zeroed)
  unfolding kmem_cache_alloc cache_alloc_refill refill pop
  runs_through s s₀ x fuel g zeroed none_there one pos found still runs =
      ground (arith, none_there, one, found, still, runs)

  obj_lem :
      (i : ℕ) (slab : Slab)
      → i < c.cache.num
      → IsChained c.cache.num i slab
      → slab_get_obj c.cache slab ≡ index_to_obj c.cache slab slab.inuse
  unfolding slab_get_obj
  obj_lem i slab less ch = ap (index_to_obj c.cache slab) (ground (arith, ch.free, ch.inuse))

  -- An object of the slab `x`, the one after those in use, is handed out, and the slabs stay.
  abbrev pub Gives : (fuel : ℕ) (zeroed : Bool) (s : State) (x : ℕ) (ps fs frs : List ℕ) → Type 0
  Gives fuel zeroed s x ps fs frs =
      (ps' : List ℕ) × (fs' : List ℕ) × (frs' : List ℕ) × (t : State) × (kmem_cache_alloc c
          (suc fuel) zeroed s
        ≡ some (index_to_obj c.cache (s.slab_at x) (s.slab_at x).inuse, t))
      × HasSlabs c t ps' fs' frs'
      × (t.avail ≡ 0)
      × ((t.slab_at x).inuse ≡ (s.slab_at x).inuse + 1)
      × ((a : ℕ) → a ≢ x → t.slab_at a ≡ s.slab_at a)
      × ((a : ℕ) → has a (ps' ++ fs' ++ frs') ≡ has a (ps ++ fs ++ frs))

  module _ (fuel : ℕ) (zeroed : Bool) (s : State) (none_there : s.avail ≡ 0)
      (one : c.batchcount ≡ 1) (small : c.cache.num < 2 ^ 32) where
    conclude :
        (i x : ℕ) (ps fs frs ps' fs' frs' : List ℕ) (g : Heap) (free_touched : Bool)
        → let s₀ = record s { free_touched = free_touched } in
          i < c.cache.num
          → 0 < x
          → IsChained c.cache.num i (s.slab_at x)
          → find_slab c s ≡ some (x, s₀)
          → serve c 1 x s₀ ≡ some (0, served c x s₀ g)
          → HasSlabs c (served c x s₀ g) ps' fs' frs'
          → ((a : ℕ) → has a (ps' ++ fs' ++ frs') ≡ has a (ps ++ fs ++ frs))
          → Gives fuel zeroed s x ps fs frs
    conclude i x ps fs frs ps' fs' frs' g free_touched less pos ch found runs h members =
        let s₀ : State = record s { free_touched = free_touched } in
        let t = handed x s₀ g zeroed in
        let more = (step-IsChained c.cache.num i (s.slab_at x) less small ch).inuse in
        (
          ps',
          fs',
          frs',
          t,
          runs_through s s₀ x fuel g zeroed none_there one pos found none_there runs
              ∙ ap (λ (n : ℕ). some (n, t)) (obj_lem i (s.slab_at x) less ch),
          HasSlabs-kept (served c x s₀ g) ps' fs' frs' t.ram t.avail true t.free_touched h,
          omega (arith, none_there),
          ground (arith, more, ch.inuse),
          (λ a n. ground (arith, n)),
          members,
        )

    from_partial :
        (x : ℕ) (ps fs frs : List ℕ)
        → HasSlabs c s (x ∷ ps) fs frs
        → Gives fuel zeroed s x (x ∷ ps) fs frs
    from_partial x ps fs frs h =
        let i = (s.slab_at x).inuse in
        let less = h.some_left x (ground arith) in
        let ch = h.in_partial x (ground arith) in
        let found = find_slab-front s (x ∷ ps) fs frs x h refl in
        let real : 0 < x = ground (arith, h.no_null) in
        elim (Bool-cases (i + 1 == c.cache.num)) [
          | inl last ↦
              let (g, runs, k) = full_from_partial c s x ps fs frs h small last in
              conclude i x (x ∷ ps) fs frs ps (x ∷ fs) frs g s.free_touched less real ch found runs
                k
                (λ a. ground (
                  arith,
                  has-append a (ps ++ x ∷ fs) frs,
                  has-append a (ps ++ fs) frs,
                  members_moved a x ps fs,
                ))
          | inr more ↦
              let (g, runs, k) = still_partial c s x ps fs frs h small more in
              conclude i x (x ∷ ps) fs frs (x ∷ ps) fs frs g s.free_touched less real ch found runs
                k (λ a. refl)
        ]

    from_free :
        (x : ℕ) (fs frs : List ℕ)
        → 0 < c.cache.num
        → HasSlabs c s [] fs (x ∷ frs)
        → Gives fuel zeroed s x [] fs (x ∷ frs)
    from_free x fs frs pos h =
        let s₀ : State = record s { free_touched = true } in
        let h₀ = HasSlabs-kept s [] fs (x ∷ frs) s.ram s.avail s.touched true h in
        let ch = h.in_free x (ground arith) in
        let found = find_slab-front s [] fs (x ∷ frs) x h refl in
        let real : 0 < x = ground (arith, h.no_null) in
        elim (Bool-cases (1 == c.cache.num)) [
          | inl last ↦
              let (g, runs, k) = full_from_free c s₀ x fs frs h₀ small pos last in
              conclude 0 x [] fs (x ∷ frs) [] (x ∷ fs) frs g true pos real ch found runs k
                (λ a. sym (members_moved a x fs frs))
          | inr more ↦
              let (g, runs, k) = partial_from_free c s₀ x fs frs h₀ small pos more in
              conclude 0 x [] fs (x ∷ frs) (x ∷ []) fs frs g true pos real ch found runs k
                (λ a. sym (members_moved a x fs frs))
        ]

    -- Of a cache with batchcount 1, with more than 0 and fewer than 2 ^ 32 objects in a slab, an
    -- empty array and slabs whose lists are linked and whose objects in use are the first ones,
    -- none of a slab on the free list, all of one on the full list and some but not all of one on
    -- the partial list, kmem_cache_alloc takes the first slab of the partial list, or of the free
    -- list if that is empty, and returns the object after those in use; that slab has one more
    -- object in use, no other slab changes, the lists hold the same slabs and the array is empty
    -- again, and all this holds as before.
    pub kmem_cache_alloc_lem :
        (x : ℕ) (ps fs frs : List ℕ)
        → 0 < c.cache.num
        → HasSlabs c s ps fs frs
        → front ps frs ≡ some x
        → Gives fuel zeroed s x ps fs frs
    kmem_cache_alloc_lem x (y ∷ ps) fs frs pos h e =
        let same : x ≡ y = ground (arith, e) in rw same (from_partial y ps fs frs h)
    kmem_cache_alloc_lem x [] fs (y ∷ frs) pos h e =
        let same : x ≡ y = ground (arith, e) in rw same (from_free y fs frs pos h)
    kmem_cache_alloc_lem x [] fs [] pos h e = absurd (cc)
