-- ===== src/Kmem/Grow.antt =====
-- cache_grow: a new slab behind the free list.
use quark_os.Base.{
  ℕ, ◌+◌, ◌%◌, ◌^◌, ◌<◌, ◌≡◌, ◌≢◌, ◌∙◌, ap, refl, true, false, List, [], ◌∷◌, ◌++◌, some, arith,
  ◌==◌, ==_iff, has-append, ◌∉◌, Apart, Bool-cases, inl, inr,
}
use quark_os.ListHead.{Heap, update}
use quark_os.ListHead.Ring.{IsNode, Ring, SameOutside, Ring-frame}
use quark_os.ListHead.Add.{list_add_tail-append}
use quark_os.Slab.{Slab, alloc_slabmgmt, cache_init_objs}
use quark_os.Slab.Chain.{init-IsChained, init_mem}
use quark_os.Kmem.{KmemCache, State, slabs_partial, slabs_full, slabs_free, set_slab, new_slab}
use quark_os.Kmem.Serve.{HasSlabs}

-- The address is that of no list head in use.
abbrev pub IsNew : KmemCache → (at : ℕ) (ps fs frs : List ℕ) → Type 0
IsNew c at ps fs frs =
    (0 < at) × (at ∉ slabs_partial c ∷ ps) × (at ∉ slabs_full c ∷ fs) × (at ∉ slabs_free c ∷ frs)

the_same : (a : ℕ) → (a == a) ≡ true
the_same a = (==_iff a a).1 refl

module _ (c : KmemCache) (s : State) (ps fs frs : List ℕ) (h : HasSlabs c s ps fs frs)
    (pos : 0 < c.cache.num) where
  -- The new slab, and the heap with its list head.
  abbrev fresh_slab : (objp offset : ℕ) → Slab
  fresh_slab objp offset =
      cache_init_objs c.cache
        (alloc_slabmgmt c.cache objp offset 0 (s.slab_at (objp + offset)).bufctl)

  abbrev raw : ℕ → Heap
  raw at = record { next = update s.mm.lists.next at 0; prev = update s.mm.lists.prev at 0 }

  raw-same : (at : ℕ) → SameOutside (at ∷ []) s.mm.lists (raw at)
  raw-same at = record { next = λ a o. ground (arith, o); prev = λ a o. ground (arith, o) }

  not_at : (at : ℕ) (xs : List ℕ) → at ∉ xs → Apart xs (at ∷ [])
  not_at at xs out a i = elim (Bool-cases (a == at)) [
    | inl e ↦ absurd (ground (arith, out, i, (==_iff _ _).0 e))
    | inr e ↦ ground (arith, e)
  ]

  elsewhere :
      (objp offset a : ℕ)
      → (a == objp + offset) ≡ false
      → (set_slab (objp + offset) (fresh_slab objp offset) s).slab_at a ≡ s.slab_at a
  elsewhere objp offset a e = rw e refl

  here :
      (objp offset : ℕ)
      → (set_slab (objp + offset) (fresh_slab objp offset) s).slab_at (objp + offset)
        ≡ fresh_slab objp offset
  here objp offset = rw (the_same (objp + offset)) refl

  -- The second part of cache_grow, from alloc_slabmgmt on, with a slab at an address other than 0
  -- that is that of no list head in use, for a cache with objects, puts that slab with all its
  -- objects free behind the free list, adds them to free_objects, modulo 2 ^ 32, changes no other
  -- slab and leaves the lists linked and the slabs on the list where they belong.
  pub new_slab_lem :
      (objp offset : ℕ)
      → objp + (offset + c.cache.slab_size) < 2 ^ 32
      → IsNew c (objp + offset) ps fs frs
      → (t : State) × (new_slab c objp offset s ≡ some (tt, t))
        × HasSlabs c t ps fs (frs ++ (objp + offset) ∷ [])
        × ((a : ℕ) → a ≢ objp + offset → t.slab_at a ≡ s.slab_at a)
        × (t.free_objects ≡ (s.free_objects + c.cache.num) % 2 ^ 32)
        × (t.avail ≡ s.avail)
        × ((t.slab_at (objp + offset)).s_mem ≡ objp + (offset + c.cache.slab_size))
  unfolding new_slab
  new_slab_lem objp offset room (real, no_partial, no_full, no_free) =
      let at = objp + offset in
      let no_wrap : (objp + offset) % 2 ^ 32 ≡ objp + offset = omega (arith, room) in
      let same = raw-same at in
      let ring = Ring-frame frs (at ∷ []) h.free same (not_at at (slabs_free c ∷ frs) no_free) in
      let node : IsNode (raw at) at = record { next = ground arith; prev = ground arith } in
      let (g, runs, (longer, rest)) = list_add_tail-append frs at ring node no_free in
      let others : (head : ℕ) (xs : List ℕ)
          → Ring s.mm.lists head xs
          → at ∉ head ∷ xs
          → Apart (head ∷ xs) (slabs_free c ∷ frs)
          → Ring g head xs =
        λ head xs r out apart.
          Ring-frame xs (at ∷ slabs_free c ∷ frs)
            (Ring-frame xs (at ∷ []) r same (not_at at (head ∷ xs) out)) rest
            (λ a i. ground (arith, not_at at (head ∷ xs) out a i, apart a i)) in
      let t : State = record (set_slab at (fresh_slab objp offset) s) {
        mm = record s.mm { lists = g };
        free_objects = (s.free_objects + c.cache.num) % 2 ^ 32;
      } in
      (
        t,
        rw no_wrap (ground (arith, runs)),
        record {
          partial = others (slabs_partial c) ps h.partial no_partial h.partial_free;
          full = others (slabs_full c) fs h.full no_full h.full_free;
          free = longer;
          partial_full = h.partial_full;
          partial_free = λ a i. ground (
            arith,
            h.partial_free a i,
            not_at at (slabs_partial c ∷ ps) no_partial a i,
            has-append a frs (at ∷ []),
          );
          full_free = λ a i. ground (
            arith,
            h.full_free a i,
            not_at at (slabs_full c ∷ fs) no_full a i,
            has-append a frs (at ∷ []),
          );
          in_partial = λ a i.
              rw
                (elsewhere objp offset a
                  (ground (arith, not_at at (slabs_partial c ∷ ps) no_partial a)))
                (h.in_partial a i);
          some_left = λ a i.
              rw
                (elsewhere objp offset a
                  (ground (arith, not_at at (slabs_partial c ∷ ps) no_partial a)))
                (h.some_left a i);
          in_full = λ a i.
              rw (elsewhere objp offset a (ground (arith, not_at at (slabs_full c ∷ fs) no_full a)))
                (h.in_full a i);
          in_free = λ a i. elim (Bool-cases (a == at)) [
            | inl e ↦ rw e (init-IsChained c.cache objp offset 0 (s.slab_at at).bufctl pos)
            | inr n ↦ rw n (h.in_free a (ground (arith, has-append a frs (at ∷ []))))
          ];
          no_null = ground (
            arith,
            h.no_null,
            has-append 0 ps frs,
            has-append 0 ps (frs ++ at ∷ []),
            has-append 0 frs (at ∷ []),
          );
        },
        (λ a n. ground (arith, n)),
        refl,
        refl,
        ap (λ (b : Slab). b.s_mem) (here objp offset)
            ∙ init_mem c.cache objp offset 0 (s.slab_at (objp + offset)).bufctl room,
      )
