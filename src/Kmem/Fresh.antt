-- ===== src/Kmem/Fresh.antt =====
-- The round of the refill that takes a slab of the free list, while the partial list is empty.
use quark_os.Base.{
  ==_iff, ℕ, ◌^◌, ◌<◌, ◌≡◌, sym, true, false, List, [], ◌∷◌, some, arith, ◌==◌, Bool-cases, inl,
  inr,
}
use quark_os.ListHead.{Heap}
use quark_os.Slab.{slab_after_get}
use quark_os.Slab.Chain.{IsChained, step-IsChained}
use quark_os.Kmem.{KmemCache, State, slabs_partial, slabs_full, slabs_free, serve}
use quark_os.Kmem.Lists.{moved_across, Apart-swap}
use quark_os.Kmem.Serve.{HasSlabs, served, serve_runs, goes_to_lem, stepped, the_slab, other_at}

module _ (c : KmemCache) (s : State) (x : ℕ) (fs frs : List ℕ) (h : HasSlabs c s [] fs (x ∷ frs))
    (small : c.cache.num < 2 ^ 32) (pos : 0 < c.cache.num) where
  chained : IsChained c.cache.num 0 (s.slab_at x)
  chained = h.in_free x (ground arith)

  pub full_from_free :
      (1 == c.cache.num) ≡ true
      → (g : Heap) × (serve c 1 x s ≡ some (0, served c x s g))
        × HasSlabs c (served c x s g) [] (x ∷ fs) frs
  full_from_free e =
      let (d, g, gone, runs, (from, to, third)) =
        moved_across (slabs_free c) x frs h.free (slabs_full c) fs h.full h.full_free in
      (
        g,
        serve_runs c x s d g (omega (arith, chained.inuse)) gone
            (ground (arith, runs, goes_to_lem c 0 (s.slab_at x) pos small chained)),
        record {
          partial = third (slabs_partial c) [] h.partial h.partial_free h.partial_full;
          full = to;
          free = from;
          partial_full = λ a m. ground (arith, h.partial_full a, h.partial_free a);
          partial_free = λ a m. ground (arith, h.partial_free a);
          full_free = λ a m. ground (arith, h.full_free a, h.free.distinct);
          in_partial = λ a m. absurd (cc);
          some_left = λ a m. absurd (cc);
          in_full = λ a m. elim (Bool-cases (a == x)) [
            | inl y ↦
                rw (the_slab c x s g a y)
                  (stepped c x 0 c.cache.num s pos small chained ((==_iff _ _).0 e))
            | inr n ↦ rw (other_at c x s g a n) (h.in_full a (ground (arith, n)))
          ];
          in_free = λ a m.
              rw (other_at c x s g a (ground (arith, h.free.distinct)))
                (h.in_free a (ground arith));
          no_null = ground (arith, h.no_null);
        },
      )

  pub partial_from_free :
      (1 == c.cache.num) ≡ false
      → (g : Heap) × (serve c 1 x s ≡ some (0, served c x s g))
        × HasSlabs c (served c x s g) (x ∷ []) fs frs
  partial_from_free e =
      let (d, g, gone, runs, (from, to, third)) =
        moved_across (slabs_free c) x frs h.free (slabs_partial c) [] h.partial h.partial_free in
      let more = (step-IsChained c.cache.num 0 (s.slab_at x) pos small chained).inuse in
      (
        g,
        serve_runs c x s d g (omega (arith, chained.inuse)) gone
            (ground (arith, runs, goes_to_lem c 0 (s.slab_at x) pos small chained)),
        record {
          partial = to;
          full =
              third (slabs_full c) fs h.full h.full_free
                (Apart-swap (slabs_partial c ∷ []) (slabs_full c ∷ fs) h.partial_full);
          free = from;
          partial_full = λ a m. ground (arith, h.partial_full a, h.full_free a);
          partial_free = λ a m. ground (arith, h.partial_free a, h.free.distinct);
          full_free = λ a m. ground (arith, h.full_free a);
          in_partial = λ a m. elim (Bool-cases (a == x)) [
            | inl y ↦
                rw (the_slab c x s g a y) (
                  stepped c x 0 (slab_after_get (s.slab_at x)).inuse s pos small chained (sym more))
            | inr n ↦ absurd (ground (arith, n))
          ];
          some_left = λ a m. elim (Bool-cases (a == x)) [
            | inl y ↦ rw (the_slab c x s g a y) (ground (arith, more, e))
            | inr n ↦ absurd (ground (arith, n))
          ];
          in_full = λ a m. rw (other_at c x s g a (ground (arith, h.full_free a))) (h.in_full a m);
          in_free = λ a m.
              rw (other_at c x s g a (ground (arith, h.free.distinct)))
                (h.in_free a (ground arith));
          no_null = ground (arith, h.no_null);
        },
      )
