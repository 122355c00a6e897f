-- ===== src/Kmem/Serve.antt =====
-- What the slabs of a cache hold, and one round of the refill that asks for one object.
use quark_os.Base.{
  ==_iff, ℕ, ◌+◌, ◌^◌, ◌<◌, ◌≡◌, ◌∙◌, ap, sym, refl, true, false, List, ◌∷◌, ◌++◌, some, arith,
  ◌==◌, if◌then◌else◌, ◌∈◌, ◌∉◌, Apart, Bool-cases, inl, inr,
}
use quark_os.ListHead.{Heap, list_del, list_add}
use quark_os.ListHead.Ring.{Ring}
use quark_os.Slab.{Slab, bufctl_end, slab_get_obj, slab_after_get}
use quark_os.Slab.Chain.{IsChained, step-IsChained, free_at}
use quark_os.Kmem.{
  KmemCache, State, slabs_partial, slabs_full, slabs_free, take_obj, take_objs, serve,
}
use quark_os.Kmem.Lists.{moved_back, moved_across, Apart-swap}

-- The slabs of the three lists: some of the objects of those on the partial list are handed out,
-- all of those on the full list and none of those on the free list, always the first ones.
pub record HasSlabs (c : KmemCache) (s : State) (ps fs frs : List ℕ) : Type 0 where
  pub partial : Ring s.mm.lists (slabs_partial c) ps
  pub full : Ring s.mm.lists (slabs_full c) fs
  pub free : Ring s.mm.lists (slabs_free c) frs
  pub partial_full : Apart (slabs_partial c ∷ ps) (slabs_full c ∷ fs)
  pub partial_free : Apart (slabs_partial c ∷ ps) (slabs_free c ∷ frs)
  pub full_free : Apart (slabs_full c ∷ fs) (slabs_free c ∷ frs)
  pub in_partial : (x : ℕ) → x ∈ ps → IsChained c.cache.num (s.slab_at x).inuse (s.slab_at x)
  pub some_left : (x : ℕ) → x ∈ ps → (s.slab_at x).inuse < c.cache.num
  pub in_full : (x : ℕ) → x ∈ fs → IsChained c.cache.num c.cache.num (s.slab_at x)
  pub in_free : (x : ℕ) → x ∈ frs → IsChained c.cache.num 0 (s.slab_at x)
  pub no_null : 0 ∉ ps ++ frs

module _ (c : KmemCache) where
  -- The state once the slab `x` has given an object and the lists are those of `g`.
  abbrev pub served : (x : ℕ) → State → Heap → State
  served x s g = record s {
    mm = record s.mm { lists = g };
    slab_at = λ a. if a == x then slab_after_get (s.slab_at x) else s.slab_at a;
    entry = λ i. if i == s.avail then slab_get_obj c.cache (s.slab_at x) else s.entry i;
    avail = s.avail + 1;
  }

  abbrev pub goes_to : Slab → ℕ
  goes_to slab = if slab.free == bufctl_end then slabs_full c else slabs_partial c

  pub serve_runs :
      (x : ℕ) (s : State) (d g : Heap)
      → (s.slab_at x).inuse < c.cache.num
      → list_del x s.mm.lists ≡ some (tt, d)
      → list_add x (goes_to (slab_after_get (s.slab_at x))) d ≡ some (tt, g)
      → serve c 1 x s ≡ some (0, served x s g)
  unfolding serve take_objs take_obj
  serve_runs x s d g less gone runs = ground (arith, gone, runs)

  -- Where a slab goes with `i` objects handed out before.
  pub goes_to_lem :
      (i : ℕ) (slab : Slab)
      → i < c.cache.num
      → c.cache.num < 2 ^ 32
      → IsChained c.cache.num i slab
      → goes_to (slab_after_get slab)
        ≡ (if i + 1 == c.cache.num then slabs_full c else slabs_partial c)
  goes_to_lem i slab less small ch =
      ground (arith, (step-IsChained c.cache.num i slab less small ch).free)

  -- The slab that has given an object has one more in use.
  pub stepped :
      (x i n : ℕ) (s : State)
      → i < c.cache.num
      → c.cache.num < 2 ^ 32
      → IsChained c.cache.num i (s.slab_at x)
      → i + 1 ≡ n
      → IsChained c.cache.num n (slab_after_get (s.slab_at x))
  stepped x i n s less small ch last =
      let k = step-IsChained c.cache.num i (s.slab_at x) less small ch in
      record {
        free = k.free ∙ ap (λ (m : ℕ). free_at c.cache.num m) last;
        inuse = k.inuse ∙ last;
        links = k.links;
      }

  pub the_slab :
      (x : ℕ) (s : State) (g : Heap) (a : ℕ)
      → (a == x) ≡ true
      → (served x s g).slab_at a ≡ slab_after_get (s.slab_at x)
  the_slab x s g a e = rw e refl

  pub other_at :
      (x : ℕ) (s : State) (g : Heap) (a : ℕ)
      → (a == x) ≡ false
      → (served x s g).slab_at a ≡ s.slab_at a
  other_at x s g a e = rw e refl

  module _ (s : State) (x : ℕ) (ps fs frs : List ℕ) (h : HasSlabs c s (x ∷ ps) fs frs)
      (small : c.cache.num < 2 ^ 32) where
    abbrev i : ℕ
    i = (s.slab_at x).inuse

    full-Apart : Apart (slabs_full c ∷ fs) (slabs_partial c ∷ x ∷ ps)
    full-Apart = Apart-swap (slabs_partial c ∷ x ∷ ps) (slabs_full c ∷ fs) h.partial_full

    free-Apart : Apart (slabs_free c ∷ frs) (slabs_partial c ∷ x ∷ ps)
    free-Apart = Apart-swap (slabs_partial c ∷ x ∷ ps) (slabs_free c ∷ frs) h.partial_free

    pub full_from_partial :
        (i + 1 == c.cache.num) ≡ true
        → (g : Heap) × (serve c 1 x s ≡ some (0, served x s g))
          × HasSlabs c (served x s g) ps (x ∷ fs) frs
    full_from_partial e =
        let ch = h.in_partial x (ground arith) in
        let less = h.some_left x (ground arith) in
        let (d, g, gone, runs, (from, to, third)) =
          moved_across (slabs_partial c) x ps h.partial (slabs_full c) fs h.full full-Apart in
        let last : i + 1 ≡ c.cache.num = (==_iff _ _).0 e in
        (
          g,
          serve_runs x s d g less gone
              (ground (arith, runs, goes_to_lem i (s.slab_at x) less small ch)),
          record {
            partial = from;
            full = to;
            free =
                third (slabs_free c) frs h.free free-Apart
                  (Apart-swap (slabs_full c ∷ fs) (slabs_free c ∷ frs) h.full_free);
            partial_full = λ a m. ground (arith, h.partial_full a, h.partial.distinct);
            partial_free = λ a m. ground (arith, h.partial_free a);
            full_free = λ a m. ground (arith, h.full_free a, h.partial_free a);
            in_partial = λ a m.
                rw (other_at x s g a (ground (arith, h.partial.distinct)))
                  (h.in_partial a (ground arith));
            some_left = λ a m.
                rw (other_at x s g a (ground (arith, h.partial.distinct)))
                  (h.some_left a (ground arith));
            in_full = λ a m. elim (Bool-cases (a == x)) [
              | inl y ↦ rw (the_slab x s g a y) (stepped x i c.cache.num s less small ch last)
              | inr n ↦ rw (other_at x s g a n) (h.in_full a (ground (arith, n)))
            ];
            in_free =
                λ a m. rw (other_at x s g a (ground (arith, h.partial_free a))) (h.in_free a m);
            no_null = ground (arith, h.no_null);
          },
        )

    pub still_partial :
        (i + 1 == c.cache.num) ≡ false
        → (g : Heap) × (serve c 1 x s ≡ some (0, served x s g))
          × HasSlabs c (served x s g) (x ∷ ps) fs frs
    still_partial e =
        let ch = h.in_partial x (ground arith) in
        let less = h.some_left x (ground arith) in
        let (d, g, gone, runs, (ring, others)) = moved_back (slabs_partial c) x ps h.partial in
        let more = (step-IsChained c.cache.num i (s.slab_at x) less small ch).inuse in
        (
          g,
          serve_runs x s d g less gone
              (ground (arith, runs, goes_to_lem i (s.slab_at x) less small ch)),
          record {
            partial = ring;
            full = others (slabs_full c) fs h.full full-Apart;
            free = others (slabs_free c) frs h.free free-Apart;
            partial_full = h.partial_full;
            partial_free = h.partial_free;
            full_free = h.full_free;
            in_partial = λ a m. elim (Bool-cases (a == x)) [
              | inl y ↦
                  rw (the_slab x s g a y)
                    (stepped x i (slab_after_get (s.slab_at x)).inuse s less small ch (sym more))
              | inr n ↦ rw (other_at x s g a n) (h.in_partial a m)
            ];
            some_left = λ a m. elim (Bool-cases (a == x)) [
              | inl y ↦ rw y (ground (arith, more))
              | inr n ↦ rw (other_at x s g a n) (h.some_left a m)
            ];
            in_full =
                λ a m. rw (other_at x s g a (ground (arith, h.partial_full a))) (h.in_full a m);
            in_free =
                λ a m. rw (other_at x s g a (ground (arith, h.partial_free a))) (h.in_free a m);
            no_null = h.no_null;
          },
        )
