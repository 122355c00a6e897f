-- ===== src/Mm/Init/Reserved.antt =====
-- mm_reserved_init: the pages of the kernel and of the page structures.
use quark_os.Base.{
  ℕ, zero, suc, ◌+◌, ◌≤◌, ◌<◌, ◌≡◌, refl, false, ◌&&◌, some, arith, ltb, leb, if◌then◌else◌,
}
use quark_os.ListHead.{store_next, store_prev, update}
use quark_os.ListHead.Ring.{IsNode}
use quark_os.Mm.{Layout, Mm, lru, page_isfree, write}
use quark_os.Mm.Init.{reserve_one, mm_reserved_init}

-- The pages from `start` on, `num` of them, are reserved, and the others as before.
pub record HasReserved (num start : ℕ) (s t : Mm) : Type 0 where
  pub count : (p : ℕ) → t.count p ≡ (if leb start p && ltb p (start + num) then 1 else s.count p)
  pub flags : (p : ℕ) → t.flags p ≡ (if leb start p && ltb p (start + num) then 2 else s.flags p)

reserve_one-runs :
    (l : Layout) (page : ℕ) (s : Mm)
    → IsNode s.lists (lru l page)
    → (t : Mm) × (reserve_one l page s ≡ some (tt, t))
      × HasReserved 1 page s t
      × ((a : ℕ) → IsNode s.lists a → IsNode t.lists a)
unfolding reserve_one store_next store_prev
reserve_one-runs l page s n = (
  record s {
    lists = record {
      next = update s.lists.next (lru l page) 0;
      prev = update s.lists.prev (lru l page) 0;
    };
    count = write s.count page 1;
    flags = write s.flags page 2;
  },
  ground (arith, n.next, n.prev),
  record { count = λ p. ground arith; flags = λ p. ground arith },
  λ p m. record { next = ground (arith, m.next); prev = ground (arith, m.prev) },
)

-- mm_reserved_init over num pages from start on, whose list heads are in memory, succeeds: these
-- pages have the count 1 and of the flags just the reserved bit, so that none passes for free,
-- all other counts and flags stay, and list heads that were in memory still are.
pub mm_reserved_init-HasReserved :
    (l : Layout) (num start : ℕ) (s : Mm)
    → ((p : ℕ) → start ≤ p → p < start + num → IsNode s.lists (lru l p))
    → (t : Mm) × (mm_reserved_init l num start s ≡ some (tt, t))
      × HasReserved num start s t
      × ((p : ℕ) → start ≤ p → p < start + num → page_isfree t p ≡ false)
      × ((a : ℕ) → IsNode s.lists a → IsNode t.lists a)
unfolding mm_reserved_init page_isfree
mm_reserved_init-HasReserved l zero start s nodes = (
  s,
  refl,
  record { count = λ p. ground arith; flags = λ p. ground arith },
  (λ p lo hi. absurd (omega arith)),
  λ p m. m,
)
mm_reserved_init-HasReserved l (suc num) start s nodes =
    let (u, first, one, kept) =
      reserve_one-runs l start s (nodes start (omega arith) (omega arith)) in
    let (t, rest, all, taken, also) =
      mm_reserved_init-HasReserved l num (start + 1) u
        λ p lo hi. kept (lru l p) (nodes p (omega arith) (omega arith)) in
    (
      t,
      ground (arith, first, rest),
      record {
        count = λ p. ground (arith, all.count p, one.count p);
        flags = λ p. ground (arith, all.flags p, one.flags p);
      },
      (λ p lo hi. ground (arith, all.count p, one.count p)),
      λ p m. also p (kept p m),
    )
