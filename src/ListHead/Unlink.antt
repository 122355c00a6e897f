-- ===== src/ListHead/Unlink.antt =====
-- include/list.h: an entry between its neighbours, which __list_del joins.
use mathlib.Core.List.{append_assoc}
use quark_os.Base.{
  ℕ, ◌≡◌, List, [], ◌∷◌, ◌++◌, some, arith, ◌∉◌, has-append, Distinct, Distinct-split, Snoc,
  none_left, last, snoc,
}
use quark_os.ListHead.{Heap, update, del_between}
use quark_os.ListHead.Ring.{Ring, SameOutside, Chain-frame, Ring-rotate, SameOutside-mono}

abbrev removed : Heap → (prev next : ℕ) → Heap
removed h prev next = record { next = update h.next prev next; prev = update h.prev next prev }

-- The neighbours of an entry, and what is left when they are joined.
pub record Unlinked (h : Heap) (head e : ℕ) (rest : List ℕ) : Type 0 where
  pub before : ℕ
  pub after : ℕ
  pub out : Heap
  pub at_prev : h.prev e ≡ some before
  pub at_next : h.next e ≡ some after
  pub runs : del_between before after h ≡ some (tt, out)
  pub ring : Ring out head rest
  pub same : SameOutside (head ∷ rest) h out

Unlinked-first : {h : Heap} {head e : ℕ} (xs : List ℕ) → Ring h head (e ∷ xs) → Unlinked h head e xs
unfolding del_between
Unlinked-first {h} {head} [] r = record {
  before = head;
  after = head;
  out = removed h head head;
  at_prev = ground arith;
  at_next = ground arith;
  runs = ground arith;
  ring = ground arith;
  same = ground arith;
}
Unlinked-first {h} {head} (x ∷ xs) r = record {
  before = head;
  after = x;
  out = removed h head x;
  at_prev = ground arith;
  at_next = ground arith;
  runs = ground arith;
  ring = record {
    chain = (
      ground arith,
      Chain-frame x head xs r.chain.1.1 (λ a i. ground arith) (λ a i. ground arith),
    );
    distinct = ground arith;
  };
  same = ground arith;
}

Unlinked-Snoc :
    {h : Heap} {head e : ℕ} {xs : List ℕ} (ys : List ℕ)
    → Snoc xs
    → Ring h head (xs ++ e ∷ ys)
    → Unlinked h head e (xs ++ ys)
Unlinked-Snoc ys none_left r = Unlinked-first ys r
Unlinked-Snoc {h} {head} {e} ys (last xs p) r =
    let at_p = Ring-rotate head p xs (e ∷ ys) (rw append_assoc at r) in
    let u = Unlinked-first (ys ++ head ∷ xs) at_p in
    record {
      before = u.before;
      after = u.after;
      out = u.out;
      at_prev = u.at_prev;
      at_next = u.at_next;
      runs = u.runs;
      ring = rw (append_assoc xs) (Ring-rotate p head ys xs u.ring);
      same = SameOutside-mono _ _ u.same λ a o. ground (
        arith,
        has-append a (xs ++ p ∷ []) ys,
        has-append a xs (p ∷ []),
        has-append a ys (head ∷ xs),
      );
    }

-- Every entry of a ring can be unlinked.
pub Ring-Unlinked :
    {h : Heap} {head e : ℕ} (xs ys : List ℕ)
    → Ring h head (xs ++ e ∷ ys)
    → Unlinked h head e (xs ++ ys)
Ring-Unlinked xs ys r = Unlinked-Snoc ys (snoc xs) r

-- An entry is not among the others.
pub not-mem_rest :
    (head e : ℕ) (xs ys : List ℕ) → Distinct (head ∷ xs ++ e ∷ ys) → e ∉ head ∷ xs ++ ys
not-mem_rest head e xs ys d =
    let (l, r, apart) = Distinct-split (head ∷ xs) (e ∷ ys) d in
    ground (arith, apart e, has-append e xs ys)
