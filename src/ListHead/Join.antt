-- ===== src/ListHead/Join.antt =====
-- include/list.h: the entries of one list between two neighbours of another (__list_splice).
use mathlib.Core.List.{append_assoc, append-nil}
use quark_os.Base.{
  ℕ, ◌≡◌, List, [], ◌∷◌, ◌++◌, some, arith, ◌∈◌, ◌∉◌, has-append, Distinct-cons_append, Apart, Snoc,
  none_left, last, snoc,
}
use quark_os.ListHead.{Heap, update, splice_between}
use quark_os.ListHead.Ring.{
  Linked, Chain, Ring, Ring-IsNode, Ring-rotate, Chain-frame, Chain-append, SameOutside,
  SameOutside-mono, Ends, some_of,
}
use quark_os.ListHead.Redirect.{prev-mem, Chain-redirect}

abbrev joined : Heap → (first final prev next : ℕ) → Heap
joined h first final prev next = record {
  next = update (update h.next prev first) final next;
  prev = update (update h.prev first prev) next final;
}

-- The entries of `list` put between two neighbours.
module _ {h : Heap} {list x l : ℕ} (xs : List ℕ) (r : Ring h list (x ∷ xs))
    (e : h.prev list ≡ some l) where
  l_in : l ∈ x ∷ xs
  l_in = prev-mem h x list l xs r.chain.1 e

  segment :
      (prev next : ℕ)
      → prev ∉ list ∷ x ∷ xs
      → next ∉ list ∷ x ∷ xs
      → Chain (joined h x l prev next) x xs next
  segment prev next po qo =
      Chain-redirect h (joined h x l prev next) x list l next xs r.chain.1 r.distinct.1 e (record {
        linked = ground (arith, l_in);
        next = λ a i ne. ground arith;
        prev = λ a i. ground arith;
      })

  runs :
      (prev next : ℕ)
      → prev ∉ list ∷ x ∷ xs
      → next ∉ list ∷ x ∷ xs
      → Linked h prev next
      → splice_between list prev next h ≡ some (tt, joined h x l prev next)
  unfolding splice_between
  runs prev next po qo k =
      let node = (Ring-IsNode (x ∷ xs) l r (ground (arith, l_in))).next in ground (arith, l_in)

  around :
      (head : ℕ) (ys : List ℕ)
      → Ring h head ys
      → Apart (list ∷ x ∷ xs) (head ∷ ys)
      → (next : ℕ) × (h.next head ≡ some next)
        × (splice_between list head next h ≡ some (tt, joined h x l head next))
        × Chain (joined h x l head next) head (x ∷ xs ++ ys) head
        × SameOutside (x ∷ xs ++ head ∷ ys) h (joined h x l head next)
  around head [] q apart =
      let po : head ∉ list ∷ x ∷ xs = ground (arith, apart head) in
      (
        head,
        q.chain.0,
        runs head head po po q.chain,
        (ground (arith, l_in), rw append-nil (segment head head po po)),
        (record {
          next = λ a o. ground (arith, l_in, has-append a xs (head ∷ []));
          prev = λ a o. ground (arith, l_in, has-append a xs (head ∷ []));
        }),
      )
  around head (y ∷ ys) q apart =
      let po : head ∉ list ∷ x ∷ xs = ground (arith, apart head) in
      let qo : y ∉ list ∷ x ∷ xs = ground (arith, apart y) in
      let g = joined h x l head y in
      let back =
        Chain-frame {g = g} y head ys q.chain.1 (λ a i. ground (arith, l_in, apart a, apart l))
          (λ a i. ground (arith, l_in, apart a, apart x)) in
      (
        y,
        q.chain.0.0,
        runs head y po qo q.chain.0,
        (ground (arith, l_in), Chain-append g x y head xs ys (segment head y po qo) back),
        (record {
          next = λ a o. ground (arith, l_in, has-append a xs (head ∷ y ∷ ys));
          prev = λ a o. ground (arith, l_in, has-append a xs (head ∷ y ∷ ys));
        }),
      )

-- What joining leaves: one ring, and nothing written outside the two.
pub record Joined (h : Heap) (head : ℕ) (xs ys : List ℕ) (g : Heap) : Type 0 where
  pub ring : Ring g head (xs ++ ys)
  pub same : SameOutside (xs ++ head ∷ ys) h g

abbrev pub Splices : Heap → (list head : ℕ) → (xs ys : List ℕ) → Type 0
Splices h list head xs ys =
    (next : ℕ) × (h.next head ≡ some next)
    × Ends (Joined h head xs ys) (splice_between list head next) h

pub splice_between-Joined :
    {h : Heap} (list head x : ℕ) (xs ys : List ℕ)
    → Ring h list (x ∷ xs)
    → Ring h head ys
    → Apart (list ∷ x ∷ xs) (head ∷ ys)
    → Splices h list head (x ∷ xs) ys
splice_between-Joined {h} list head x xs ys r q apart =
    let (l, e) = some_of (h.prev list) (Ring-IsNode (x ∷ xs) list r (ground arith)).prev in
    let (next, at_next, ran, chain, same) = around xs r e head ys q apart in
    (
      next,
      at_next,
      (
        joined h x l head next,
        ran,
        record {
          ring = record {
            chain = chain;
            distinct =
                Distinct-cons_append head (x ∷ xs) ys r.distinct.1 q.distinct
                  λ a i. apart a (ground arith);
          };
          same = same;
        },
      ),
    )

-- The same at the other end: behind the last entry of the ring at `head`.
abbrev pub TailSplices : Heap → (list head : ℕ) → (xs ys : List ℕ) → Type 0
TailSplices h list head xs ys =
    (prev : ℕ) × (h.prev head ≡ some prev)
    × Ends (Joined h head ys xs) (splice_between list prev head) h

tail-Snoc :
    {h : Heap} (list head x : ℕ) (xs : List ℕ) {ys : List ℕ}
    → Snoc ys
    → Ring h list (x ∷ xs)
    → Ring h head ys
    → Apart (list ∷ x ∷ xs) (head ∷ ys)
    → TailSplices h list head (x ∷ xs) ys
tail-Snoc {h} list head x xs none_left r q apart =
    let (next, at_next, (g, ran, p)) = splice_between-Joined list head x xs [] r q apart in
    (
      head,
      q.chain.1,
      (
        g,
        ground (arith, ran),
        record {
          ring = rw append-nil at p.ring;
          same = SameOutside-mono _ _ p.same λ a o. ground (arith, has-append a xs (head ∷ []));
        },
      ),
    )
tail-Snoc {h} list head x xs (last ys l) r q apart =
    let at_last = Ring-rotate head l ys [] q in
    let apart' : Apart (list ∷ x ∷ xs) (l ∷ head ∷ ys) =
      λ a i. ground (arith, apart a, has-append a ys (l ∷ [])) in
    let (next, at_next, (g, ran, p)) =
      splice_between-Joined list l x xs (head ∷ ys) r at_last apart' in
    (
      l,
      at_last.chain.0.1,
      (
        g,
        ground (arith, ran),
        record {
          ring = rw append_assoc (Ring-rotate l head (x ∷ xs) ys p.ring);
          same = SameOutside-mono _ _ p.same λ a o. ground (
            arith,
            has-append a (ys ++ l ∷ []) (head ∷ x ∷ xs),
            has-append a ys (l ∷ []),
            has-append a xs (l ∷ head ∷ ys),
          );
        },
      ),
    )

pub splice_between-Joined_tail :
    {h : Heap} (list head x : ℕ) (xs ys : List ℕ)
    → Ring h list (x ∷ xs)
    → Ring h head ys
    → Apart (list ∷ x ∷ xs) (head ∷ ys)
    → TailSplices h list head (x ∷ xs) ys
splice_between-Joined_tail list head x xs ys r q apart =
    tail-Snoc list head x xs (snoc ys) r q apart
