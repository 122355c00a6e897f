-- ===== src/ListHead/Cut.antt =====
-- include/list.h: cutting a list in two.
use quark_os.Base.{
  ℕ, ◌≡◌, ◌∙◌, List, [], ◌∷◌, ◌++◌, some, arith, has, has-append, Apart, Distinct, Distinct-split,
  Distinct-cons_append, ◌∉◌, ◌==◌, ◌||◌, true,
}
use quark_os.ListHead.{Heap, update, cut_after, list_cut_position}
use quark_os.ListHead.Ring.{
  IsNode, Linked, Ring, Chain, Chain-split, Chain-append, Chain-frame, SameOutside, Ends,
  Ring-frame,
}
use quark_os.ListHead.Query.{list_empty_lem, list_is_singular_lem}
use quark_os.ListHead.Add.{init_list_head-Ring}

-- The heap after `__list_cut_position`: `first` heads the part that goes, `rest` the part that stays.
abbrev cut : Heap → (list head entry first rest : ℕ) → Heap
cut h list head entry first rest = record {
  next = update (update (update h.next list first) entry list) head rest;
  prev = update (update (update h.prev first list) list entry) rest head;
}

abbrev first_of : List ℕ → ℕ → ℕ
first_of [] d = d
first_of (x ∷ _) d = x

first_of-Linked : (h : Heap) (p q : ℕ) (xs : List ℕ) → Chain h p xs q → Linked h p (first_of xs q)
first_of-Linked h p q [] c = c
first_of-Linked h p q (x ∷ xs) c = c.0

first_of-mem : (xs : List ℕ) (d : ℕ) → (first_of xs d == d || has (first_of xs d) xs) ≡ true
first_of-mem [] d = ground arith
first_of-mem (x ∷ xs) d = ground arith

-- The two halves of the ring, and what tells their entries apart.
record Halves (h : Heap) (list head e : ℕ) (xs ys : List ℕ) : Type 0 where
  front : Chain h head xs e
  back : Chain h e ys head
  front_distinct : Distinct (head ∷ xs)
  back_distinct : Distinct (e ∷ ys)
  apart : Apart (head ∷ xs) (e ∷ ys)
  node : IsNode h list
  list_front : list ∉ head ∷ xs
  list_back : list ∉ e ∷ ys

abbrev after : Heap → (list head e : ℕ) → (xs ys : List ℕ) → Heap
after h list head e xs ys = cut h list head e (first_of xs e) (first_of ys head)

module _ (h : Heap) (list head e : ℕ) (xs ys : List ℕ) where
  Ring-Halves :
      Ring h head (xs ++ e ∷ ys)
      → IsNode h list
      → list ∉ head ∷ xs ++ e ∷ ys
      → Halves h list head e xs ys
  Ring-Halves r n out =
      let (c, d) = Chain-split h head e head xs ys r.chain in
      let (p, q, apart) = Distinct-split (head ∷ xs) (e ∷ ys) r.distinct in
      record {
        front = c;
        back = d;
        front_distinct = p;
        back_distinct = q;
        apart = apart;
        node = n;
        list_front = ground (arith, has-append list xs (e ∷ ys));
        list_back = ground (arith, has-append list xs (e ∷ ys));
      }

  cut_after-after :
      Halves h list head e xs ys → cut_after list head e h ≡ some (tt, after h list head e xs ys)
  unfolding cut_after
  cut_after-after t =
      let n = t.node in
      ground (arith, first_of-Linked h head e xs t.front, first_of-Linked h e head ys t.back)

module _ (h : Heap) (list head e : ℕ) where
  -- The part that goes, now at `list`.
  front-Chain :
      (xs ys : List ℕ)
      → Halves h list head e xs ys
      → Chain (after h list head e xs ys) list (xs ++ e ∷ []) list
  front-Chain [] ys t =
      ground (arith, first_of-mem ys head, t.apart head, t.list_front, t.list_back, t.back_distinct)
  front-Chain (x ∷ xs) ys t =
      let g = after h list head e (x ∷ xs) ys in
      let m = first_of-mem ys head in
      let lf = t.list_front in
      let lb = t.list_back in
      let df = t.front_distinct in
      let db = t.back_distinct in
      let kept =
        Chain-frame {g = g} x e xs t.front.1 (λ a i. ground (arith, t.apart a))
          (λ a i. ground (arith, t.apart a, t.apart x, t.apart head)) in
      (
        ground (arith, t.apart x, t.apart head),
        Chain-append g x e list xs [] kept (ground (arith, t.apart x, t.apart head)),
      )

  -- The part that stays.
  back-Chain :
      (xs ys : List ℕ) → Halves h list head e xs ys → Chain (after h list head e xs ys) head ys head
  back-Chain xs [] t = ground (arith, first_of-mem xs e, t.apart head, t.list_front)
  back-Chain xs (y ∷ ys) t =
      let g = after h list head e xs (y ∷ ys) in
      let m = first_of-mem xs e in
      let lf = t.list_front in
      let lb = t.list_back in
      let df = t.front_distinct in
      let db = t.back_distinct in
      let kept =
        Chain-frame {g = g} y head ys t.back.1 (λ a i. ground (arith, t.apart a, t.apart head))
          (λ a i. ground (arith, t.apart a, t.apart head, t.apart (first_of xs e))) in
      (ground (arith, t.apart y, t.apart head, t.apart (first_of xs e)), kept)

-- What the cut leaves: the entries up to `e` at `list`, the others at `head`.
pub record Cuts (h : Heap) (list head e : ℕ) (xs ys : List ℕ) (g : Heap) : Type 0 where
  pub front : Ring g list (xs ++ e ∷ [])
  pub back : Ring g head ys
  pub same : SameOutside (list ∷ head ∷ xs ++ e ∷ ys) h g

module _ (h : Heap) (list head e : ℕ) (xs ys : List ℕ) where
  after-Cuts : Halves h list head e xs ys → Cuts h list head e xs ys (after h list head e xs ys)
  after-Cuts t =
      let lf = t.list_front in
      let lb = t.list_back in
      let df = t.front_distinct in
      let db = t.back_distinct in
      let out = λ (a : ℕ). has-append a xs (e ∷ ys) in
      record {
        front = record {
          chain = front-Chain h list head e xs ys t;
          distinct =
              Distinct-cons_append list xs (e ∷ []) df.1 (ground arith)
                λ a i. ground (arith, t.apart a);
        };
        back = record {
          chain = back-Chain h list head e xs ys t;
          distinct = (ground (arith, t.apart head), db.1);
        };
        same = record {
          next = λ a o. ground (arith, first_of-mem xs e, first_of-mem ys head, out a);
          prev = λ a o. ground (arith, first_of-mem xs e, first_of-mem ys head, out a);
        };
      }

-- With an entry of the list both guards let the cut through.
cuts :
    {h : Heap} (list head e : ℕ) (xs ys : List ℕ)
    → Ring h head (xs ++ e ∷ ys)
    → list_cut_position list head e h ≡ cut_after list head e h
unfolding list_cut_position
cuts list head e [] ys r =
    ground (arith, list_empty_lem (e ∷ ys) r, list_is_singular_lem (e ∷ ys) r, r.chain.0.0)
cuts list head e (x ∷ []) ys r =
    ground (arith, list_empty_lem (x ∷ e ∷ ys) r, list_is_singular_lem (x ∷ e ∷ ys) r, r.chain.0.0)
cuts list head e (x ∷ y ∷ xs) ys r = ground (
  arith,
  list_empty_lem (x ∷ y ∷ xs ++ e ∷ ys) r,
  list_is_singular_lem (x ∷ y ∷ xs ++ e ∷ ys) r,
  r.chain.0.0,
  has-append head xs (e ∷ ys),
)

module _ {h : Heap} (list head : ℕ) (n : IsNode h list) where
  -- list_cut_position at an entry of a list moves the entries up to it to a list head outside
  -- that list, leaves the ones behind it, keeps both parts in their order and writes nothing
  -- outside the two.
  pub list_cut_position-append :
      (e : ℕ) (xs ys : List ℕ)
      → Ring h head (xs ++ e ∷ ys)
      → list ∉ head ∷ xs ++ e ∷ ys
      → Ends (Cuts h list head e xs ys) (list_cut_position list head e) h
  unfolding list_cut_position
  list_cut_position-append e xs ys r out =
      let t = Ring-Halves h list head e xs ys r n out in
      (
        after h list head e xs ys,
        cuts list head e xs ys r ∙ cut_after-after h list head e xs ys t,
        after-Cuts h list head e xs ys t,
      )

  -- list_cut_position at the head of a list that is not empty makes a list head outside that list
  -- an empty list and leaves the list as it was.
  pub list_cut_position-head :
      (x : ℕ) (xs : List ℕ)
      → Ring h head (x ∷ xs)
      → list ∉ head ∷ x ∷ xs
      → Ends (λ g. Ring g list [] × Ring g head (x ∷ xs)) (list_cut_position list head head) h
  unfolding list_cut_position
  list_cut_position-head x xs r out =
      let (g, runs, p) = init_list_head-Ring list n in
      (
        g,
        ground
            (arith, runs, list_empty_lem (x ∷ xs) r, list_is_singular_lem (x ∷ xs) r, r.chain.0.0),
        (p.0, Ring-frame (x ∷ xs) (list ∷ []) r p.1 λ a i. ground arith),
      )
