-- ===== src/ListHead/Del.antt =====
-- include/list.h: removal.
use quark_os.Base.{ℕ, ◌≡◌, List, [], ◌∷◌, ◌++◌, some, arith, has-append}
use quark_os.ListHead.{Heap, update, list_del, list_del_init, poison1, poison2}
use quark_os.ListHead.Ring.{Ring, SameOutside, Ends, Ring-frame}
use quark_os.ListHead.Unlink.{Unlinked, Ring-Unlinked, not-mem_rest}
use quark_os.ListHead.Add.{init_list_head-Ring}

-- What a removal leaves: the others in their order, and nothing written elsewhere.
pub record Deleted (h : Heap) (head e : ℕ) (xs ys : List ℕ) (g : Heap) : Type 0 where
  pub ring : Ring g head (xs ++ ys)
  pub same : SameOutside (head ∷ xs ++ e ∷ ys) h g

module _ {h : Heap} {head e : ℕ} (xs ys : List ℕ) (r : Ring h head (xs ++ e ∷ ys)) where
  written :
      (u : Unlinked h head e (xs ++ ys)) (g : Heap)
      → SameOutside (e ∷ []) u.out g
      → Deleted h head e xs ys g
  written u g s =
      let out = not-mem_rest head e xs ys r.distinct in
      record {
        ring = Ring-frame (xs ++ ys) (e ∷ []) u.ring s λ a i. ground arith;
        same = record {
          next = λ a o.
              ground (arith, s.next a, u.same.next a, has-append a xs ys, has-append a xs (e ∷ ys));
          prev = λ a o.
              ground (arith, s.prev a, u.same.prev a, has-append a xs ys, has-append a xs (e ∷ ys));
        };
      }

  -- list_del takes an entry out of its list, wherever it stands, keeps the others in their order,
  -- leaves the two poisons in its links and writes nothing outside the list.
  pub list_del-append :
      Ends
        (λ g. Deleted h head e xs ys g × (g.next e ≡ some poison1) × (g.prev e ≡ some poison2))
        (list_del e)
        h
  unfolding list_del
  list_del-append =
      let u = Ring-Unlinked xs ys r in
      let out = not-mem_rest head e xs ys r.distinct in
      let g : Heap = record {
        next = update u.out.next e poison1;
        prev = update u.out.prev e poison2;
      } in
      (
        g,
        ground (arith, u.at_prev, u.at_next, u.runs, u.same.next e, u.same.prev e, out),
        (written u g (ground arith), ground arith, ground arith),
      )

  -- list_del_init takes an entry out of its list, keeps the others in their order, makes the
  -- entry an empty list and writes nothing outside the list.
  pub list_del_init-append : Ends (λ g. Deleted h head e xs ys g × Ring g e []) (list_del_init e) h
  unfolding list_del_init
  list_del_init-append =
      let u = Ring-Unlinked xs ys r in
      let out = not-mem_rest head e xs ys r.distinct in
      let (g, runs, p) = init_list_head-Ring e (record {
        next = ground (arith, u.at_next, u.same.next e, out);
        prev = ground (arith, u.at_prev, u.same.prev e, out);
      }) in
      (g, ground (arith, u.at_prev, u.at_next, u.runs, runs), (written u g p.1, p.0))
