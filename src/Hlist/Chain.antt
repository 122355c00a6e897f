-- ===== src/Hlist/Chain.antt =====
-- What a list of include/list.h with a single pointer as head stands for, and how it changes.
use quark_os.Base.{
  ℕ, zero, suc, ◌<◌, ◌≡◌, ◌≢◌, ◌∙◌, true, some, List, [], ◌∷◌, ◌++◌, arith, ◌∉◌, ◌∈◌, Distinct,
  length,
}
use quark_os.ListHead.{poison1, poison2}
use quark_os.ListHead.Ring.{is_some}
use quark_os.Hlist.{Words, pprev, set_word, hlist_unlink, hlist_del, hlist_add_head, hlist_walk}

-- From the word `slot` the nodes `xs` follow, each with the way back, up to NULL.
abbrev pub Chain : Words → ℕ → List ℕ → Type 0
Chain m slot [] = m slot ≡ some 0
Chain m slot (x ∷ xs) = (m slot ≡ some x) × (m (pprev x) ≡ some slot) × (x ≢ 0) × Chain m x xs

-- The words of the list.
abbrev pub slots : ℕ → List ℕ → List ℕ
slots slot [] = slot ∷ []
slots slot (x ∷ xs) = slot ∷ pprev x ∷ slots x xs

-- The list at `h` has the nodes `xs`, and no two of their words are one.
pub record IsHlist (m : Words) (h : ℕ) (xs : List ℕ) : Type 0 where
  pub chain : Chain m h xs
  pub distinct : Distinct (slots h xs)

Chain-frame :
    (m g : Words) (slot : ℕ) (xs : List ℕ)
    → Chain m slot xs
    → ((a : ℕ) → a ∈ slots slot xs → g a ≡ m a)
    → Chain g slot xs
Chain-frame m g slot [] c same = same slot (ground arith) ∙ c
Chain-frame m g slot (x ∷ xs) c same = (
  same slot (ground arith) ∙ c.0,
  same (pprev x) (ground arith) ∙ c.1,
  c.2,
  Chain-frame m g x xs c.3 (λ a i. same a (ground arith)),
)

-- hlist_add_head puts a node that is not in the list, and whose words are mapped, in front of its
-- nodes and writes no other word.
pub hlist_add_head-cons :
    {m : Words} {h : ℕ} (xs : List ℕ) (n : ℕ)
    → IsHlist m h xs
    → n ≢ 0
    → is_some (m n) ≡ true
    → is_some (m (pprev n)) ≡ true
    → n ∉ slots h xs
    → pprev n ∉ slots h xs
    → (g : Words) × (hlist_add_head n h m ≡ some (tt, g))
      × IsHlist g h (n ∷ xs)
      × ((a : ℕ) → a ∉ pprev n ∷ n ∷ slots h xs → g a ≡ m a)
unfolding hlist_add_head
hlist_add_head-cons {m} {h} [] n l real p q out out' = (
  set_word (pprev n) h (set_word h n (set_word n 0 m)),
  ground (arith, l.chain, p, q),
  record { chain = (ground arith, ground arith, real, ground arith); distinct = ground arith },
  ground arith,
)
hlist_add_head-cons {m} {h} (x ∷ xs) n l real p q out out' =
    let g = set_word (pprev n) h (set_word h n (set_word (pprev x) n (set_word n x m))) in
    let (at, back, x_real, rest) = l.chain in
    (
      g,
      ground (arith, at, back, x_real, p, q),
      record {
        chain = (
          ground arith,
          ground arith,
          real,
          (
            ground arith,
            ground arith,
            x_real,
            Chain-frame m g x xs rest (λ a i. ground (arith, l.distinct)),
          ),
        );
        distinct = ground (arith, l.distinct);
      },
      ground arith,
    )

-- The list without `n`, before the words of `n` are written.
record Unlinked (m : Words) (slot n : ℕ) (xs ys : List ℕ) : Type 0 where
  pub out : Words
  pub runs : hlist_unlink n m ≡ some (tt, out)
  pub chain : Chain out slot (xs ++ ys)
  pub distinct : Distinct (slots slot (xs ++ ys))
  pub no_node : n ∉ slots slot (xs ++ ys)
  pub no_pprev : pprev n ∉ slots slot (xs ++ ys)
  pub sub : (a : ℕ) → a ∉ slots slot (xs ++ n ∷ ys) → a ∉ slots slot (xs ++ ys)
  pub same : (a : ℕ) → a ∉ slots slot (xs ++ ys) → out a ≡ m a
  pub mapped : (is_some (m n) ≡ true) × (is_some (m (pprev n)) ≡ true)

-- Both words of a node are among those of the list.
node-slots :
    (slot n : ℕ) (xs ys : List ℕ)
    → (n ∈ slots slot (xs ++ n ∷ ys)) × (pprev n ∈ slots slot (xs ++ n ∷ ys))
node-slots slot n [] [] = (ground arith, ground arith)
node-slots slot n [] (y ∷ ys) = (ground arith, ground arith)
node-slots slot n (x ∷ xs) ys =
    let r = node-slots x n xs ys in (ground (arith, r.0), ground (arith, r.1))

hlist_unlink-Unlinked :
    (m : Words) (slot n : ℕ) (xs ys : List ℕ)
    → Chain m slot (xs ++ n ∷ ys)
    → Distinct (slots slot (xs ++ n ∷ ys))
    → Unlinked m slot n xs ys
unfolding hlist_unlink
hlist_unlink-Unlinked m slot n [] [] (at, back, real, end) d = record {
  out = set_word slot 0 m;
  runs = ground (arith, at, back, end);
  chain = ground arith;
  distinct = ground arith;
  no_node = ground (arith, d);
  no_pprev = ground (arith, d);
  sub = λ a out. ground arith;
  same = λ a out. ground arith;
  mapped = (ground (arith, end), ground (arith, back));
}
hlist_unlink-Unlinked m slot n [] (y ∷ ys) (at, back, real, (next, back', real', rest)) d = record {
  out = set_word (pprev y) slot (set_word slot y m);
  runs = ground (arith, at, back, next, back', real');
  chain = (
    ground (arith, d),
    ground arith,
    real',
    Chain-frame m (set_word (pprev y) slot (set_word slot y m)) y ys rest
        (λ a i. ground (arith, d)),
  );
  distinct = ground (arith, d);
  no_node = ground (arith, d);
  no_pprev = ground (arith, d);
  sub = λ a out. ground arith;
  same = λ a out. ground arith;
  mapped = (ground (arith, next), ground (arith, back));
}
hlist_unlink-Unlinked m slot n (x ∷ xs) ys (at, back, real, rest) d =
    let u = hlist_unlink-Unlinked m x n xs ys rest (ground (arith, d)) in
    record {
      out = u.out;
      runs = u.runs;
      chain = (
        u.same slot (u.sub slot (ground (arith, d))) ∙ at,
        u.same (pprev x) (u.sub (pprev x) (ground (arith, d))) ∙ back,
        real,
        u.chain,
      );
      distinct = ground (arith, d, u.distinct, u.sub slot, u.sub (pprev x));
      no_node = ground (arith, u.no_node, d, (node-slots x n xs ys).0);
      no_pprev = ground (arith, u.no_pprev, d, (node-slots x n xs ys).1);
      sub = λ a out. ground (arith, u.sub a);
      same = λ a out. ground (arith, u.same a);
      mapped = u.mapped;
    }

-- hlist_del takes a node out of its list, wherever it stands, keeps the others in their order,
-- leaves the two poisons in its words and writes no word outside the list.
pub hlist_del-append :
    {m : Words} {h : ℕ} (xs ys : List ℕ) (n : ℕ)
    → IsHlist m h (xs ++ n ∷ ys)
    → (g : Words) × (hlist_del n m ≡ some (tt, g))
      × IsHlist g h (xs ++ ys)
      × (g n ≡ some poison1)
      × (g (pprev n) ≡ some poison2)
      × ((a : ℕ) → a ∉ slots h (xs ++ n ∷ ys) → g a ≡ m a)
unfolding hlist_del
hlist_del-append {m} {h} xs ys n l =
    let u = hlist_unlink-Unlinked m h n xs ys l.chain l.distinct in
    let g = set_word (pprev n) poison2 (set_word n poison1 u.out) in
    let inside = node-slots h n xs ys in
    (
      g,
      ground (arith, u.runs, u.same n u.no_node, u.same (pprev n) u.no_pprev, u.mapped),
      record {
        chain =
            Chain-frame u.out g h (xs ++ ys) u.chain (λ a i. ground (arith, u.no_node, u.no_pprev));
        distinct = u.distinct;
      },
      ground arith,
      ground arith,
      λ a out. ground (arith, u.same a (u.sub a out), inside.0, inside.1),
    )

-- hlist_for_each over a list meets its nodes in their order; one round more than there are nodes
-- is enough.
pub hlist_walk_lem :
    (m : Words) (slot fuel : ℕ) (xs : List ℕ)
    → Chain m slot xs
    → length xs < fuel
    → hlist_walk fuel slot m ≡ some xs
unfolding hlist_walk
hlist_walk_lem m slot zero xs c lt = absurd (omega arith)
hlist_walk_lem m slot (suc fuel) [] c lt = ground (arith, c)
hlist_walk_lem m slot (suc fuel) (x ∷ xs) (at, back, real, rest) lt =
    ground (arith, at, real, hlist_walk_lem m x fuel xs rest (omega (arith, lt)))
