-- ===== src/Printf/Emit.antt =====
-- What a run of characters leaves in the memory.
use mathlib.Core.List.{reverse, reverse-append}
use quark_os.Base.{
  ℕ, zero, suc, ◌+◌, ◌-◌, ◌%◌, ◌^◌, ◌≤◌, ◌≡◌, refl, ap, ◌&&◌, List, [], ◌∷◌, ◌++◌, arith, length,
  ◌==◌, ltb, leb, if◌then◌else◌,
}
use quark_os.Ctype.{entry_at}
use quark_os.Printf.{Out, put, put_times, put_list, put_reversed}

abbrev pub replicate : (n c : ℕ) → List ℕ
replicate zero c = []
replicate (suc n) c = c ∷ replicate n c

pub length-replicate : (n c : ℕ) → length (replicate n c) ≡ n
length-replicate zero c = refl
length-replicate (suc n) c = ground (arith, length-replicate n c)

entry_at-cons :
    (c : ℕ) (cs : List ℕ) (i : ℕ)
    → entry_at (c ∷ cs) i ≡ (if i == 0 then c else entry_at cs (i - 1))
unfolding entry_at
entry_at-cons c cs zero = refl
entry_at-cons c cs (suc i) = ground arith

module _ (end : ℕ) where
  pub put_list-append :
      (cs ds : List ℕ) (o : Out) → put_list end (cs ++ ds) o ≡ put_list end ds (put_list end cs o)
  unfolding put_list
  put_list-append [] ds o = refl
  put_list-append (c ∷ cs) ds o = put_list-append cs ds (put end c o)

  pub put_times-replicate :
      (n c : ℕ) (o : Out) → put_times end n c o ≡ put_list end (replicate n c) o
  unfolding put_times put_list
  put_times-replicate zero c o = refl
  put_times-replicate (suc n) c o = put_times-replicate n c (put end c o)

  pub put_reversed-reverse :
      (cs : List ℕ) (o : Out) → put_reversed end cs o ≡ put_list end (reverse cs) o
  unfolding put_reversed put_list
  put_reversed-reverse [] o = refl
  put_reversed-reverse (c ∷ cs) o =
      rw (reverse-append (c ∷ []) cs, put_list-append (reverse cs) (c ∷ []) o)
        (ap (put end c) (put_reversed-reverse cs o))

  pub str-put_list : (cs : List ℕ) (o : Out) → (put_list end cs o).str ≡ o.str + length cs
  unfolding put_list put
  str-put_list [] o = omega arith
  str-put_list (c ∷ cs) o = omega (arith, str-put_list cs (put end c o))

  -- A character stands at its place, unless that is behind the end, where the text does not run past
  -- 2 ^ 32.
  pub ram-put_list :
      (cs : List ℕ) (o : Out) (a : ℕ)
      → o.str + length cs ≤ 2 ^ 32
      → (put_list end cs o).ram a ≡ (
          if leb o.str a && ltb a (o.str + length cs) && leb a end
          then entry_at cs (a - o.str) % 256
          else o.ram a)
  unfolding put_list put
  ram-put_list [] o a fits = ground arith
  ram-put_list (c ∷ cs) o a fits =
      ground (arith, ram-put_list cs (put end c o) a (omega arith), entry_at-cons c cs (a - o.str))
