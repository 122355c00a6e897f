-- ===== src/Printf/Number.antt =====
-- number: the characters it puts, and reading the digits back.
use mathlib.Core.List.{reverse, reverse-append}
use quark_os.Base.{
  ℕ, ◌+◌, ◌-◌, ◌≤◌, ◌≡◌, refl, Bool, true, false, not, ◌&&◌, ◌||◌, List, [], ◌∷◌, ◌++◌, arith,
  length, length-append, ◌==◌, ltb, if◌then◌else◌,
}
use quark_os.Printf.{
  Out, Flags, put, put_list, put_times, put_reversed, tmp, sign_char, magnitude, special_prefix,
  size_left, number_in, number,
}
use quark_os.Printf.Emit.{
  replicate, length-replicate, put_list-append, put_times-replicate, put_reversed-reverse,
}

length-reverse : (xs : List ℕ) → length (reverse xs) ≡ length xs
length-reverse [] = refl
length-reverse (x ∷ xs) =
    ground
      (arith, reverse-append (x ∷ []) xs, length-append (reverse xs) (x ∷ []), length-reverse xs)

-- A printed number by its parts: spaces, sign, prefix, zeros, digits, spaces.
module _ (sign room zeros : ℕ) (prefix ds : List ℕ) where
  abbrev pub text_of_parts : (zeropad left no_sign : Bool) → List ℕ
  text_of_parts zeropad left no_sign =
      (if zeropad || left then [] else replicate room b' ')
      ++ ((if no_sign then [] else sign ∷ [])
          ++ (prefix
              ++ ((if left then [] else if zeropad then replicate room b'0' else [])
                  ++ (replicate zeros b'0'
                      ++ (reverse ds ++ (if left then replicate room b' ' else []))))))

  pub length-text_of_parts :
      (zeropad left no_sign : Bool)
      → length (text_of_parts zeropad left no_sign)
        ≡ room + ((if no_sign then 0 else 1) + (length prefix + (zeros + length ds)))
  length-text_of_parts true true true =
      simp (length-append, length-replicate, length-reverse) (omega arith)
  length-text_of_parts true true false =
      simp (length-append, length-replicate, length-reverse) (omega arith)
  length-text_of_parts true false true =
      simp (length-append, length-replicate, length-reverse) (omega arith)
  length-text_of_parts true false false =
      simp (length-append, length-replicate, length-reverse) (omega arith)
  length-text_of_parts false true true =
      simp (length-append, length-replicate, length-reverse) (omega arith)
  length-text_of_parts false true false =
      simp (length-append, length-replicate, length-reverse) (omega arith)
  length-text_of_parts false false true =
      simp (length-append, length-replicate, length-reverse) (omega arith)
  length-text_of_parts false false false =
      simp (length-append, length-replicate, length-reverse) (omega arith)

module _ (f : Flags) (num base size precision : ℕ) where
  abbrev pub digits : List ℕ
  digits = tmp f.large base (magnitude f num)

  -- The digits and the zeros before them.
  abbrev pub wide : ℕ
  wide = if ltb precision (length digits) then length digits else precision

  abbrev pub room : ℕ
  room = size_left f num base size - wide

  unfoldable pub number_text : List ℕ
  number_text =
      text_of_parts (sign_char f num) room (wide - length digits) (special_prefix f base) digits
        f.zeropad f.left (sign_char f num == 0)

-- The same chain of parts, once put one by one and once as one text.
module _ (end sign room zeros : ℕ) (prefix ds : List ℕ) where
  abbrev put_parts : (zeropad left no_sign : Bool) → Out → Out
  put_parts zeropad left no_sign o =
      let zeropad = zeropad && not left in
      let lead = not (zeropad || left) in
      let o = if lead then put_times end room b' ' o else o in
      let size = if lead then 0 else room in
      let o = if no_sign then o else put end sign o in
      let o = put_list end prefix o in
      let o = if left then o else put_times end size (if zeropad then b'0' else b' ') o in
      let size = if left then size else 0 in
      let o = put_times end zeros b'0' o in
      let o = put_reversed end ds o in put_times end size b' ' o

  put_parts-text :
      (zeropad left no_sign : Bool) (o : Out)
      → put_parts zeropad left no_sign o
        ≡ put_list end (text_of_parts sign room zeros prefix ds zeropad left no_sign) o
  unfolding put_list put_times
  put_parts-text true true true o =
      simp (put_list-append, put_times-replicate, put_reversed-reverse)
  put_parts-text true true false o =
      simp (put_list-append, put_times-replicate, put_reversed-reverse)
  put_parts-text true false true o =
      simp (put_list-append, put_times-replicate, put_reversed-reverse)
  put_parts-text true false false o =
      simp (put_list-append, put_times-replicate, put_reversed-reverse)
  put_parts-text false true true o =
      simp (put_list-append, put_times-replicate, put_reversed-reverse)
  put_parts-text false true false o =
      simp (put_list-append, put_times-replicate, put_reversed-reverse)
  put_parts-text false false true o =
      simp (put_list-append, put_times-replicate, put_reversed-reverse)
  put_parts-text false false false o =
      simp (put_list-append, put_times-replicate, put_reversed-reverse)

module _ (end : ℕ) (f : Flags) (num base size precision : ℕ) where
  -- For a base from 2 to 36, number puts the characters of number_text: padding, sign, prefix,
  -- zeros and the digits from the highest down, in the order that the flags ask for.
  pub number-number_text :
      (o : Out)
      → 2 ≤ base
      → base ≤ 36
      → number end f num base size precision o
        ≡ put_list end (number_text f num base size precision) o
  unfolding number number_in number_text
  number-number_text o lo hi = ground (
    arith,
    put_parts-text end (sign_char f num) (room f num base size precision)
        (wide f num base size precision - length (digits f num base size precision))
        (special_prefix f base) (digits f num base size precision) f.zeropad f.left
        (sign_char f num == 0) o,
  )
