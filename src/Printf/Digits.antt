-- ===== src/Printf/Digits.antt =====
-- number: how wide a printed number is, and reading its digits back.
use mathlib.Core.List.{reverse, reverse-append, append_assoc}
use quark_os.Base.{
  ℕ, zero, suc, ◌+◌, ◌-◌, ◌/◌, ◌%◌, ◌^◌, ◌<◌, ◌≡◌, ◌∙◌, refl, ap, false, inl, inr, List, [], ◌∷◌,
  ◌++◌, arith, length, ◌==◌, ltb, if◌then◌else◌, Bool-cases,
}
use Prim.Native.Nat.{max}
use native.Mathlib.Nat.{two-pow-succ}
use quark_os.Ctype.{isdigit, mask_of, entry_at, ctype}
use quark_os.Ctype.Ascii.{isdigit_lem}
use quark_os.Printf.{
  Flags, no_flags, digit_char, tmp_digits, tmp, do_div_rem, sign_char, magnitude, special_prefix,
  size_left, skip_atoi,
}
use quark_os.Printf.Emit.{replicate}
use quark_os.Printf.Number.{length-text_of_parts, digits, wide, room, number_text}
use quark_os.Printf.Division.{do_div-div_mod}

-- The characters that do not count as digits.
abbrev pub extra : Flags → (num base : ℕ) → ℕ
extra f num base = (if sign_char f num == 0 then 0 else 1) + length (special_prefix f base)

size_left-extra :
    (f : Flags) (num base size : ℕ) → size_left f num base size ≡ size - extra f num base
unfolding size_left special_prefix
size_left-extra f num base size = ground arith

-- The text of a number is as long as the width, or as its sign, prefix and digits together, with
-- the precision as the least count of digits, if those need more.
pub length-number_text :
    (f : Flags) (num base size precision : ℕ)
    → length (number_text f num base size precision)
      ≡ max size (extra f num base + max precision (length (tmp f.large base (magnitude f num))))
unfolding number_text
length-number_text f num base size precision = ground (
  arith,
  size_left-extra f num base size,
  length-text_of_parts (sign_char f num) (room f num base size precision)
      (wide f num base size precision - length (digits f num base size precision))
      (special_prefix f base) (digits f num base size precision) f.zeropad f.left
      (sign_char f num == 0),
)

step_back :
    (num : ℕ) (rest : List ℕ)
    → num < 2 ^ 64
    → skip_atoi (num / 10) (digit_char false (do_div_rem num 10) ∷ rest) ≡ skip_atoi num rest
unfolding skip_atoi
step_back num rest h = ground (arith, do_div-div_mod num 10, isdigit_lem (b'0' + num % 10))

digits_back :
    (fuel num : ℕ) (rest : List ℕ)
    → num < 2 ^ fuel
    → num < 2 ^ 64
    → skip_atoi 0 (reverse (tmp_digits fuel false 10 num) ++ rest) ≡ skip_atoi num rest
unfolding tmp_digits
digits_back zero num rest small h = ground arith
digits_back (suc fuel) num rest small h = elim (Bool-cases (num == 0)) [
  | inl e ↦ ground arith
  | inr ne ↦
      let q = do_div-div_mod num 10 (omega arith) (omega arith) h in
      let below = two-pow-succ fuel in
      let d = digit_char false (do_div_rem num 10) in
      let lower = tmp_digits fuel false 10 (num / 10) in
      let shape : tmp_digits (suc fuel) false 10 num ≡ d ∷ lower = ground (arith, q.0) in
      ap (λ (ds : List ℕ). skip_atoi 0 (reverse ds ++ rest)) shape
      ∙ ap (λ (ds : List ℕ). skip_atoi 0 (ds ++ rest)) (reverse-append (d ∷ []) lower)
      ∙ ap (skip_atoi 0) (append_assoc (reverse lower) (d ∷ []) rest)
      ∙ digits_back fuel (num / 10) (d ∷ rest) (omega arith) (omega arith)
      ∙ step_back num rest h
]

plain_text : (num : ℕ) → number_text no_flags num 10 0 0 ≡ reverse (tmp false 10 num) ++ []
unfolding number_text sign_char magnitude special_prefix size_left
plain_text num =
    let ds = tmp false 10 num in
    let no_room : (0 - (if ltb 0 (length ds) then length ds else 0)) ≡ 0 = omega arith in
    let no_zeros : ((if ltb 0 (length ds) then length ds else 0) - length ds) ≡ 0 = ground arith in
    ap
      (λ (r : ℕ).
        replicate r b' '
        ++ (replicate ((if ltb 0 (length ds) then length ds else 0) - length ds) b'0'
            ++ (reverse ds ++ [])))
      no_room
    ∙ ap (λ (r : ℕ). replicate r b'0' ++ (reverse ds ++ [])) no_zeros

zero_back : skip_atoi 0 (b'0' ∷ []) ≡ (0, [])
unfolding skip_atoi isdigit mask_of entry_at ctype
zero_back = refl

end_of_digits : (num : ℕ) → skip_atoi num [] ≡ (num, [])
unfolding skip_atoi
end_of_digits num = refl

-- skip_atoi of the text of a number below 2 ^ 31, printed to the base 10 with no flags, no width
-- and no precision, reads that number and leaves nothing.
pub skip_atoi-number_text :
    (num : ℕ) → num < 2 ^ 31 → skip_atoi 0 (number_text no_flags num 10 0 0) ≡ (num, [])
skip_atoi-number_text num h = ap (skip_atoi 0) (plain_text num) ∙ (elim (Bool-cases (num == 0)) [
  | inl e ↦
      let shape : tmp false 10 num ≡ b'0' ∷ [] = ground (arith, e) in
      ap (λ (ds : List ℕ). skip_atoi 0 (reverse ds ++ [])) shape ∙ zero_back ∙ ground arith
  | inr ne ↦
      let shape : tmp false 10 num ≡ tmp_digits 64 false 10 num = ground (arith, ne) in
      ap (λ (ds : List ℕ). skip_atoi 0 (reverse ds ++ [])) shape
      ∙ digits_back 64 num [] (omega arith) (omega arith)
      ∙ end_of_digits num
])
