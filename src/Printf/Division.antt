-- ===== src/Printf/Division.antt =====
-- do_div divides 64 bits by a base below 2 ^ 32.
use native.Mathlib.Nat.{
  div-add-mod', div-lt_iff_lt-mul, mod-lt, mul_right_comm, add-mul-div_right,
  add-mul-mod_self_right,
}
use quark_os.Base.{ℕ, ◌+◌, ◌*◌, ◌/◌, ◌%◌, ◌^◌, ◌<◌, ◌≡◌, ◌∙◌, ap, arith}
use quark_os.Printf.{do_div_rem, do_div_quot}

-- The dividend by its two halves.
parts :
    (n base : ℕ) → n ≡ n / 2 ^ 32 % base * 2 ^ 32 + n % 2 ^ 32 + n / 2 ^ 32 / base * 2 ^ 32 * base
parts n base =
    omega (arith, div-add-mod' (n / 2 ^ 32) base, mul_right_comm (n / 2 ^ 32 / base) (2 ^ 32) base)

-- For a dividend below 2 ^ 64 and a base above 0 and below 2 ^ 32, do_div leaves the quotient and
-- returns the remainder of the whole division, and the quotient of its second divl fits into 32
-- bits.
pub do_div-div_mod :
    (n base : ℕ)
    → 0 < base
    → base < 2 ^ 32
    → n < 2 ^ 64
    → (do_div_quot n base ≡ n / base)
      × (do_div_rem n base ≡ n % base)
      × ((n / 2 ^ 32 % base * 2 ^ 32 + n % 2 ^ 32) / base < 2 ^ 32)
unfolding do_div_quot do_div_rem
do_div-div_mod n base pos small bound =
    let whole = parts n base in
    let low = mod-lt (n / 2 ^ 32) pos in
    let x = n / 2 ^ 32 % base * 2 ^ 32 + n % 2 ^ 32 in
    let y = n / 2 ^ 32 / base * 2 ^ 32 in
    let quot = ap (λ (m : ℕ). m / base) whole ∙ add-mul-div_right x y pos in
    let rem = ap (λ (m : ℕ). m % base) whole ∙ add-mul-mod_self_right x y base in
    (omega (arith, quot), omega (arith, rem), (div-lt_iff_lt-mul pos).1 (omega (arith, low)))
