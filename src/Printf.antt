-- ===== src/Printf.antt =====
-- kernel/printf.c, do_div, number, skip_atoi, vsnprintf and printf.
--
-- The output is the memory and the pointer `str`. The format is the list of its bytes before the
-- terminating 0. The arguments are the words of the caller's stack from the first one on, of which
-- a `long long` takes two. An `int` that only counts rounds of a loop or is compared with such a
-- count is a number: below 0 it acts as 0 does. Where -1 stands for an absent width or precision,
-- it is `none`. The bits of `type` are the fields of a record. `str` counts on past 2 ^ 32: the
-- pointer of the source is its low 32 bits, and those are what is compared and written through.
pub mod Emit
pub mod Division
pub mod Number
pub mod Digits
pub mod Format
mod Suffix
pub mod Directive
pub mod Result
pub mod Plain
pub mod Fixed
pub mod Screen
pub mod Dump
mod Tests
use quark_os.Base.{
  ℕ, zero, suc, ◌+◌, ◌-◌, ◌*◌, ◌/◌, ◌%◌, ◌^◌, Bool, true, false, not, ◌&&◌, ◌||◌, Option, none,
  some, List, [], ◌∷◌, length, ◌==◌, ltb, leb, if◌then◌else◌,
}
use quark_os.Ram.{Ram, poke, strnlen}
use quark_os.Ctype.{isdigit}

pub record Out : Type 0 where
  pub ram : Ram
  pub str : ℕ

pub record Flags : Type 0 where
  pub zeropad : Bool
  pub sign : Bool
  pub plus : Bool
  pub space : Bool
  pub left : Bool
  pub special : Bool
  pub large : Bool

abbrev pub no_flags : Flags
no_flags = record {
  zeropad = false;
  sign = false;
  plus = false;
  space = false;
  left = false;
  special = false;
  large = false;
}

-- `do_div`: the remainder, and what it leaves in `n`. The second `divl` divides 64 bits.
unfoldable pub do_div_rem : (n base : ℕ) → ℕ
do_div_rem n base = (n / 2 ^ 32 % base * 2 ^ 32 + n % 2 ^ 32) % base

unfoldable pub do_div_quot : (n base : ℕ) → ℕ
do_div_quot n base = n / 2 ^ 32 / base * 2 ^ 32 + (n / 2 ^ 32 % base * 2 ^ 32 + n % 2 ^ 32) / base

-- `digits[d]`
abbrev pub digit_char : (large : Bool) (d : ℕ) → ℕ
digit_char large d =
    if ltb d 10 then b'0' + d else if large then b'A' + (d - 10) else b'a' + (d - 10)

-- `tmp`, whose first entry is the lowest digit. A number below 2 ^ 64 has 64 digits at most.
unfoldable pub tmp_digits : (fuel : ℕ) (large : Bool) (base num : ℕ) → List ℕ
tmp_digits zero large base num = []
tmp_digits (suc fuel) large base num =
    let rest = tmp_digits fuel large base (do_div_quot num base) in
    if num == 0 then [] else digit_char large (do_div_rem num base) ∷ rest

abbrev pub tmp : (large : Bool) (base num : ℕ) → List ℕ
tmp large base num = if num == 0 then b'0' ∷ [] else tmp_digits 64 large base num

module _ (end : ℕ) where
  -- `if (str <= end) *str = c; ++str;`
  unfoldable pub put : ℕ → Out → Out
  put c o = record {
    ram = if leb (o.str % 2 ^ 32) end then poke o.ram (o.str % 2 ^ 32) (c % 256) else o.ram;
    str = o.str + 1;
  }

  -- `while (n-- > 0)` around that.
  unfoldable pub put_times : (n c : ℕ) → Out → Out
  put_times zero c o = o
  put_times (suc n) c o = put_times n c (put c o)

  unfoldable pub put_list : List ℕ → Out → Out
  put_list [] o = o
  put_list (c ∷ cs) o = put_list cs (put c o)

  -- `while (i-- > 0)` over `tmp`, from the last digit down.
  unfoldable pub put_reversed : List ℕ → Out → Out
  put_reversed [] o = o
  put_reversed (c ∷ cs) o = put c (put_reversed cs o)

-- The character before the digits, 0 for none.
unfoldable pub sign_char : Flags → (num : ℕ) → ℕ
sign_char f num =
    if f.sign
    then (if leb (2 ^ 63) num then b'-' else if f.plus then b'+' else if f.space then b' ' else 0)
    else 0

-- `- (signed long long) num` of a negative number, modulo 2 ^ 64.
unfoldable pub magnitude : Flags → (num : ℕ) → ℕ
magnitude f num = if f.sign && leb (2 ^ 63) num then 2 ^ 64 - num else num

-- The prefix that SPECIAL asks for: 0, 0x or 0X.
unfoldable pub special_prefix : Flags → (base : ℕ) → List ℕ
special_prefix f base =
    if f.special
    then (if base == 8
        then b'0' ∷ []
        else if base == 16
        then b'0' ∷ digit_char f.large 33 ∷ []
        else [])
    else []

-- `size` once the sign and the prefix are taken off.
unfoldable pub size_left : Flags → (num base size : ℕ) → ℕ
size_left f num base size =
    let size = if sign_char f num == 0 then size else size - 1 in
    if f.special
    then (if base == 16 then size - 2 else if base == 8 then size - 1 else size)
    else size

module _ (end : ℕ) where
  unfoldable pub number_in : Flags → (num base size precision : ℕ) → Out → Out
  number_in f num base size precision o =
      let zeropad = f.zeropad && not f.left in
      let c = if zeropad then b'0' else b' ' in
      let sign = sign_char f num in
      let digits = tmp f.large base (magnitude f num) in
      let i = length digits in
      let precision = if ltb precision i then i else precision in
      let size = size_left f num base size - precision in
      let leading = not (zeropad || f.left) in
      let o = if leading then put_times end size b' ' o else o in
      let size = if leading then 0 else size in
      let o = if sign == 0 then o else put end sign o in
      let o = put_list end (special_prefix f base) o in
      let o = if f.left then o else put_times end size c o in
      let size = if f.left then size else 0 in
      let o = put_times end (precision - i) b'0' o in
      let o = put_reversed end digits o in put_times end size b' ' o

  -- A base out of range gives NULL.
  unfoldable pub number : Flags → (num base size precision : ℕ) → Out → Out
  number f num base size precision o =
      if ltb base 2 || ltb 36 base
      then record o { str = 0 }
      else number_in f num base size precision o

-- The digits at the front of the format, as a number, and what stands behind them.
unfoldable pub skip_atoi : (i : ℕ) → List ℕ → ℕ × List ℕ
skip_atoi i [] = (i, [])
skip_atoi i (c ∷ cs) =
    let rest = skip_atoi (i * 10 + c - b'0') cs in if isdigit c then rest else (i, c ∷ cs)
