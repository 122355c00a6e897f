-- ===== src/Printf/Format.antt =====
-- kernel/printf.c, vsnprintf: the directives of a format.
use quark_os.Base.{
  ℕ, zero, suc, ◌+◌, ◌-◌, ◌*◌, ◌/◌, ◌%◌, ◌^◌, Bool, true, false, ◌&&◌, ◌||◌, Option, none, some,
  List, [], ◌∷◌, length, ◌==◌, ltb, leb, if◌then◌else◌,
}
use quark_os.Ram.{Ram, poke, strnlen}
use quark_os.Ctype.{isdigit}
use quark_os.Printf.{Out, Flags, no_flags, put, put_times, put_list, number, skip_atoi}

-- `*fmt` and `fmt + 1`; behind the last byte stands the terminating 0.
abbrev pub first : List ℕ → ℕ
first [] = 0
first (c ∷ cs) = c

abbrev pub rest_of : List ℕ → List ℕ
rest_of [] = []
rest_of (c ∷ cs) = cs

abbrev pub is_flag : ℕ → Bool
is_flag c = c == b'-' || c == b'+' || c == b' ' || c == b'#' || c == b'0'

abbrev pub set_flag : ℕ → Flags → Flags
set_flag c f =
    if c == b'-'
    then record f { left = true }
    else if c == b'+'
    then record f { plus = true }
    else if c == b' '
    then record f { space = true }
    else if c == b'#'
    then record f { special = true }
    else record f { zeropad = true }

unfoldable pub parse_flags : Flags → List ℕ → Flags × List ℕ
parse_flags f [] = (f, [])
parse_flags f (c ∷ cs) =
    let rest = parse_flags (set_flag c f) cs in if is_flag c then rest else (f, c ∷ cs)

abbrev pub is_negative : ℕ → Bool
is_negative w = leb (2 ^ 31) w

-- A number with the sign of `bits` bits, in 64 bits.
abbrev pub extend : (bits n : ℕ) → ℕ
extend bits n = if leb (2 ^ (bits - 1)) n then n + 2 ^ 64 - 2 ^ bits else n

-- Once 0 stands for every negative number.
abbrev pub count_of : Option ℕ → ℕ
count_of none = 0
count_of (some n) = n

abbrev pub is_none : Option ℕ → Bool
is_none none = true
is_none (some _) = false

-- A directive behind its flags: width, precision and qualifier, 0 for none.
pub record Spec : Type 0 where
  pub flags : Flags
  pub width : Option ℕ
  pub precision : Option ℕ
  pub qualifier : ℕ
  pub arg : ℕ
  pub fmt : List ℕ

pub record Print : Type 0 where
  pub out : Out
  pub arg : ℕ
  pub fmt : List ℕ

-- A number of the format as an `int`, of which the digits may give any 32 bits: 0 if it is below 0.
abbrev pub as_count : ℕ → ℕ
as_count n = if is_negative (n % 2 ^ 32) then 0 else n % 2 ^ 32

module _ (words : ℕ → ℕ) where
  unfoldable pub parse_width : Spec → Spec
  parse_width s =
      let n = skip_atoi 0 s.fmt in
      let w = words s.arg % 2 ^ 32 in
      if isdigit (first s.fmt)
      then record s {
        width = if n.0 % 2 ^ 32 == 2 ^ 32 - 1 then none else some (as_count n.0);
        fmt = n.1;
      }
      else if first s.fmt == b'*'
      then (if is_negative w
          then record s {
            flags = record s.flags { left = true };
            width = some (2 ^ 32 - w);
            arg = s.arg + 1;
            fmt = rest_of s.fmt;
          }
          else record s { width = some w; arg = s.arg + 1; fmt = rest_of s.fmt })
      else s

  unfoldable pub parse_precision : Spec → Spec
  parse_precision s =
      let cs = rest_of s.fmt in
      let n = skip_atoi 0 cs in
      let w = words s.arg % 2 ^ 32 in
      if first s.fmt == b'.'
      then (if isdigit (first cs)
          then record s { precision = some (as_count n.0); fmt = n.1 }
          else if first cs == b'*'
          then record s {
            precision = some (if is_negative w then 0 else w);
            arg = s.arg + 1;
            fmt = rest_of cs;
          }
          else record s { precision = some 0; fmt = cs })
      else s

abbrev pub is_qualifier : ℕ → Bool
is_qualifier c = c == b'h' || c == b'l' || c == b'L' || c == b'Z' || c == b'z'

unfoldable pub parse_qualifier : Spec → Spec
parse_qualifier s =
    let c = first s.fmt in
    let cs = rest_of s.fmt in
    if is_qualifier c
    then (if c == b'l' && first cs == b'l'
        then record s { qualifier = b'L'; fmt = rest_of cs }
        else record s { qualifier = c; fmt = cs })
    else s

unfoldable pub parse : (words : ℕ → ℕ) → (arg : ℕ) → List ℕ → Spec
parse words arg cs =
    let (f, rest) = parse_flags no_flags cs in
    parse_qualifier (
      parse_precision words (
        parse_width words (record {
          flags = f;
          width = none;
          precision = none;
          qualifier = 0;
          arg = arg;
          fmt = rest;
        })))

-- The number that an integer conversion prints, and the words it takes.
unfoldable pub fetch : (words : ℕ → ℕ) → Spec → ℕ × ℕ
fetch words s =
    let w = words s.arg % 2 ^ 32 in
    let high = words (s.arg + 1) % 2 ^ 32 in
    if s.qualifier == b'L'
    then (w + 2 ^ 32 * high, 2)
    else if s.qualifier == b'Z' || s.qualifier == b'z'
    then (w, 1)
    else if s.qualifier == b'h'
    then (if s.flags.sign then extend 16 (w % 2 ^ 16) else w % 2 ^ 16, 1)
    else (if s.flags.sign then extend 32 w else w, 1)

abbrev pub null_text : List ℕ
null_text = b'<' ∷ b'N' ∷ b'U' ∷ b'L' ∷ b'L' ∷ b'>' ∷ []

abbrev pub take : ℕ → List ℕ → List ℕ
take zero cs = []
take (suc n) [] = []
take (suc n) (c ∷ cs) = c ∷ take n cs

-- `precision` as a `size_t`.
abbrev pub limit_of : Option ℕ → ℕ
limit_of none = 2 ^ 32 - 1
limit_of (some n) = n

-- `*ip = v` for 32 bits, lowest byte first.
abbrev pub store32 : Ram → (ip v : ℕ) → Ram
store32 m ip v =
    poke (poke (poke (poke m ip (v % 256)) (ip + 1) (v / 2 ^ 8 % 256)) (ip + 2) (v / 2 ^ 16 % 256))
      (ip + 3) (v / 2 ^ 24 % 256)

module _ (buf end : ℕ) (words : ℕ → ℕ) where
  -- The bytes from `s` on, each read from the memory as it then is.
  unfoldable pub put_from : (len s : ℕ) → Out → Out
  put_from zero s o = o
  put_from (suc len) s o = put_from len (s + 1) (put end (o.ram (s % 2 ^ 32)) o)

  -- `body` in a field of `width` characters, of which it has `len`.
  abbrev pub in_field : Flags → (width len : ℕ) → (Out → Out) → Out → Out
  in_field f width len body o =
      let o = body (if f.left then o else put_times end (width - len) b' ' o) in
      if f.left then put_times end (width - len) b' ' o else o

  unfoldable pub print_char : Spec → Out → Out
  print_char s = in_field s.flags (count_of s.width) 1 (put end (words s.arg % 256))

  unfoldable pub print_string : Spec → Out → Out
  print_string s o =
      let at = words s.arg % 2 ^ 32 in
      let limit = limit_of s.precision in
      let null_len = if ltb limit 6 then limit else 6 in
      let len = strnlen limit at o.ram in
      if ltb at 4096
      then in_field s.flags (count_of s.width) null_len (put_list end (take null_len null_text)) o
      else in_field s.flags (count_of s.width) len (put_from len at) o

  unfoldable pub print_pointer : Spec → Out → Out
  print_pointer s =
      let wide = is_none s.width in
      number end (if wide then record s.flags { zeropad = true } else s.flags)
        (words s.arg % 2 ^ 32) 16 (if wide then 8 else count_of s.width) (count_of s.precision)

  unfoldable pub print_count : Spec → Out → Out
  print_count s o = record o { ram = store32 o.ram (words s.arg) (o.str - buf) }

  unfoldable pub print_number : (base : ℕ) → Spec → Out → Out
  print_number base s =
      number end s.flags (fetch words s).0 base (count_of s.width) (count_of s.precision)

  -- The switch on the conversion.
  unfoldable pub convert : Spec → Out → Print
  convert s o =
      let c = first s.fmt in
      let cs = rest_of s.fmt in
      let signed = record s { flags = record s.flags { sign = true } } in
      let large = record s { flags = record s.flags { large = true } } in
      if c == b'c'
      then record { out = print_char s o; arg = s.arg + 1; fmt = cs }
      else if c == b's'
      then record { out = print_string s o; arg = s.arg + 1; fmt = cs }
      else if c == b'p'
      then record { out = print_pointer s o; arg = s.arg + 1; fmt = cs }
      else if c == b'n'
      then record { out = print_count s o; arg = s.arg + 1; fmt = cs }
      else if c == b'%'
      then record { out = put end b'%' o; arg = s.arg; fmt = cs }
      else if c == b'o'
      then record { out = print_number 8 s o; arg = s.arg + (fetch words s).1; fmt = cs }
      else if c == b'X'
      then record { out = print_number 16 large o; arg = s.arg + (fetch words s).1; fmt = cs }
      else if c == b'x'
      then record { out = print_number 16 s o; arg = s.arg + (fetch words s).1; fmt = cs }
      else if c == b'd' || c == b'i'
      then record { out = print_number 10 signed o; arg = s.arg + (fetch words s).1; fmt = cs }
      else if c == b'u'
      then record { out = print_number 10 s o; arg = s.arg + (fetch words s).1; fmt = cs }
      else if c == 0
      then record { out = put end b'%' o; arg = s.arg; fmt = s.fmt }
      else record { out = put end c (put end b'%' o); arg = s.arg; fmt = cs }

  -- One round of the loop over the format.
  unfoldable pub round : (c : ℕ) → Print → Print
  round c p =
      if c == b'%'
      then convert (parse words p.arg p.fmt) p.out
      else record p { out = put end c p.out }

  -- `none` is a run out of fuel.
  unfoldable pub loop : (fuel : ℕ) → (fmt : List ℕ) → (arg : ℕ) → Out → Option Out
  loop fuel [] arg o = some o
  loop zero (c ∷ cs) arg o = none
  loop (suc fuel) (c ∷ cs) arg o =
      let p = round c (record { out = o; arg = arg; fmt = cs }) in loop fuel p.fmt p.arg p.out

-- The terminating 0, and the length of the text, an `int` given by its 32 bits.
unfoldable pub terminate : (buf size end : ℕ) → Out → ℕ × Ram
terminate buf size end o = (
  (o.str - buf) % 2 ^ 32,
  if leb (o.str % 2 ^ 32) end
      then poke o.ram (o.str % 2 ^ 32) 0
      else if ltb 0 size
      then poke o.ram end 0
      else o.ram,
)

-- `buf + size - 1`, or the last address where that wraps, which cuts `size` too.
unfoldable pub end_of : (buf size : ℕ) → ℕ × ℕ
end_of buf size =
    let end = (buf + size + (2 ^ 32 - 1)) % 2 ^ 32 in
    if ltb end ((buf + (2 ^ 32 - 1)) % 2 ^ 32)
    then (2 ^ 32 - 1, (2 ^ 32 - 1 + 2 ^ 32 - buf + 1) % 2 ^ 32)
    else (end, size)

unfoldable pub vsnprintf : (buf size : ℕ) (fmt : List ℕ) (words : ℕ → ℕ) → Ram → Option (ℕ × Ram)
vsnprintf buf size fmt words ram =
    let (end, size') = end_of buf size in
    if is_negative size
    then some (0, ram)
    else elim (loop buf end words (length fmt) fmt 0 (record { ram = ram; str = buf })) [
      | none ↦ none
      | some o ↦ some (terminate buf size' end o)
    ]
