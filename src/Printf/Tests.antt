-- ===== src/Printf/Tests.antt =====
-- Runs of number and vsnprintf into a buffer at 2 ^ 20.
use Prim.Native.Nat.{max, min}
use quark_os.Base.{
  ℕ, ◌+◌, ◌-◌, ◌%◌, ◌^◌, ◌≡◌, refl, false, ◌&&◌, inl, inr, some, List, [], ◌∷◌, arith, length, ◌==◌,
  leb, ltb, if◌then◌else◌,
}
use quark_os.Ram.{Ram}
use quark_os.Ctype.{isdigit, mask_of, ctype, entry_at}
use quark_os.Console.{Console}
use quark_os.Console.Within.{IsPlaced, OffScreen}
use quark_os.Printf.{
  no_flags, number, put_list, tmp, magnitude, skip_atoi, number_in, tmp_digits, do_div_rem,
  do_div_quot, sign_char, special_prefix, size_left, put, put_times, put_reversed,
}
use quark_os.Printf.Number.{number_text, number-number_text}
use quark_os.Printf.Digits.{extra, length-number_text, skip_atoi-number_text}
use quark_os.Printf.Format.{
  vsnprintf, loop, round, convert, parse, parse_flags, parse_width, parse_precision,
  parse_qualifier, fetch, print_number, print_string,
}
use quark_os.Printf.Result.{text_length, vsnprintf_lem}
use quark_os.Printf.Screen.{buf_size, printf, printf-IsPlaced}
use quark_os.Printf.Dump.{mem_dump, Elsewhere, mem_dump-IsPlaced}

abbrev buf : ℕ
buf = 2 ^ 20

abbrev zeros : Ram
zeros a = 0

abbrev words : ℕ → ℕ
words i = 1996

-- "%d %s", and "boot"
abbrev directives : List ℕ
directives = b'%' ∷ b'd' ∷ b' ' ∷ b'%' ∷ b's' ∷ []

abbrev boot : List ℕ
boot = b'b' ∷ b'o' ∷ b'o' ∷ b't' ∷ []

number-number_text_example :
    number (buf + 9) no_flags 255 16 8 4 (record { ram = zeros; str = buf })
    ≡ put_list (buf + 9) (number_text no_flags 255 16 8 4) (record { ram = zeros; str = buf })
number-number_text_example =
    number-number_text (buf + 9) no_flags 255 16 8 4 (record { ram = zeros; str = buf })
      (omega arith) (omega arith)

length-number_text_example :
    length (number_text no_flags 255 16 8 4)
    ≡ max 8 (extra no_flags 255 16 + max 4 (length (tmp false 16 (magnitude no_flags 255))))
length-number_text_example = length-number_text no_flags 255 16 8 4

skip_atoi-number_text_example : skip_atoi 0 (number_text no_flags 1996 10 0 0) ≡ (1996, [])
skip_atoi-number_text_example = skip_atoi-number_text 1996 (omega arith)

-- "1996 <NULL>"
directives_length : (size : ℕ) → text_length buf size directives words zeros ≡ 11
unfolding text_length loop round convert parse parse_flags parse_width parse_precision
    parse_qualifier skip_atoi isdigit mask_of ctype entry_at fetch print_number print_string number
    number_in tmp_digits do_div_rem do_div_quot sign_char magnitude special_prefix size_left put
    put_times put_list put_reversed
directives_length size = refl

vsnprintf_lem_example :
    (text : List ℕ) × (after : Ram) × (vsnprintf buf 8 directives words zeros
      ≡ some (length text, after))
    × (length text ≡ text_length buf 8 directives words zeros)
    × ((a : ℕ)
        → after a ≡ (
            if leb buf a && ltb a (buf + min (length text) 7)
            then entry_at text (a - buf) % 256
            else if a == buf + min (length text) 7
            then 0
            else zeros a))
vsnprintf_lem_example =
    vsnprintf_lem buf 8 directives words zeros (omega arith) (omega arith) (omega arith)
      (omega arith) refl (omega (arith, directives_length 8)) (omega (arith, directives_length 8))

abbrev screen : Console
screen = record { ram = zeros; stdout_pt = 3998 }

printf-IsPlaced_example :
    (ret : ℕ) × (t : Console) × (printf buf directives words screen ≡ some (ret, t))
    × IsPlaced t
    × ((a : ℕ)
        → OffScreen a
        → (leb buf a && ltb a (buf + buf_size)) ≡ false
        → t.ram a ≡ screen.ram a)
printf-IsPlaced_example =
    printf-IsPlaced buf directives words screen (record { even = refl; bound = omega arith })
      (omega arith) (omega arith) (omega arith) refl (omega (arith, directives_length buf_size))
      (omega (arith, directives_length buf_size))

mem_dump-IsPlaced_example :
    (t : Console) × (mem_dump buf 4096 2 3 screen ≡ some t)
    × IsPlaced t
    × ((a : ℕ) → Elsewhere buf a → t.ram a ≡ screen.ram a)
mem_dump-IsPlaced_example =
    mem_dump-IsPlaced buf (omega arith) (omega arith) (omega arith) 4096 2 3 screen
      (record { even = refl; bound = omega arith }) (inr (inl refl))
