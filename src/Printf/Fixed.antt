-- ===== src/Printf/Fixed.antt =====
-- The formats that mem_dump prints: a number in hexadecimal and a blank, and the end of a line.
use quark_os.Base.{
  ℕ, zero, suc, ◌^◌, ◌%◌, ◌≤◌, ◌<◌, ◌≡◌, ◌∙◌, refl, ap, sym, true, some, List, [], ◌∷◌, ◌++◌, arith,
  length, length-append, ◌==◌, if◌then◌else◌,
}
use quark_os.Ram.{Ram}
use quark_os.Ctype.{isdigit, mask_of, ctype, entry_at}
use quark_os.Printf.{
  Out, Flags, no_flags, put, put_list, number, skip_atoi, do_div_quot, tmp, tmp_digits, magnitude,
  sign_char, special_prefix,
}
use quark_os.Printf.Emit.{put_list-append}
use quark_os.Printf.Number.{number_text, number-number_text}
use quark_os.Printf.Digits.{extra, length-number_text}
use quark_os.Printf.Format.{
  parse, parse_flags, parse_width, parse_precision, parse_qualifier, fetch, convert, print_number,
  round, loop, end_of,
}
use quark_os.Printf.Result.{text_length, counted_to}
use quark_os.Printf.Plain.{plain_loop}

-- "%02X ", and the same for other widths.
abbrev pub hex_format : (digit : ℕ) → List ℕ
hex_format digit = b'%' ∷ b'0' ∷ digit ∷ b'X' ∷ b' ' ∷ []

abbrev hex_flags : Flags
hex_flags = record no_flags { zeropad = true; large = true }

length-tmp_digits : (fuel base num : ℕ) → length (tmp_digits fuel true base num) ≤ fuel
unfolding tmp_digits
length-tmp_digits zero base num = omega arith
length-tmp_digits (suc fuel) base num =
    ground (arith, length-tmp_digits fuel base (do_div_quot num base))

length-tmp : (base num : ℕ) → length (tmp true base num) ≤ 64
length-tmp base num = ground (arith, length-tmp_digits 64 base num)

-- The text of a number and the blank behind it.
abbrev hex_text : (num width : ℕ) → List ℕ
hex_text num width = number_text hex_flags num 16 width 0 ++ b' ' ∷ []

-- Without sign and prefix.
no-extra : (num : ℕ) → extra hex_flags num 16 ≡ 0
unfolding sign_char special_prefix
no-extra num = refl

length-hex_text : (num width : ℕ) → width ≤ 8 → length (hex_text num width) ≤ 65
length-hex_text num width h = ground (
  arith,
  length-number_text hex_flags num 16 width 0,
  no-extra num,
  length-tmp 16 (magnitude hex_flags num),
  length-append (number_text hex_flags num 16 width 0) (b' ' ∷ []),
)

module _ (buf end : ℕ) (words : ℕ → ℕ) (o : Out) where
  put_hex :
      (num width : ℕ)
      → put end b' ' (number end hex_flags num 16 width 0 o) ≡ put_list end (hex_text num width) o
  unfolding put_list
  put_hex num width =
      ap (put end b' ')
        (number-number_text end hex_flags num 16 width 0 o (omega arith) (omega arith))
      ∙ sym (put_list-append end (number_text hex_flags num 16 width 0) (b' ' ∷ []) o)

  run_2 :
      loop buf end words 5 (hex_format b'2') 0 o
      ≡ some (put end b' ' (number end hex_flags (words 0 % 2 ^ 32) 16 2 0 o))
  unfolding loop round convert parse parse_flags parse_width parse_precision parse_qualifier
      skip_atoi isdigit mask_of ctype entry_at fetch print_number
  run_2 = refl

  run_4 :
      loop buf end words 5 (hex_format b'4') 0 o
      ≡ some (put end b' ' (number end hex_flags (words 0 % 2 ^ 32) 16 4 0 o))
  unfolding loop round convert parse parse_flags parse_width parse_precision parse_qualifier
      skip_atoi isdigit mask_of ctype entry_at fetch print_number
  run_4 = refl

  run_8 :
      loop buf end words 5 (hex_format b'8') 0 o
      ≡ some (put end b' ' (number end hex_flags (words 0 % 2 ^ 32) 16 8 0 o))
  unfolding loop round convert parse parse_flags parse_width parse_precision parse_qualifier
      skip_atoi isdigit mask_of ctype entry_at fetch print_number
  run_8 = refl

-- The text of such a number has 65 characters at most.
module _ (buf size : ℕ) (words : ℕ → ℕ) (ram : Ram) where
  text_length-number :
      (digit width : ℕ)
      → width ≤ 8
      → loop buf (end_of buf size).0 words 5 (hex_format digit) 0 (record { ram = ram; str = buf })
        ≡ some (
            put (end_of buf size).0 b' ' (
              number
                (end_of buf size).0
                hex_flags
                (words 0 % 2 ^ 32)
                16
                width
                0
                (record { ram = ram; str = buf })))
      → text_length buf size (hex_format digit) words ram ≤ 65
  text_length-number digit width h runs =
      let end = (end_of buf size).0 in
      let num = words 0 % 2 ^ 32 in
      let o : Out = record { ram = ram; str = buf } in
      let text = ap some (put_hex buf end words o num width) in
      let counted =
        counted_to buf size (hex_format digit) words ram (hex_text num width) (runs ∙ text) in
      omega (arith, counted, length-hex_text num width h)

  pub text_length-hex_format :
      (ps : ℕ)
      → ps < 3
      → text_length buf size
          (hex_format (if ps == 0 then b'2' else if ps == 1 then b'4' else b'8'))
          words
          ram
        ≤ 65
  text_length-hex_format zero h =
      text_length-number b'2' 2 (omega arith) (run_2 buf (end_of buf size).0 words _)
  text_length-hex_format (suc zero) h =
      text_length-number b'4' 4 (omega arith) (run_4 buf (end_of buf size).0 words _)
  text_length-hex_format (suc (suc ps)) h =
      let last : ps ≡ 0 = omega arith in
      rw last (text_length-number b'8' 8 (omega arith) (run_8 buf (end_of buf size).0 words _))

  pub text_length-newline : text_length buf size (b'\n' ∷ []) words ram ≡ 1
  text_length-newline =
      let o : Out = record { ram = ram; str = buf } in
      counted_to buf size (b'\n' ∷ []) words ram (b'\n' ∷ [])
        (plain_loop buf (end_of buf size).0 words (b'\n' ∷ []) 0 o refl)
