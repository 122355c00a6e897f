-- ===== src/Ctype/Tests.antt =====
-- Runs on the letter A.
use quark_os.Base.{◌≡◌, refl, true, false, arith}
use quark_os.Ctype.{
  isalnum, isalpha, iscntrl, isdigit, isgraph, islower, isprint, ispunct, isspace, isupper,
  isxdigit, mask_of, entry_at, ctype,
}
use quark_os.Ctype.Ascii.{classes-ranges}

classes-ranges_example :
    (isdigit b'A' ≡ false)
    × (isupper b'A' ≡ true)
    × (islower b'A' ≡ false)
    × (isxdigit b'A' ≡ true)
    × (isalpha b'A' ≡ true)
    × (isalnum b'A' ≡ true)
    × (isspace b'A' ≡ false)
    × (iscntrl b'A' ≡ false)
    × (isprint b'A' ≡ true)
    × (isgraph b'A' ≡ true)
    × (ispunct b'A' ≡ false)
classes-ranges_example = classes-ranges b'A' (omega arith)

upper_umlaut : isupper 0xC4 ≡ true
unfolding isupper mask_of entry_at ctype
upper_umlaut = refl
