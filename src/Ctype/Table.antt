-- ===== src/Ctype/Table.antt =====
-- kernel/ctype.c and include/ctype.h, the bits of the classes and the table.
use quark_os.Base.{ℕ, ◌+◌, List, [], ◌∷◌}

abbrev pub upper : ℕ
upper = 0x01

abbrev pub lower : ℕ
lower = 0x02

abbrev pub digit : ℕ
digit = 0x04

abbrev pub cntrl : ℕ
cntrl = 0x08

abbrev pub punct : ℕ
punct = 0x10

abbrev pub space : ℕ
space = 0x20

abbrev pub hex : ℕ
hex = 0x40

abbrev pub hard_space : ℕ
hard_space = 0x80

unfoldable pub ctype : List ℕ
ctype =
    cntrl
    ∷ cntrl
    ∷ cntrl
    ∷ cntrl
    ∷ cntrl
    ∷ cntrl
    ∷ cntrl
    ∷ cntrl
    ∷ cntrl
    ∷ (cntrl + space)
    ∷ (cntrl + space)
    ∷ (cntrl + space)
    ∷ (cntrl + space)
    ∷ (cntrl + space)
    ∷ cntrl
    ∷ cntrl
    ∷ cntrl
    ∷ cntrl
    ∷ cntrl
    ∷ cntrl
    ∷ cntrl
    ∷ cntrl
    ∷ cntrl
    ∷ cntrl
    ∷ cntrl
    ∷ cntrl
    ∷ cntrl
    ∷ cntrl
    ∷ cntrl
    ∷ cntrl
    ∷ cntrl
    ∷ cntrl
    ∷ (space + hard_space)
    ∷ punct
    ∷ punct
    ∷ punct
    ∷ punct
    ∷ punct
    ∷ punct
    ∷ punct
    ∷ punct
    ∷ punct
    ∷ punct
    ∷ punct
    ∷ punct
    ∷ punct
    ∷ punct
    ∷ punct
    ∷ digit
    ∷ digit
    ∷ digit
    ∷ digit
    ∷ digit
    ∷ digit
    ∷ digit
    ∷ digit
    ∷ digit
    ∷ digit
    ∷ punct
    ∷ punct
    ∷ punct
    ∷ punct
    ∷ punct
    ∷ punct
    ∷ punct
    ∷ (upper + hex)
    ∷ (upper + hex)
    ∷ (upper + hex)
    ∷ (upper + hex)
    ∷ (upper + hex)
    ∷ (upper + hex)
    ∷ upper
    ∷ upper
    ∷ upper
    ∷ upper
    ∷ upper
    ∷ upper
    ∷ upper
    ∷ upper
    ∷ upper
    ∷ upper
    ∷ upper
    ∷ upper
    ∷ upper
    ∷ upper
    ∷ upper
    ∷ upper
    ∷ upper
    ∷ upper
    ∷ upper
    ∷ upper
    ∷ punct
    ∷ punct
    ∷ punct
    ∷ punct
    ∷ punct
    ∷ punct
    ∷ (lower + hex)
    ∷ (lower + hex)
    ∷ (lower + hex)
    ∷ (lower + hex)
    ∷ (lower + hex)
    ∷ (lower + hex)
    ∷ lower
    ∷ lower
    ∷ lower
    ∷ lower
    ∷ lower
    ∷ lower
    ∷ lower
    ∷ lower
    ∷ lower
    ∷ lower
    ∷ lower
    ∷ lower
    ∷ lower
    ∷ lower
    ∷ lower
    ∷ lower
    ∷ lower
    ∷ lower
    ∷ lower
    ∷ lower
    ∷ punct
    ∷ punct
    ∷ punct
    ∷ punct
    ∷ cntrl
    ∷ 0
    ∷ 0
    ∷ 0
    ∷ 0
    ∷ 0
    ∷ 0
    ∷ 0
    ∷ 0
    ∷ 0
    ∷ 0
    ∷ 0
    ∷ 0
    ∷ 0
    ∷ 0
    ∷ 0
    ∷ 0
    ∷ 0
    ∷ 0
    ∷ 0
    ∷ 0
    ∷ 0
    ∷ 0
    ∷ 0
    ∷ 0
    ∷ 0
    ∷ 0
    ∷ 0
    ∷ 0
    ∷ 0
    ∷ 0
    ∷ 0
    ∷ 0
    ∷ (space + hard_space)
    ∷ punct
    ∷ punct
    ∷ punct
    ∷ punct
    ∷ punct
    ∷ punct
    ∷ punct
    ∷ punct
    ∷ punct
    ∷ punct
    ∷ punct
    ∷ punct
    ∷ punct
    ∷ punct
    ∷ punct
    ∷ punct
    ∷ punct
    ∷ punct
    ∷ punct
    ∷ punct
    ∷ punct
    ∷ punct
    ∷ punct
    ∷ punct
    ∷ punct
    ∷ punct
    ∷ punct
    ∷ punct
    ∷ punct
    ∷ punct
    ∷ punct
    ∷ upper
    ∷ upper
    ∷ upper
    ∷ upper
    ∷ upper
    ∷ upper
    ∷ upper
    ∷ upper
    ∷ upper
    ∷ upper
    ∷ upper
    ∷ upper
    ∷ upper
    ∷ upper
    ∷ upper
    ∷ upper
    ∷ upper
    ∷ upper
    ∷ upper
    ∷ upper
    ∷ upper
    ∷ upper
    ∷ upper
    ∷ punct
    ∷ upper
    ∷ upper
    ∷ upper
    ∷ upper
    ∷ upper
    ∷ upper
    ∷ upper
    ∷ lower
    ∷ lower
    ∷ lower
    ∷ lower
    ∷ lower
    ∷ lower
    ∷ lower
    ∷ lower
    ∷ lower
    ∷ lower
    ∷ lower
    ∷ lower
    ∷ lower
    ∷ lower
    ∷ lower
    ∷ lower
    ∷ lower
    ∷ lower
    ∷ lower
    ∷ lower
    ∷ lower
    ∷ lower
    ∷ lower
    ∷ lower
    ∷ punct
    ∷ lower
    ∷ lower
    ∷ lower
    ∷ lower
    ∷ lower
    ∷ lower
    ∷ lower
    ∷ lower
    ∷ []
