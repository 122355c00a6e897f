-- ===== src/Image/Tests.antt =====
-- A loader of two bytes and a kernel of three.
use quark_os.Base.{ℕ, ◌-◌, ◌≡◌, ◌++◌, [], ◌∷◌, List, length, arith}
use quark_os.Image.{disk_size, zeros, Outcome, mkimage}
use quark_os.Image.Layout.{Reads, mkimage_lem}

abbrev loader : List ℕ
loader = 0xEB ∷ 0xFE ∷ []

abbrev kernel : List ℕ
kernel = 0xB8 ∷ 0x18 ∷ 0x00 ∷ []

-- A read gives one byte.
abbrev one_byte : ℕ → ℕ
one_byte left = 1

one_byte-Reads : Reads one_byte
one_byte-Reads left pos = (omega arith, omega arith, omega arith)

mkimage_lem_example :
    mkimage one_byte 2000000 loader kernel
    ≡ Outcome.image (
        ((loader ++ zeros (512 - length loader)) ++ kernel)
        ++ zeros (disk_size - 512 - length kernel))
mkimage_lem_example =
    mkimage_lem one_byte 2000000 loader kernel one_byte-Reads (omega arith) (omega arith)
      (omega arith) (omega arith)
