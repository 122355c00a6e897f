-- ===== src/Desc/Tests.antt =====
-- Descriptors of a segment at 0x12345678 and of one at 0xC0105000.
use quark_os.Base.{◌-◌, ◌*◌, ◌/◌, ◌%◌, ◌^◌, ◌≡◌, arith}
use quark_os.Desc.{words_of, base_of, limit_of, access_of, flags_of, init_desc, init_desc2}
use quark_os.Desc.Fields.{init_desc-fields, init_desc2-fields}

-- The base 0x12345678 comes out as 0x10345678.
init_desc-fields_example :
    (base_of (init_desc 0x12345678 103 0xE9) ≡ 0x12345678 - 0x12345678 / 2 ^ 24 % 2 ^ 4 * 2 ^ 24)
    × (limit_of (init_desc 0x12345678 103 0xE9) ≡ 103)
    × (access_of (init_desc 0x12345678 103 0xE9) ≡ 0xE9)
init_desc-fields_example =
    init_desc-fields 0x12345678 103 0xE9 (omega arith) (omega arith) (omega arith)

init_desc2-fields_example :
    (base_of (words_of (init_desc2 0xC2105000 0xFFFFF 0xC092)) ≡ 0xC2105000)
    × (limit_of (words_of (init_desc2 0xC2105000 0xFFFFF 0xC092)) ≡ 0xFFFFF)
    × (access_of (words_of (init_desc2 0xC2105000 0xFFFFF 0xC092)) ≡ 0xC092 % 2 ^ 8)
    × (flags_of (words_of (init_desc2 0xC2105000 0xFFFFF 0xC092)) ≡ 0xC092 / 2 ^ 12)
init_desc2-fields_example =
    init_desc2-fields 0xC2105000 0xFFFFF 0xC092 (omega arith) (omega arith) (omega arith)
