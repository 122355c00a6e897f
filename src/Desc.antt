-- ===== src/Desc.antt =====
-- kernel/i386.c and include/i386.h: segment descriptors and gates.
--
-- A descriptor is its two 32-bit words. What the processor reads from them is written from its
-- layout: the base in three pieces, the limit in two, and the access byte.
pub mod Fields
mod Tests
use quark_os.Base.{ℕ, ◌+◌, ◌*◌, ◌/◌, ◌%◌, ◌^◌}
use Prim.Native.Nat.{bit_and, bit_or}

pub record Desc : Type 0 where
  pub l : ℕ
  pub h : ℕ

-- `struct desc_struct`, the same eight bytes by their fields.
pub record DescStruct : Type 0 where
  pub limit_low : ℕ
  pub base_low : ℕ
  pub base_mid : ℕ
  pub attr1 : ℕ
  pub limit_high_attr2 : ℕ
  pub base_high : ℕ

abbrev pub words_of : DescStruct → Desc
words_of d = record {
  l = d.limit_low + d.base_low * 2 ^ 16;
  h = d.base_mid + d.attr1 * 2 ^ 8 + d.limit_high_attr2 * 2 ^ 16 + d.base_high * 2 ^ 24;
}

abbrev pub base_of : Desc → ℕ
base_of d = d.l / 2 ^ 16 + d.h % 2 ^ 8 * 2 ^ 16 + d.h / 2 ^ 24 * 2 ^ 24

abbrev pub limit_of : Desc → ℕ
limit_of d = d.l % 2 ^ 16 + d.h / 2 ^ 16 % 2 ^ 4 * 2 ^ 16

-- Present, privilege level, kind and type.
abbrev pub access_of : Desc → ℕ
access_of d = d.h / 2 ^ 8 % 2 ^ 8

-- Granularity, operand size and the two free bits.
abbrev pub flags_of : Desc → ℕ
flags_of d = d.h / 2 ^ 20 % 2 ^ 4

unfoldable pub init_desc : (base limit attr : ℕ) → Desc
init_desc base limit attr = record {
  l = bit_or (bit_and limit 0x0FFFF) (bit_and base 0x0FFFF * 2 ^ 16);
  h =
      bit_or
        (bit_or (bit_or (bit_and (base / 2 ^ 16) 0x0FF) (bit_and base 0xF0000000))
          (attr * 2 ^ 8 % 2 ^ 32))
        (bit_and (limit / 2 ^ 16) 0x0F);
}

unfoldable pub init_desc2 : (base limit attr : ℕ) → DescStruct
init_desc2 base limit attr = record {
  limit_low = bit_and limit 0x0FFFF;
  base_low = bit_and base 0x0FFFF;
  base_mid = bit_and (base / 2 ^ 16) 0x0FF;
  attr1 = bit_and attr 0xFF;
  limit_high_attr2 = bit_or (bit_and (limit / 2 ^ 16) 0x0F) (bit_and (attr / 2 ^ 8) 0xF0);
  base_high = bit_and (base / 2 ^ 24) 0x0FF;
}

abbrev pub intr_gate : ℕ
intr_gate = 14

abbrev pub trap_gate : ℕ
trap_gate = 15

-- `_set_gate`
unfoldable pub gate : (offset type dpl : ℕ) → Desc
gate offset type dpl = record {
  l = bit_or 0x80000 (bit_and offset 0x0FFFF);
  h = bit_or (bit_or (bit_or (bit_and offset 0xFFFF0000) 0x8000) (type * 2 ^ 8)) (dpl * 2 ^ 13);
}

-- What the processor reads from a gate.
abbrev pub offset_of : Desc → ℕ
offset_of d = d.l % 2 ^ 16 + d.h / 2 ^ 16 * 2 ^ 16

abbrev pub selector_of : Desc → ℕ
selector_of d = d.l / 2 ^ 16
