-- ===== src/Desc/Fields.antt =====
-- The fields that the processor finds in a descriptor and in a gate.
use quark_os.Base.{ℕ, ◌+◌, ◌-◌, ◌*◌, ◌/◌, ◌%◌, ◌^◌, ◌<◌, ◌≡◌, ◌∙◌, refl, ap, arith}
use Prim.Native.Nat.{bit_or}
use quark_os.Base.Bits.{
  bit_or-parts, bit_or-zero, bit_or-above, bit_or-below, bit_and-low, bit_and-field,
}
use quark_os.Desc.{
  words_of, base_of, limit_of, access_of, flags_of, init_desc, init_desc2, gate, offset_of,
  selector_of,
}

-- A byte between what stands above it and below it.
byte_between :
    (k q m r : ℕ)
    → r < 2 ^ k
    → q < 2 ^ 32
    → m < 2 ^ 8
    → bit_or (q * 2 ^ 8 * 2 ^ k + r) (m * 2 ^ k) ≡ q * 2 ^ 8 * 2 ^ k + m * 2 ^ k + r
byte_between k q m r h w n =
    let plain : m * 2 ^ k ≡ m * 2 ^ k + 0 = omega arith in
    ap (bit_or (q * 2 ^ 8 * 2 ^ k + r)) plain
    ∙ bit_or-parts k (q * 2 ^ 8) r m 0 h (omega arith)
    ∙ omega (arith, bit_or-zero k r h, ap (λ (p : ℕ). p * 2 ^ k) (bit_or-below 32 8 q m n w))

init_desc-words :
    (base limit attr : ℕ)
    → base < 2 ^ 32
    → limit < 2 ^ 16
    → attr < 2 ^ 8
    → ((init_desc base limit attr).l ≡ limit + base % 2 ^ 16 * 2 ^ 16)
      × ((init_desc base limit attr).h
          ≡ base / 2 ^ 16 % 2 ^ 8 + attr * 2 ^ 8 + base / 2 ^ 28 * 2 ^ 28)
unfolding init_desc
init_desc-words base limit attr b m a =
    let low = base / 2 ^ 16 % 2 ^ 8 in
    let top = base / 2 ^ 28 in
    let the_attr : attr * 2 ^ 8 % 2 ^ 32 ≡ attr * 2 ^ 8 = omega arith in
    let none_above : limit / 2 ^ 16 % 2 ^ 4 ≡ 0 = omega arith in
    let with_attr : bit_or (top % 2 ^ 4 * 2 ^ 28 + low) (attr * 2 ^ 8)
        ≡ low + attr * 2 ^ 8 + top * 2 ^ 28 =
      let apart : top % 2 ^ 4 * 2 ^ 28 + low ≡ top * 2 ^ 12 * 2 ^ 8 * 2 ^ 8 + low = omega arith in
      ap (λ (x : ℕ). bit_or x (attr * 2 ^ 8)) apart
      ∙ byte_between 8 (top * 2 ^ 12) attr low (omega arith) (omega arith) a
      ∙ omega arith in
    (
      rw (bit_and-low 32 16 limit (omega arith), bit_and-low 32 16 base b)
          (omega (
            arith,
            bit_or-above 32 16 (base % 2 ^ 16) (limit % 2 ^ 16) (omega arith) (omega arith),
          )),
      rw
          (
            bit_and-low 32 8 (base / 2 ^ 16) (omega arith),
            bit_and-field 32 4 28 base b,
            bit_and-low 32 4 (limit / 2 ^ 16) (omega arith),
          )
          (ap (λ (x : ℕ). bit_or (bit_or x (attr * 2 ^ 8 % 2 ^ 32)) (limit / 2 ^ 16 % 2 ^ 4))
              (bit_or-above 32 28 (top % 2 ^ 4) low (omega arith) (omega arith))
            ∙ ap
                (λ (x : ℕ). bit_or (bit_or (top % 2 ^ 4 * 2 ^ 28 + low) x) (limit / 2 ^ 16 % 2 ^ 4))
                (the_attr)
            ∙ ap (λ (x : ℕ). bit_or x (limit / 2 ^ 16 % 2 ^ 4)) with_attr
            ∙ ap (bit_or (low + attr * 2 ^ 8 + top * 2 ^ 28)) none_above
            ∙ bit_or-zero 32 _ (omega arith)),
    )

-- For a base below 2 ^ 32, a limit below 2 ^ 16 and an attribute below 2 ^ 8, the processor finds
-- in the descriptor of init_desc the limit, the attribute as the access byte, and the base
-- without its bits 24 to 27.
pub init_desc-fields :
    (base limit attr : ℕ)
    → base < 2 ^ 32
    → limit < 2 ^ 16
    → attr < 2 ^ 8
    → let d = init_desc base limit attr in
      (base_of d ≡ base - base / 2 ^ 24 % 2 ^ 4 * 2 ^ 24)
      × (limit_of d ≡ limit)
      × (access_of d ≡ attr)
init_desc-fields base limit attr b m a =
    let (l, h) = init_desc-words base limit attr b m a in
    (omega (arith, l, h), omega (arith, l, h), omega (arith, l, h))

init_desc2-parts :
    (base limit attr : ℕ)
    → base < 2 ^ 32
    → limit < 2 ^ 32
    → attr < 2 ^ 32
    → init_desc2 base limit attr ≡ record {
      limit_low = limit % 2 ^ 16;
      base_low = base % 2 ^ 16;
      base_mid = base / 2 ^ 16 % 2 ^ 8;
      attr1 = attr % 2 ^ 8;
      limit_high_attr2 = attr / 2 ^ 12 % 2 ^ 4 * 2 ^ 4 + limit / 2 ^ 16 % 2 ^ 4;
      base_high = base / 2 ^ 24 % 2 ^ 8;
    }
unfolding init_desc2
init_desc2-parts base limit attr b m a =
    let e : attr / 2 ^ 8 / 2 ^ 4 ≡ attr / 2 ^ 12 = omega arith in
    rw
      (
        bit_and-low 32 16 limit m,
        bit_and-low 32 16 base b,
        bit_and-low 32 8 (base / 2 ^ 16) (omega arith),
        bit_and-low 32 8 attr a,
        bit_and-low 32 4 (limit / 2 ^ 16) (omega arith),
        bit_and-field 32 4 4 (attr / 2 ^ 8) (omega arith),
        bit_and-low 32 8 (base / 2 ^ 24) (omega arith),
        bit_or-above 32 4 (attr / 2 ^ 8 / 2 ^ 4 % 2 ^ 4) (limit / 2 ^ 16 % 2 ^ 4) (omega arith)
            (omega arith),
        e,
      )
      refl

-- For a base below 2 ^ 32, a limit below 2 ^ 20 and an attribute below 2 ^ 16, the processor
-- finds in the descriptor of init_desc2 the base, the limit, the low byte of the attribute as the
-- access byte and its bits 12 to 15 as the flags.
pub init_desc2-fields :
    (base limit attr : ℕ)
    → base < 2 ^ 32
    → limit < 2 ^ 20
    → attr < 2 ^ 16
    → let d = words_of (init_desc2 base limit attr) in
      (base_of d ≡ base)
      × (limit_of d ≡ limit)
      × (access_of d ≡ attr % 2 ^ 8)
      × (flags_of d ≡ attr / 2 ^ 12)
init_desc2-fields base limit attr b m a =
    rw (init_desc2-parts base limit attr b (omega arith) (omega arith))
      (omega arith, omega arith, omega arith, omega arith)

gate-words :
    (offset type : ℕ)
    → offset < 2 ^ 32
    → type < 16
    → ((gate offset type 0).l ≡ 8 * 2 ^ 16 + offset % 2 ^ 16)
      × ((gate offset type 0).h ≡ offset / 2 ^ 16 * 2 ^ 16 + 2 ^ 15 + type * 2 ^ 8)
unfolding gate
gate-words offset type o t =
    let high = offset / 2 ^ 16 in
    let all : high % 2 ^ 16 ≡ high = omega arith in
    let odd : high * 2 ^ 16 + 2 ^ 15 ≡ (high * 2 + 1) * 2 ^ 15 = omega arith in
    let present : bit_or (high * 2 ^ 16) (2 ^ 15) ≡ (high * 2 + 1) * 2 ^ 15 =
      bit_or-below 32 16 high (2 ^ 15) (omega arith) (omega arith) ∙ odd in
    (
      rw (bit_and-low 32 16 offset o)
          (bit_or-below 32 16 8 (offset % 2 ^ 16) (omega arith) (omega arith)),
      rw (bit_and-field 32 16 16 offset o, all, present)
          (ap (λ (x : ℕ). bit_or x 0)
              (bit_or-below 33 15 (high * 2 + 1) (type * 2 ^ 8) (omega arith) (omega arith))
            ∙ bit_or-zero 32 _ (omega arith)
            ∙ omega arith),
    )

-- A gate of privilege level 0.
pub gate-fields :
    (offset type : ℕ)
    → offset < 2 ^ 32
    → type < 16
    → let d = gate offset type 0 in
      (offset_of d ≡ offset) × (selector_of d ≡ 8) × (access_of d ≡ 2 ^ 7 + type)
gate-fields offset type o t =
    let (l, h) = gate-words offset type o t in
    (omega (arith, l, h), omega (arith, l, h), omega (arith, l, h))
