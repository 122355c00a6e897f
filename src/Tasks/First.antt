-- ===== src/Tasks/First.antt =====
-- creat_task0: what the processor finds when it loads the task register and the LDT.
use quark_os.Base.{ℕ, ◌/◌, ◌%◌, ◌^◌, ◌<◌, ◌≡◌, ◌≢◌, arith}
use quark_os.Desc.{base_of, limit_of, access_of}
use quark_os.Desc.Fields.{init_desc-fields}
use quark_os.Tasks.{Tables, seg_selector, tss_index, ldt_index, creat_task0}

-- The bits 24 to 27, which init_desc drops.
abbrev pub dropped : ℕ → ℕ
dropped base = base / 2 ^ 24 % 2 ^ 4

-- For addresses below 2 ^ 32 of the TSS and the LDT in which the bits 24 to 27 are 0, creat_task0
-- leaves in the gdt, under the selector of the TSS, a descriptor of that TSS with the limit 103
-- and the access byte 0xE9, and under the selector that the TSS has for the LDT one of the LDT
-- with the limit 0x40 and the access byte 0xE2, and no other descriptor changes.
pub creat_task0_lem :
    (tss_at ldt_at first_task : ℕ) (t : Tables)
    → tss_at < 2 ^ 32
    → ldt_at < 2 ^ 32
    → dropped tss_at ≡ 0
    → dropped ldt_at ≡ 0
    → let t' = creat_task0 tss_at ldt_at first_task t in
      let tss = t'.gdt (seg_selector tss_index / 2 ^ 3) in
      let ldt = t'.gdt (t'.task0.tss.ldt / 2 ^ 3) in
      (base_of tss ≡ tss_at)
      × (limit_of tss ≡ 103)
      × (access_of tss ≡ 0xE9)
      × (base_of ldt ≡ ldt_at)
      × (limit_of ldt ≡ 0x40)
      × (access_of ldt ≡ 0xE2)
      × ((i : ℕ) → i ≢ tss_index → i ≢ ldt_index → t'.gdt i ≡ t.gdt i)
unfolding creat_task0
creat_task0_lem tss_at ldt_at first_task t a b p q =
    let (base, limit, access) = init_desc-fields tss_at 103 0xE9 a (omega arith) (omega arith) in
    let (base', limit', access') =
      init_desc-fields ldt_at 0x40 0xE2 b (omega arith) (omega arith) in
    (
      omega (arith, base),
      limit,
      access,
      omega (arith, base'),
      limit',
      access',
      λ i n m. ground arith,
    )
