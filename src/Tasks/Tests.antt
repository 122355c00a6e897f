-- ===== src/Tasks/Tests.antt =====
-- The kernel's tables at 0xC0108000 and 0xC0109000.
use quark_os.Base.{ℕ, ◌/◌, ◌^◌, ◌≡◌, ◌≢◌, refl, arith}
use quark_os.Desc.{base_of, limit_of, access_of}
use quark_os.Tasks.{Tables, zero_tss, seg_selector, tss_index, ldt_index, creat_task0}
use quark_os.Tasks.First.{creat_task0_lem}

abbrev empty : Tables
empty = record { task0 = record { tss = zero_tss; entry = 0 }; gdt = λ _. record { l = 0; h = 0 } }

abbrev after : Tables
after = creat_task0 0xC0108000 0xC0109000 0xC0101000 empty

creat_task0_lem_example :
    (base_of (after.gdt (seg_selector tss_index / 2 ^ 3)) ≡ 0xC0108000)
    × (limit_of (after.gdt (seg_selector tss_index / 2 ^ 3)) ≡ 103)
    × (access_of (after.gdt (seg_selector tss_index / 2 ^ 3)) ≡ 0xE9)
    × (base_of (after.gdt (after.task0.tss.ldt / 2 ^ 3)) ≡ 0xC0109000)
    × (limit_of (after.gdt (after.task0.tss.ldt / 2 ^ 3)) ≡ 0x40)
    × (access_of (after.gdt (after.task0.tss.ldt / 2 ^ 3)) ≡ 0xE2)
    × ((i : ℕ) → i ≢ tss_index → i ≢ ldt_index → after.gdt i ≡ empty.gdt i)
creat_task0_lem_example =
    creat_task0_lem 0xC0108000 0xC0109000 0xC0101000 empty (omega arith) (omega arith) refl refl
