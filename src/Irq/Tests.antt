-- ===== src/Irq/Tests.antt =====
-- The vector of the page fault.
use quark_os.Base.{ℕ, ◌+◌, true, none, [], arith}
use quark_os.Irq.{Machine, Entries, irq_init, traps_init}
use quark_os.Irq.Vectors.{Leads, Small, entry_of, type_of, traps_init-irq_init}

abbrev start : Machine
start = record { idt = λ _. record { l = 0; h = 0 }; idtr = none; interrupts = true; ports = [] }

abbrev at : ℕ → ℕ
at n = 0xC0101000 + n

abbrev entries : Entries
entries = record {
  divide_error = at 0;
  bounds_error = at 16;
  invalid_tss = at 32;
  double_fault = at 48;
  overflow_trap = at 64;
  invalid_opcode = at 80;
  dev_noavailable = at 96;
  seg_nopresent = at 112;
  stack_fault = at 128;
  page_fault = at 144;
  gp_exception = at 160;
}

entries-Small : Small entries
entries-Small = (
  omega arith,
  omega arith,
  omega arith,
  omega arith,
  omega arith,
  omega arith,
  omega arith,
  omega arith,
  omega arith,
  omega arith,
  omega arith,
)

traps_init-irq_init_example :
    Leads
      ((traps_init entries (irq_init (at 176) (at 4096) start)).idt 14)
      (entry_of entries (at 176) 14)
      (type_of 14)
traps_init-irq_init_example =
    traps_init-irq_init (at 176) (at 4096) entries start 14 (omega arith) entries-Small
      (omega arith)
