-- ===== src/Irq.antt =====
-- kernel/irq.c and kernel/traps.c: the interrupt table.
--
-- The table is a function from vectors to the two words of a gate. The bytes sent to the ports are
-- a list, the latest first, each with its port. The addresses of the entry points and of the table,
-- which the linker gives, are arguments.
pub mod Vectors
mod Tests
use quark_os.Base.{
  ℕ, zero, suc, ◌+◌, ◌-◌, ◌*◌, ◌/◌, ◌%◌, ◌^◌, Bool, true, false, Option, none, some, List, [], ◌∷◌,
  ◌==◌, if◌then◌else◌,
}
use quark_os.Desc.{Desc, gate, trap_gate}

-- `struct idt_desc`
pub record IdtDesc : Type 0 where
  pub offset_low : ℕ
  pub selector : ℕ
  pub unused : ℕ
  pub saved : ℕ
  pub d : ℕ
  pub saved_0 : ℕ
  pub dpl : ℕ
  pub p : ℕ
  pub offset_hig : ℕ

-- Its two words, with the bit-fields from the lowest bit up.
abbrev pub gate_words : IdtDesc → Desc
gate_words g = record {
  l = g.offset_low + g.selector * 2 ^ 16;
  h =
      g.unused
      + g.saved * 2 ^ 8
      + g.d * 2 ^ 11
      + g.saved_0 * 2 ^ 12
      + g.dpl * 2 ^ 13
      + g.p * 2 ^ 15
      + g.offset_hig * 2 ^ 16;
}

-- `idtr` is what `lidt` loads: the limit and the base.
pub record Machine : Type 0 where
  pub idt : ℕ → Desc
  pub idtr : Option (ℕ × ℕ)
  pub interrupts : Bool
  pub ports : List (ℕ × ℕ)

abbrev pub outb_p : (val port : ℕ) → Machine → Machine
outb_p val port m = record m { ports = (val, port) ∷ m.ports }

abbrev pub master_offset : ℕ
master_offset = 0x20

abbrev pub slave_offset : ℕ
slave_offset = 0x28

unfoldable pub init_8259a : Machine → Machine
init_8259a m =
    let m = outb_p 0x11 0xA0 (outb_p 0x11 0x20 m) in
    let m = outb_p slave_offset 0xA1 (outb_p master_offset 0x21 m) in
    let m = outb_p 0x02 0xA1 (outb_p 0x04 0x21 m) in
    let m = outb_p 0x01 0xA1 (outb_p 0x01 0x21 m) in outb_p 0xFF 0xA1 (outb_p 0xFB 0x21 m)

abbrev pub set_idt : (n : ℕ) (g : Desc) → Machine → Machine
set_idt n g m = record m { idt = λ i. if i == n then g else m.idt i }

-- `for (i = 0; i < 256; i++) idt[i] = desc;` from `i` on.
unfoldable pub fill_idt : (left i : ℕ) (g : Desc) → Machine → Machine
fill_idt zero i g m = m
fill_idt (suc left) i g m = fill_idt left (i + 1) g (set_idt i g m)

unfoldable pub default_gate : (handler : ℕ) → IdtDesc
default_gate handler = record {
  offset_low = handler % 2 ^ 16;
  offset_hig = handler / 2 ^ 16 % 2 ^ 16;
  selector = 8;
  unused = 0;
  p = 1;
  dpl = 0;
  saved = 6;
  saved_0 = 0;
  d = 1;
}

unfoldable pub irq_init : (ignore_int idt : ℕ) → Machine → Machine
irq_init ignore_int idt m =
    let m = init_8259a (fill_idt 256 0 (gate_words (default_gate ignore_int)) m) in
    record m { idtr = some (256 * 8 - 1, idt); interrupts = false }

-- The entry points, which irq_entry.S defines.
pub record Entries : Type 0 where
  pub divide_error : ℕ
  pub bounds_error : ℕ
  pub invalid_tss : ℕ
  pub double_fault : ℕ
  pub overflow_trap : ℕ
  pub invalid_opcode : ℕ
  pub dev_noavailable : ℕ
  pub seg_nopresent : ℕ
  pub stack_fault : ℕ
  pub page_fault : ℕ
  pub gp_exception : ℕ

abbrev pub set_trap_gate : (n offset : ℕ) → Machine → Machine
set_trap_gate n offset = set_idt n (gate offset trap_gate 0)

unfoldable pub traps_init : Entries → Machine → Machine
traps_init e m =
    let m = set_trap_gate 0 e.divide_error m in
    let m = set_trap_gate 4 e.overflow_trap m in
    let m = set_trap_gate 5 e.bounds_error m in
    let m = set_trap_gate 6 e.invalid_opcode m in
    let m = set_trap_gate 7 e.dev_noavailable m in
    let m = set_trap_gate 10 e.invalid_tss m in
    let m = set_trap_gate 11 e.seg_nopresent m in
    let m = set_trap_gate 12 e.stack_fault m in
    let m = set_trap_gate 13 e.gp_exception m in
    let m = set_trap_gate 14 e.page_fault m in set_trap_gate 8 e.double_fault m
