-- ===== src/Irq/Vectors.antt =====
-- irq_init and traps_init: what each vector leads to.
use quark_os.Base.{
  ℕ, zero, suc, ◌+◌, ◌^◌, ◌<◌, ◌≡◌, ◌&&◌, inl, inr, arith, ◌==◌, leb, ltb, if◌then◌else◌,
  Bool-cases,
}
use quark_os.Desc.{Desc, offset_of, selector_of, access_of}
use quark_os.Desc.Fields.{gate-fields}
use quark_os.Irq.{
  Machine, Entries, gate_words, default_gate, set_idt, set_trap_gate, fill_idt, init_8259a,
  irq_init, traps_init,
}

-- A present gate of privilege level 0 of the kernel's code segment.
abbrev pub Leads : Desc → (offset type : ℕ) → Type 0
Leads d offset type = (offset_of d ≡ offset) × (selector_of d ≡ 8) × (access_of d ≡ 2 ^ 7 + type)

abbrev pub Small : Entries → Type 0
Small e =
    (e.divide_error < 2 ^ 32)
    × (e.bounds_error < 2 ^ 32)
    × (e.invalid_tss < 2 ^ 32)
    × (e.double_fault < 2 ^ 32)
    × (e.overflow_trap < 2 ^ 32)
    × (e.invalid_opcode < 2 ^ 32)
    × (e.dev_noavailable < 2 ^ 32)
    × (e.seg_nopresent < 2 ^ 32)
    × (e.stack_fault < 2 ^ 32)
    × (e.page_fault < 2 ^ 32)
    × (e.gp_exception < 2 ^ 32)

-- The processor's exceptions by their vectors; `other` for the rest.
abbrev pub entry_of : Entries → (other n : ℕ) → ℕ
entry_of e other n =
    if n == 8
    then e.double_fault
    else if n == 14
    then e.page_fault
    else if n == 13
    then e.gp_exception
    else if n == 12
    then e.stack_fault
    else if n == 11
    then e.seg_nopresent
    else if n == 10
    then e.invalid_tss
    else if n == 7
    then e.dev_noavailable
    else if n == 6
    then e.invalid_opcode
    else if n == 5
    then e.bounds_error
    else if n == 4
    then e.overflow_trap
    else if n == 0
    then e.divide_error
    else other

-- 15 for a trap, 14 for an interrupt.
abbrev pub type_of : ℕ → ℕ
type_of n =
    entry_of
      (record {
        divide_error = 15;
        bounds_error = 15;
        invalid_tss = 15;
        double_fault = 15;
        overflow_trap = 15;
        invalid_opcode = 15;
        dev_noavailable = 15;
        seg_nopresent = 15;
        stack_fault = 15;
        page_fault = 15;
        gp_exception = 15;
      })
      14 n

set_trap_gate-Leads :
    (n offset : ℕ) (m : Machine) (i at type : ℕ)
    → offset < 2 ^ 32
    → Leads (m.idt i) at type
    → Leads
        ((set_trap_gate n offset m).idt i)
        (if i == n then offset else at)
        (if i == n then 15 else type)
set_trap_gate-Leads n offset m i at type small h = elim (Bool-cases (i == n)) [
  | inl e ↦ rw e (gate-fields offset 15 small (omega arith))
  | inr e ↦ rw e h
]

pub traps_init-Leads :
    (e : Entries) (m : Machine) (i at : ℕ)
    → Small e
    → Leads (m.idt i) at 14
    → Leads ((traps_init e m).idt i) (entry_of e at i) (type_of i)
unfolding traps_init
traps_init-Leads e m i at (div, bounds, tss, double, over, op, dev, seg, stack, page, gp) h =
    let h = set_trap_gate-Leads 0 e.divide_error m i _ _ div h in
    let m_div = set_trap_gate 0 e.divide_error m in
    let h = set_trap_gate-Leads 4 e.overflow_trap m_div i _ _ over h in
    let m_over = set_trap_gate 4 e.overflow_trap m_div in
    let h = set_trap_gate-Leads 5 e.bounds_error m_over i _ _ bounds h in
    let m_bounds = set_trap_gate 5 e.bounds_error m_over in
    let h = set_trap_gate-Leads 6 e.invalid_opcode m_bounds i _ _ op h in
    let m_op = set_trap_gate 6 e.invalid_opcode m_bounds in
    let h = set_trap_gate-Leads 7 e.dev_noavailable m_op i _ _ dev h in
    let m_dev = set_trap_gate 7 e.dev_noavailable m_op in
    let h = set_trap_gate-Leads 10 e.invalid_tss m_dev i _ _ tss h in
    let m_tss = set_trap_gate 10 e.invalid_tss m_dev in
    let h = set_trap_gate-Leads 11 e.seg_nopresent m_tss i _ _ seg h in
    let m_seg = set_trap_gate 11 e.seg_nopresent m_tss in
    let h = set_trap_gate-Leads 12 e.stack_fault m_seg i _ _ stack h in
    let m_stack = set_trap_gate 12 e.stack_fault m_seg in
    let h = set_trap_gate-Leads 13 e.gp_exception m_stack i _ _ gp h in
    let m_gp = set_trap_gate 13 e.gp_exception m_stack in
    let h = set_trap_gate-Leads 14 e.page_fault m_gp i _ _ page h in
    let m_page = set_trap_gate 14 e.page_fault m_gp in
    set_trap_gate-Leads 8 e.double_fault m_page i _ _ double h

filled :
    (left start : ℕ) (g : Desc) (m : Machine) (i : ℕ)
    → (fill_idt left start g m).idt i ≡ (if leb start i && ltb i (start + left) then g else m.idt i)
unfolding fill_idt
filled zero start g m i = ground arith
filled (suc left) start g m i = ground (arith, filled left (start + 1) g (set_idt start g m) i)

default-Leads :
    (handler : ℕ) → handler < 2 ^ 32 → Leads (gate_words (default_gate handler)) handler 14
unfolding default_gate
default-Leads handler h = (omega arith, omega arith, omega arith)

irq_init-Leads :
    (ignore_int idt : ℕ) (m : Machine) (i : ℕ)
    → ignore_int < 2 ^ 32
    → i < 256
    → Leads ((irq_init ignore_int idt m).idt i) ignore_int 14
unfolding irq_init init_8259a
irq_init-Leads ignore_int idt m i h lt =
    let e : (fill_idt 256 0 (gate_words (default_gate ignore_int)) m).idt i
        ≡ gate_words (default_gate ignore_int) =
      ground (arith, filled 256 0 (gate_words (default_gate ignore_int)) m i) in
    rw e (default-Leads ignore_int h)

-- After irq_init and then traps_init, for addresses below 2 ^ 32, each of the 256 vectors holds a
-- present gate of privilege level 0 and of the kernel's code segment: the vectors 0, 4 to 8 and
-- 10 to 14 trap gates to the entries of their exceptions, all others interrupt gates to
-- ignore_int.
pub traps_init-irq_init :
    (ignore_int idt : ℕ) (e : Entries) (m : Machine) (n : ℕ)
    → ignore_int < 2 ^ 32
    → Small e
    → n < 256
    → Leads ((traps_init e (irq_init ignore_int idt m)).idt n) (entry_of e ignore_int n) (type_of n)
traps_init-irq_init ignore_int idt e m n h small lt =
    traps_init-Leads e (irq_init ignore_int idt m) n ignore_int small
      (irq_init-Leads ignore_int idt m n h lt)
