-- ===== src/Tasks.antt =====
-- kernel/task.c and include/task.h: the first task's TSS and the descriptors of it and of the LDT.
--
-- The table `gdt` is a function from indices to descriptors. Addresses that the linker gives are
-- arguments. The switch to the task is assembly.
pub mod First
mod Tests
use quark_os.Base.{ℕ, ◌+◌, ◌-◌, ◌*◌, ◌^◌, Bool, ◌==◌, if◌then◌else◌}
use Prim.Native.Nat.{bit_or}
use quark_os.Desc.{Desc, init_desc}

-- `struct tss_struct`
pub record TssStruct : Type 0 where
  pub back_link : ℕ
  pub esp0 : ℕ
  pub ss0 : ℕ
  pub esp1 : ℕ
  pub ss1 : ℕ
  pub esp2 : ℕ
  pub ss2 : ℕ
  pub cr3 : ℕ
  pub eip : ℕ
  pub eflags : ℕ
  pub eax : ℕ
  pub ecx : ℕ
  pub edx : ℕ
  pub ebx : ℕ
  pub esp : ℕ
  pub ebp : ℕ
  pub esi : ℕ
  pub edi : ℕ
  pub es : ℕ
  pub cs : ℕ
  pub ss : ℕ
  pub ds : ℕ
  pub fs : ℕ
  pub gs : ℕ
  pub ldt : ℕ
  pub iobase : ℕ

-- 26 words.
abbrev pub sizeof_tss : ℕ
sizeof_tss = 26 * 4

-- After the memset.
abbrev pub zero_tss : TssStruct
zero_tss = record {
  back_link = 0;
  esp0 = 0;
  ss0 = 0;
  esp1 = 0;
  ss1 = 0;
  esp2 = 0;
  ss2 = 0;
  cr3 = 0;
  eip = 0;
  eflags = 0;
  eax = 0;
  ecx = 0;
  edx = 0;
  ebx = 0;
  esp = 0;
  ebp = 0;
  esi = 0;
  edi = 0;
  es = 0;
  cs = 0;
  ss = 0;
  ds = 0;
  fs = 0;
  gs = 0;
  ldt = 0;
  iobase = 0;
}

abbrev pub kernel_data : ℕ
kernel_data = 2

abbrev pub tss_index : ℕ
tss_index = 16

abbrev pub ldt_index : ℕ
ldt_index = 17

abbrev pub seg_selector : ℕ → ℕ
seg_selector index = index * 2 ^ 3

abbrev pub da_dpl3 : ℕ
da_dpl3 = 0x60

abbrev pub da_ldt : ℕ
da_ldt = 0x82

abbrev pub da_386tss : ℕ
da_386tss = 0x89

abbrev pub stack_size : ℕ
stack_size = 2 ^ 12 * 2

abbrev pub task0_stack : ℕ
task0_stack = 0xC0400000

-- Of `struct task` the two fields that creat_task0 sets.
pub record TaskStruct : Type 0 where
  pub tss : TssStruct
  pub entry : ℕ

pub record Tables : Type 0 where
  pub task0 : TaskStruct
  pub gdt : ℕ → Desc

abbrev pub set_gdt : (i : ℕ) (d : Desc) → (ℕ → Desc) → ℕ → Desc
set_gdt i d gdt j = if j == i then d else gdt j

-- `tss_at` and `ldt_at` are `&task->tss` and `&ldt[0]`.
unfoldable pub creat_task0 : (tss_at ldt_at first_task : ℕ) → Tables → Tables
creat_task0 tss_at ldt_at first_task t =
    let tss : TssStruct = record zero_tss {
      esp0 = task0_stack + stack_size;
      ss0 = seg_selector kernel_data;
      ldt = seg_selector ldt_index;
      iobase = 0x8000000;
    } in
    let gdt =
      set_gdt tss_index (init_desc tss_at (sizeof_tss - 1) (bit_or da_386tss da_dpl3)) t.gdt in
    let gdt = set_gdt ldt_index (init_desc ldt_at 0x40 (bit_or da_ldt da_dpl3)) gdt in
    record { task0 = record { tss = tss; entry = first_task }; gdt = gdt }
