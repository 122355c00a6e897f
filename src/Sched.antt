-- ===== src/Sched.antt =====
-- kernel/sched.c: the choice of the next task.
--
-- The static variables and the gdt are a record. The jump itself is in assembly: the state lists the
-- tasks switched to, the latest first.
pub mod Turns
mod Tests
use quark_os.Base.{ℕ, ◌-◌, Bool, true, false, not, Option, none, some, List, [], ◌∷◌, if◌then◌else◌}
use Prim.Native.Nat.{bit_or}
use quark_os.Desc.{Desc, init_desc}
use quark_os.Tasks.{set_gdt, tss_index, ldt_index, sizeof_tss, da_dpl3, da_ldt, da_386tss}

-- `&task0` and `&task1`.
pub data Task : Type 0 where
  task0 : Task
  task1 : Task

pub record Sched : Type 0 where
  pub schedinit : Bool
  pub cur_task : Option Task
  pub gdt : ℕ → Desc
  pub switches : List Task

abbrev pub same_task : Option Task → Task → Bool
same_task none next = false
same_task (some Task.task0) Task.task0 = true
same_task (some Task.task0) Task.task1 = false
same_task (some Task.task1) Task.task0 = false
same_task (some Task.task1) Task.task1 = true

unfoldable pub get_next_task : Sched → Task
get_next_task s = if same_task s.cur_task Task.task1 then Task.task0 else Task.task1

unfoldable pub sched_init : Sched → Sched
sched_init s = record s { schedinit = true }

-- `tss_at` and `ldt_at` are `&task->tss` and `&task->ldt[0]`. The jump through the selector 0x80
-- of the TSS is the entry of `switches`.
module _ (tss_at ldt_at : Task → ℕ) where
  -- `TSS_INIT(task)`
  abbrev pub tss_init : Task → (ℕ → Desc) → ℕ → Desc
  tss_init task =
      set_gdt tss_index (init_desc (tss_at task) (sizeof_tss - 1) (bit_or da_386tss da_dpl3))

  unfoldable pub schedule : Sched → Sched
  schedule s =
      let next = get_next_task s in
      let gdt =
        set_gdt ldt_index (init_desc (ldt_at next) 15 (bit_or da_ldt da_dpl3))
          (tss_init next s.gdt) in
      if not s.schedinit
      then s
      else if same_task s.cur_task next
      then s
      else record s { cur_task = some next; gdt = gdt; switches = next ∷ s.switches }
