-- ===== src/Sched/Tests.antt =====
-- Calls of schedule from the state at the start.
use quark_os.Base.{ℕ, ◌≡◌, refl, ◌⊎◌, arith, false, none, some, [], ◌∷◌}
use quark_os.Sched.{Task, Sched, sched_init}
use quark_os.Sched.Turns.{calls, calls-turns, IsLoaded, IsPlaced, calls-IsLoaded, calls-reach}

abbrev tss_at : Task → ℕ
tss_at Task.task0 = 0xC0110000
tss_at Task.task1 = 0xC0111000

abbrev ldt_at : Task → ℕ
ldt_at Task.task0 = 0xC0110080
ldt_at Task.task1 = 0xC0111080

abbrev start : Sched
start = record {
  schedinit = false;
  cur_task = none;
  gdt = λ i. record { l = 0; h = 0 };
  switches = [];
}

placed : (task : Task) → IsPlaced tss_at ldt_at task
placed Task.task0 = record {
  tss = omega arith;
  ldt = omega arith;
  tss_bits = refl;
  ldt_bits = refl;
}
placed Task.task1 = record {
  tss = omega arith;
  ldt = omega arith;
  tss_bits = refl;
  ldt_bits = refl;
}

calls-turns_example :
    ((calls tss_at ldt_at 3 (sched_init start)).cur_task ≡ some Task.task1)
    × ((calls tss_at ldt_at 3 (sched_init start)).switches
        ≡ Task.task1 ∷ Task.task0 ∷ Task.task1 ∷ [])
calls-turns_example = calls-turns tss_at ldt_at 3 start

calls-IsLoaded_example :
    (task : Task) × ((calls tss_at ldt_at 3 (sched_init start)).cur_task ≡ some task)
    × IsLoaded tss_at ldt_at (calls tss_at ldt_at 3 (sched_init start)).gdt task
calls-IsLoaded_example = calls-IsLoaded tss_at ldt_at 2 start placed

calls-reach_example :
    ((calls tss_at ldt_at 1 (sched_init start)).cur_task ≡ some Task.task0)
    ⊎ ((calls tss_at ldt_at 2 (sched_init start)).cur_task ≡ some Task.task0)
calls-reach_example = calls-reach tss_at ldt_at 0 start Task.task0
