-- ===== src/Sched/Turns.antt =====
-- Repeated calls of schedule.
use quark_os.Base.{
  ℕ, zero, suc, ◌/◌, ◌^◌, ◌<◌, ◌≡◌, ◌∙◌, refl, ap, false, true, Option, none, some, List, ◌∷◌, ◌⊎◌,
  inl, inr, arith,
}
use mathlib.Core.Path.{ap₂, sym}
use quark_os.Desc.{Desc, init_desc, base_of, limit_of, access_of}
use quark_os.Desc.Fields.{init_desc-fields}
use quark_os.Tasks.{set_gdt, tss_index, ldt_index}
use quark_os.Tasks.First.{dropped}
use quark_os.Sched.{Task, Sched, get_next_task, sched_init, schedule}

-- The tasks in turn, from `t` on, in front of those before.
abbrev pub other : Task → Task
other Task.task0 = Task.task1
other Task.task1 = Task.task0

abbrev pub turns : ℕ → Task → List Task → List Task
turns zero t before = before
turns (suc n) t before = turns n (other t) (t ∷ before)

abbrev pub next_of : Option Task → Task
next_of none = Task.task1
next_of (some t) = other t

abbrev pub last_of : ℕ → Option Task → Option Task
last_of zero t = t
last_of (suc n) t = last_of n (some (next_of t))

-- The processor finds the task in the gdt: its TSS under the selector 0x80 that the jump takes, and
-- its LDT of two descriptors.
pub record IsLoaded (tss_at ldt_at : Task → ℕ) (gdt : ℕ → Desc) (task : Task) : Type 0 where
  pub tss_base : base_of (gdt (0x80 / 2 ^ 3)) ≡ tss_at task
  pub tss_limit : limit_of (gdt (0x80 / 2 ^ 3)) ≡ 103
  pub tss_access : access_of (gdt (0x80 / 2 ^ 3)) ≡ 0xE9
  pub ldt_base : base_of (gdt ldt_index) ≡ ldt_at task
  pub ldt_limit : limit_of (gdt ldt_index) ≡ 15
  pub ldt_access : access_of (gdt ldt_index) ≡ 0xE2

one_of_two : (t task : Task) → (task ≡ t) ⊎ (task ≡ other t)
one_of_two Task.task0 Task.task0 = inl refl
one_of_two Task.task0 Task.task1 = inr refl
one_of_two Task.task1 Task.task0 = inr refl
one_of_two Task.task1 Task.task1 = inl refl

module _ (tss_at ldt_at : Task → ℕ) where
  -- `n` calls of schedule.
  unfoldable pub calls : ℕ → Sched → Sched
  calls zero s = s
  calls (suc n) s = calls n (schedule tss_at ldt_at s)

  -- The descriptors that a call writes.
  abbrev loaded : Task → (ℕ → Desc) → ℕ → Desc
  loaded task gdt =
      set_gdt ldt_index (init_desc (ldt_at task) 15 0xE2)
        (set_gdt tss_index (init_desc (tss_at task) 103 0xE9) gdt)

  -- What a call does once sched_init is called.
  abbrev Switched : Sched → Type 0
  Switched s =
      let t = schedule tss_at ldt_at s in
      (t.schedinit ≡ true)
      × (t.cur_task ≡ some (next_of s.cur_task))
      × (t.switches ≡ next_of s.cur_task ∷ s.switches)
      × (t.gdt ≡ loaded (next_of s.cur_task) s.gdt)

  schedule-ready : (s : Sched) → s.schedinit ≡ true → Switched s
  unfolding schedule get_next_task
  schedule-ready s e = go s.cur_task refl
    where
      go : (cur : Option Task) → s.cur_task ≡ cur → Switched s
      go none c =
          (ground (arith, e, c), ground (arith, e, c), ground (arith, e, c), ground (arith, e, c))
      go (some Task.task0) c =
          (ground (arith, e, c), ground (arith, e, c), ground (arith, e, c), ground (arith, e, c))
      go (some Task.task1) c =
          (ground (arith, e, c), ground (arith, e, c), ground (arith, e, c), ground (arith, e, c))

  calls-ready :
      (n : ℕ) (s : Sched)
      → s.schedinit ≡ true
      → ((calls n s).cur_task ≡ last_of n s.cur_task)
        × ((calls n s).switches ≡ turns n (next_of s.cur_task) s.switches)
        × ((calls n s).schedinit ≡ true)
  unfolding calls
  calls-ready zero s e = (refl, refl, e)
  calls-ready (suc n) s e =
      let (ready, cur, log, gdt) = schedule-ready s e in
      let (c, l, r) = calls-ready n (schedule tss_at ldt_at s) ready in
      (c ∙ ap (last_of n) cur, l ∙ ap₂ (turns n) (ap next_of cur) log, r)

  -- Once sched_init is called, n calls of schedule switch to the two tasks in turn, n times in
  -- all, starting with the task that does not run, or with task1 if none runs yet, and the task
  -- switched to last is the current one.
  pub calls-turns :
      (n : ℕ) (s : Sched)
      → ((calls n (sched_init s)).cur_task ≡ last_of n s.cur_task)
        × ((calls n (sched_init s)).switches ≡ turns n (next_of s.cur_task) s.switches)
  unfolding sched_init
  calls-turns n s = let (c, l, r) = calls-ready n (sched_init s) refl in (c, l)

  -- Before sched_init is called any number of calls of schedule changes nothing.
  pub calls-idle : (n : ℕ) (s : Sched) → s.schedinit ≡ false → calls n s ≡ s
  unfolding calls schedule
  calls-idle zero s e = refl
  calls-idle (suc n) s e =
      let same : schedule tss_at ldt_at s ≡ s = ground arith in rw (same, calls-idle n s e) refl

  calls-last : (n : ℕ) (s : Sched) → calls (suc n) s ≡ schedule tss_at ldt_at (calls n s)
  unfolding calls
  calls-last zero s = refl
  calls-last (suc n) s = calls-last n (schedule tss_at ldt_at s)

  -- The addresses fit in a descriptor of init_desc.
  pub record IsPlaced (task : Task) : Type 0 where
    pub tss : tss_at task < 2 ^ 32
    pub ldt : ldt_at task < 2 ^ 32
    pub tss_bits : dropped (tss_at task) ≡ 0
    pub ldt_bits : dropped (ldt_at task) ≡ 0

  loaded-IsLoaded :
      (task : Task) (gdt : ℕ → Desc) → IsPlaced task → IsLoaded tss_at ldt_at (loaded task gdt) task
  loaded-IsLoaded task gdt p =
      let (base, limit, access) =
        init_desc-fields (tss_at task) 103 0xE9 p.tss (omega arith) (omega arith) in
      let (base', limit', access') =
        init_desc-fields (ldt_at task) 15 0xE2 p.ldt (omega arith) (omega arith) in
      record {
        tss_base = omega (arith, base, p.tss_bits);
        tss_limit = limit;
        tss_access = access;
        ldt_base = omega (arith, base', p.ldt_bits);
        ldt_limit = limit';
        ldt_access = access';
      }

  -- When the TSS and the LDT of both tasks stand at addresses below 2 ^ 32 with the bits 24 to 27
  -- being 0, then after sched_init and one or more calls of schedule some task is the current
  -- one, and the gdt has the descriptors of its TSS, under the selector of the jump, and of its
  -- LDT.
  pub calls-IsLoaded :
      (n : ℕ) (s : Sched)
      → ((task : Task) → IsPlaced task)
      → (task : Task) × ((calls (suc n) (sched_init s)).cur_task ≡ some task)
        × IsLoaded tss_at ldt_at (calls (suc n) (sched_init s)).gdt task
  unfolding sched_init
  calls-IsLoaded n s placed =
      let before = calls n (sched_init s) in
      let (c, l, r) = calls-ready n (sched_init s) refl in
      let (ready, cur, log, gdt) = schedule-ready before r in
      let task = next_of before.cur_task in
      let last = calls-last n (sched_init s) in
      (task, rw last cur, rw (last, gdt) (loaded-IsLoaded task before.gdt (placed task)))

  -- Once sched_init is called, each task is the current one after any number of calls of schedule
  -- and one more, or after those and two more.
  pub calls-reach :
      (n : ℕ) (s : Sched) (task : Task)
      → ((calls (suc n) (sched_init s)).cur_task ≡ some task)
        ⊎ ((calls (suc (suc n)) (sched_init s)).cur_task ≡ some task)
  unfolding sched_init
  calls-reach n s task =
      let before = calls n (sched_init s) in
      let (c, l, r) = calls-ready n (sched_init s) refl in
      let (ready, cur, log, gdt) = schedule-ready before r in
      let (ready', cur', log', gdt') = schedule-ready (schedule tss_at ldt_at before) ready in
      let one = ap (λ (t : Sched). t.cur_task) (calls-last n (sched_init s)) ∙ cur in
      let two =
        ap (λ (t : Sched). t.cur_task) (calls-last (suc n) (sched_init s))
        ∙ ap (λ (t : Sched). (schedule tss_at ldt_at t).cur_task) (calls-last n (sched_init s))
        ∙ cur'
        ∙ ap (λ (t : Option Task). some (next_of t)) cur in
      elim (one_of_two (next_of before.cur_task) task) [
        | inl e ↦ inl (one ∙ ap (λ (t : Task). some t) (sym e))
        | inr e ↦ inr (two ∙ ap (λ (t : Task). some t) (sym e))
      ]
