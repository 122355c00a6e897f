-- ===== src/Time.antt =====
-- kernel/time.c: the clock and the waits.
--
-- `jiffies` counts ticks modulo 2 ^ 32 and an interrupt changes it, so that a wait sees a sequence
-- of values, one for each read. A wait gives the number of calls of schedule it makes.
pub mod Waits
mod Tests
use quark_os.Base.{
  ℕ, zero, suc, ◌+◌, ◌-◌, ◌*◌, ◌/◌, ◌%◌, ◌^◌, Option, none, some, ltb, if◌then◌else◌,
}

abbrev pub hz : ℕ
hz = 100

unfoldable pub ktime : (jiffies : ℕ) → ℕ
ktime jiffies = jiffies / hz

module _ (jiffies : ℕ → ℕ) where
  -- The loop of msleep from the read `i` on: `j` is what the first read gave. `none` is a run out
  -- of fuel.
  unfoldable pub wait : (fuel i j ms : ℕ) → Option ℕ
  wait zero i j ms = none
  wait (suc fuel) i j ms =
      let rest = wait fuel (i + 1) j ms in
      if ltb ((jiffies i + 2 ^ 32 - j) % 2 ^ 32) (ms / 10) then rest else some (i - 1)

  -- The read 0 is that of `j`; the loop's first test is the read 1.
  unfoldable pub msleep : (fuel ms : ℕ) → Option ℕ
  msleep fuel ms = wait fuel 1 (jiffies 0) ms

  unfoldable pub sleep : (fuel s : ℕ) → Option ℕ
  sleep fuel s = msleep fuel (s * 1000 % 2 ^ 32)
