-- ===== src/Time/Tests.antt =====
-- A wait of 2 seconds across the wrap of the counter, one tick at a read.
use quark_os.Base.{ℕ, ◌+◌, ◌*◌, ◌^◌, ◌-◌, ◌<◌, ◌≤◌, ◌≡◌, some, arith}
use quark_os.Time.{hz, sleep}
use quark_os.Time.Waits.{IsClock, jiffies_of, sleep_lem}

abbrev ticks : ℕ → ℕ
ticks i = 2 ^ 32 - 100 + i

ticks-IsClock : IsClock ticks
ticks-IsClock i = (omega arith, omega arith)

sleep_lem_example :
    (n : ℕ) × (sleep (jiffies_of ticks) 201 2 ≡ some n)
    × (ticks 0 + 2 * hz ≤ ticks (n + 1))
    × ((k : ℕ) → 0 < k → k ≤ n → ticks k < ticks 0 + 2 * hz)
sleep_lem_example = sleep_lem ticks 200 2 ticks-IsClock (omega arith) (omega arith)
