-- ===== src/Time/Waits.antt =====
-- msleep and sleep end, and not before their time.
use quark_os.Base.{
  ==_iff, ◌==◌, ◌∙◌, ap, ℕ, zero, suc, ◌+◌, ◌-◌, ◌*◌, ◌/◌, ◌%◌, ◌^◌, ◌≤◌, ◌<◌, ◌≡◌, some, arith,
  ltb, inl, inr, Bool-cases,
}
use quark_os.Time.{hz, wait, msleep, sleep}

-- The ticks since the machine was started, at each read: a read is at most one tick after the one
-- before it.
abbrev pub IsClock : (ℕ → ℕ) → Type 0
IsClock ticks = (i : ℕ) → (ticks i ≤ ticks (i + 1)) × (ticks (i + 1) ≤ ticks i + 1)

abbrev pub jiffies_of : (ℕ → ℕ) → ℕ → ℕ
jiffies_of ticks i = ticks i % 2 ^ 32

-- The test of the loop, when at most one tick more than those of the wait have passed.
passed :
    (start now wanted : ℕ)
    → start ≤ now
    → now ≤ start + wanted + 1
    → wanted < 2 ^ 31
    → ltb ((now % 2 ^ 32 + 2 ^ 32 - start % 2 ^ 32) % 2 ^ 32) wanted ≡ ltb now (start + wanted)
passed start now wanted lo hi small =
    let e : (now % 2 ^ 32 + 2 ^ 32 - start % 2 ^ 32) % 2 ^ 32 ≡ now - start = omega arith in
    rw e (ground arith)

at_most : (fuel : ℕ) → suc fuel ≡ 0 + suc fuel
at_most fuel = omega arith

the_same : (p fuel : ℕ) → p + suc (suc fuel) ≡ p + 1 + suc fuel
the_same p fuel = omega arith

before_or_now :
    (ticks : ℕ → ℕ) (end p k : ℕ)
    → ticks (p + 1) < end
    → (p + 1 < k → ticks k < end)
    → p < k
    → ticks k < end
before_or_now ticks end p k now later h = elim (Bool-cases (k == p + 1)) [
  | inl e ↦ ground (arith, now, ap ticks ((==_iff _ _).0 e))
  | inr e ↦ later (ground (arith, e))
]

-- The wait from the read after `p` on.
wait_lem :
    (ticks : ℕ → ℕ) (fuel p ms : ℕ)
    → IsClock ticks
    → ms < 2 ^ 32
    → ticks 0 ≤ ticks p
    → ticks p ≤ ticks 0 + ms / 10
    → ticks 0 + ms / 10 ≤ ticks (p + suc fuel)
    → (n : ℕ) × (wait (jiffies_of ticks) (suc fuel) (p + 1) (ticks 0 % 2 ^ 32) ms ≡ some n)
      × (p ≤ n)
      × (ticks 0 + ms / 10 ≤ ticks (n + 1))
      × ((k : ℕ) → p < k → k ≤ n → ticks k < ticks 0 + ms / 10)
unfolding wait
wait_lem ticks zero p ms clock small lo hi far =
    let (up, step) = clock p in
    let test =
      passed (ticks 0) (ticks (p + 1)) (ms / 10) (omega (arith, up)) (omega (arith, step))
        (omega arith) in
    elim (Bool-cases (ltb (ticks (p + 1)) (ticks 0 + ms / 10))) [
      | inl waits ↦ absurd (ground (arith, waits))
      | inr done ↦ (
        p,
        rw (test, done) (ap (λ (n : ℕ). some n) (omega arith)),
        omega arith,
        ground (arith, done),
        λ k a b. absurd (omega arith),
      )
    ]
wait_lem ticks (suc fuel) p ms clock small lo hi far =
    let (up, step) = clock p in
    let test =
      passed (ticks 0) (ticks (p + 1)) (ms / 10) (omega (arith, up)) (omega (arith, step))
        (omega arith) in
    elim (Bool-cases (ltb (ticks (p + 1)) (ticks 0 + ms / 10))) [
      | inl waits ↦
          let (n, runs, more, enough, before) =
            wait_lem ticks fuel (p + 1) ms clock small (omega (arith, up)) (ground (arith, waits))
              (ground (arith, far, ap ticks (the_same p fuel))) in
          (
            n,
            rw (test, waits) runs,
            omega arith,
            enough,
            λ k a b. before_or_now ticks _ p k (ground (arith, waits)) (λ c. before k c b) a,
          )
      | inr done ↦ (
        p,
        rw (test, done) (ap (λ (n : ℕ). some n) (omega arith)),
        omega arith,
        ground (arith, done),
        λ k a b. absurd (omega arith),
      )
    ]

pub msleep_lem :
    (ticks : ℕ → ℕ) (fuel ms : ℕ)
    → IsClock ticks
    → ms < 2 ^ 32
    → ticks 0 + ms / 10 ≤ ticks (suc fuel)
    → (n : ℕ) × (msleep (jiffies_of ticks) (suc fuel) ms ≡ some n)
      × (ticks 0 + ms / 10 ≤ ticks (n + 1))
      × ((k : ℕ) → 0 < k → k ≤ n → ticks k < ticks 0 + ms / 10)
unfolding msleep
msleep_lem ticks fuel ms clock small far =
    let (n, runs, _, enough, before) =
      wait_lem ticks fuel 0 ms clock small (omega arith) (omega arith)
        (ground (arith, far, ap ticks (at_most fuel))) in
    (n, runs, enough, before)

-- When each read of jiffies is at most one tick after the one before it, also across a wrap, and
-- some read is s * HZ ticks after the first, sleep of s seconds, for s * 1000 below 2 ^ 32, ends,
-- after the first read at which s * HZ ticks have passed, and at none before.
pub sleep_lem :
    (ticks : ℕ → ℕ) (fuel s : ℕ)
    → IsClock ticks
    → s * 1000 < 2 ^ 32
    → ticks 0 + s * hz ≤ ticks (suc fuel)
    → (n : ℕ) × (sleep (jiffies_of ticks) (suc fuel) s ≡ some n)
      × (ticks 0 + s * hz ≤ ticks (n + 1))
      × ((k : ℕ) → 0 < k → k ≤ n → ticks k < ticks 0 + s * hz)
unfolding sleep
sleep_lem ticks fuel s clock small far =
    let (n, runs, enough, before) =
      msleep_lem ticks fuel (s * 1000) clock small (omega (arith, far)) in
    (
      n,
      ap (λ (ms : ℕ). msleep (jiffies_of ticks) (suc fuel) ms) (omega arith) ∙ runs,
      omega (arith, enough),
      λ k a b. ground (arith, before k),
    )
