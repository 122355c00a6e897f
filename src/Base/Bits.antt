-- ===== src/Base/Bits.antt =====
-- `&` and `|` on native numbers, field by field.
use Prim.Native.Nat.{
  ℕ, zero, suc, ◌+◌, ◌-◌, ◌*◌, ◌/◌, ◌%◌, ◌^◌, ◌≤◌, ◌<◌, min, max, digits, bit_and, bit_or,
  bit_and-bitwise, bit_or-bitwise,
}
use mathlib.Core.Path.{◌≡◌, refl, ap, sym, ◌∙◌}
use native.Mathlib.Omega.{arith}
use native.Mathlib.Nat.{two-pow-succ, one-le-pow, div-add-mod', mod-lt}

module _ (z : ℕ → ℕ) (f : ℕ → ℕ → ℕ) where
  -- A count of digits to go that is larger than needed.
  digits_more : (n m a b : ℕ) → a ≤ n → n ≤ m → digits z f m a b ≡ digits z f n a b
  digits_more zero zero zero b h k = refl
  digits_more zero (suc m) zero b h k = refl
  digits_more zero m (suc a) b h k = absurd (omega arith)
  digits_more (suc n) zero a b h k = absurd (omega arith)
  digits_more (suc n) (suc m) zero b h k = refl
  digits_more (suc n) (suc m) (suc a) b h k =
      rw (digits_more n m (suc a / 2) (b / 2) (omega arith) (omega arith)) refl

  -- The count that the lowest digit leaves.
  digits_half : (a b : ℕ) → digits z f a (suc a / 2) b ≡ digits z f (suc a / 2) (suc a / 2) b
  digits_half a b = digits_more (suc a / 2) a (suc a / 2) b (omega arith) (omega arith)

bit_or-lowest : (a b : ℕ) → bit_or a b ≡ bit_or (a / 2) (b / 2) * 2 + max (a % 2) (b % 2)
bit_or-lowest zero b = simp bit_or-bitwise (omega arith)
bit_or-lowest (suc a) b = simp bit_or-bitwise (omega (arith, digits_half (λ c. c) max a (b / 2)))

bit_and-lowest : (a b : ℕ) → bit_and a b ≡ bit_and (a / 2) (b / 2) * 2 + min (a % 2) (b % 2)
bit_and-lowest zero b = simp bit_and-bitwise (omega arith)
bit_and-lowest (suc a) b = simp bit_and-bitwise (omega (arith, digits_half (λ c. 0) min a (b / 2)))

twice : (k q : ℕ) → q * 2 ^ suc k ≡ 2 * (q * 2 ^ k)
twice k q = omega (arith, ap (λ (p : ℕ). q * p) (two-pow-succ k))

half : (k q r : ℕ) → (q * 2 ^ suc k + r) / 2 ≡ q * 2 ^ k + r / 2
half k q r = omega (arith, twice k q)

last_digit : (k q r : ℕ) → (q * 2 ^ suc k + r) % 2 ≡ r % 2
last_digit k q r = omega (arith, twice k q)

-- An operation on two digits at a time works on the upper and on the lower digits apart.
module _ (op f : ℕ → ℕ → ℕ)
    (lowest : (a b : ℕ) → op a b ≡ op (a / 2) (b / 2) * 2 + f (a % 2) (b % 2)) where
  parts :
      (k q r q' r' : ℕ)
      → r < 2 ^ k
      → r' < 2 ^ k
      → op (q * 2 ^ k + r) (q' * 2 ^ k + r') ≡ op q q' * 2 ^ k + op r r'
  parts zero q zero q' zero h h' =
      let unit : (n : ℕ) → n * 2 ^ 0 + 0 ≡ n = λ n. omega arith in
      rw (unit q, unit q') (omega (arith, lowest 0 0))
  parts zero q (suc r) q' r' h h' = absurd (omega arith)
  parts zero q zero q' (suc r') h h' = absurd (omega arith)
  parts (suc k) q r q' r' h h' =
      lowest (q * 2 ^ suc k + r) (q' * 2 ^ suc k + r')
      ∙ rw (half k q r, half k q' r', last_digit k q r, last_digit k q' r')
          (omega (
            arith,
            lowest r r',
            twice k (op q q'),
            two-pow-succ k,
            parts k q (r / 2) q' (r' / 2) (omega (arith, two-pow-succ k))
                (omega (arith, two-pow-succ k)),
          ))

pub bit_or-parts :
    (k q r q' r' : ℕ)
    → r < 2 ^ k
    → r' < 2 ^ k
    → bit_or (q * 2 ^ k + r) (q' * 2 ^ k + r') ≡ bit_or q q' * 2 ^ k + bit_or r r'
bit_or-parts = parts bit_or max bit_or-lowest

pub bit_and-parts :
    (k q r q' r' : ℕ)
    → r < 2 ^ k
    → r' < 2 ^ k
    → bit_and (q * 2 ^ k + r) (q' * 2 ^ k + r') ≡ bit_and q q' * 2 ^ k + bit_and r r'
bit_and-parts = parts bit_and min bit_and-lowest

fields : (k : ℕ) {q r a b : ℕ} → q ≡ a → r ≡ b → q * 2 ^ k + r ≡ a * 2 ^ k + b
fields k {q} {r} {a} {b} e d = ap (λ (n : ℕ). n * 2 ^ k + r) e ∙ ap (λ (n : ℕ). a * 2 ^ k + n) d

-- 0 and the mask of k ones, on numbers below a power of two.
zeros_below :
    (k r : ℕ)
    → r < 2 ^ k
    → (bit_or r 0 ≡ r) × (bit_or 0 r ≡ r) × (bit_and r 0 ≡ 0) × (bit_and r (2 ^ k - 1) ≡ r)
zeros_below zero (suc r) h = absurd (omega arith)
zeros_below zero zero h = (
  omega (arith, bit_or-lowest 0 0),
  omega (arith, bit_or-lowest 0 0),
  omega (arith, bit_and-lowest 0 0),
  omega (arith, bit_and-lowest 0 0),
)
zeros_below (suc k) r h =
    let (a, b, c, d) = zeros_below k (r / 2) (omega (arith, two-pow-succ k)) in
    let (p, q) : ((2 ^ suc k - 1) / 2 ≡ 2 ^ k - 1) × ((2 ^ suc k - 1) % 2 ≡ 1) = (
      omega (arith, two-pow-succ k, one-le-pow k 2),
      omega (arith, two-pow-succ k, one-le-pow k 2),
    ) in
    (
      omega (arith, bit_or-lowest r 0),
      omega (arith, bit_or-lowest 0 r),
      omega (arith, bit_and-lowest r 0),
      omega (arith, bit_and-lowest r (2 ^ suc k - 1), ap (bit_and (r / 2)) p),
    )

pub bit_or-zero : (k r : ℕ) → r < 2 ^ k → bit_or r 0 ≡ r
bit_or-zero k r h = (zeros_below k r h).0

-- A field above the others, below them, and between them, of numbers below 2 ^ j.
module _ (j k : ℕ) where
  pub bit_or-above : (q r : ℕ) → r < 2 ^ k → q < 2 ^ j → bit_or r (q * 2 ^ k) ≡ q * 2 ^ k + r
  bit_or-above q r h w =
      let low : r ≡ 0 * 2 ^ k + r = omega arith in
      let high : q * 2 ^ k ≡ q * 2 ^ k + 0 = omega arith in
      ap (λ (n : ℕ). bit_or n (q * 2 ^ k)) low
      ∙ ap (bit_or (0 * 2 ^ k + r)) high
      ∙ bit_or-parts k 0 r q 0 h (omega arith)
      ∙ fields k ((zeros_below j q w).1) ((zeros_below k r h).0)

  pub bit_or-below : (q r : ℕ) → r < 2 ^ k → q < 2 ^ j → bit_or (q * 2 ^ k) r ≡ q * 2 ^ k + r
  bit_or-below q r h w =
      let low : r ≡ 0 * 2 ^ k + r = omega arith in
      let high : q * 2 ^ k ≡ q * 2 ^ k + 0 = omega arith in
      ap (λ (n : ℕ). bit_or n r) high
      ∙ ap (bit_or (q * 2 ^ k + 0)) low
      ∙ bit_or-parts k q 0 0 r (omega arith) h
      ∙ fields k ((zeros_below j q w).0) ((zeros_below k r h).1)

-- The low `k` bits.
pub bit_and-low : (j k n : ℕ) → n < 2 ^ j → bit_and n (2 ^ k - 1) ≡ n % 2 ^ k
bit_and-low j k n h =
    let split : n / 2 ^ k * 2 ^ k + n % 2 ^ k ≡ n = div-add-mod' n (2 ^ k) in
    let pos = one-le-pow k 2 in
    let below : n % 2 ^ k < 2 ^ k = mod-lt n (omega (arith, pos)) in
    let less : n / 2 ^ k < 2 ^ j = omega arith in
    let mask : 2 ^ k - 1 ≡ 0 * 2 ^ k + (2 ^ k - 1) = omega arith in
    ap (λ (m : ℕ). bit_and m (2 ^ k - 1)) (sym split)
    ∙ ap (bit_and (n / 2 ^ k * 2 ^ k + n % 2 ^ k)) mask
    ∙ bit_and-parts k (n / 2 ^ k) (n % 2 ^ k) 0 (2 ^ k - 1) below (omega (arith, pos))
    ∙ fields k ((zeros_below j (n / 2 ^ k) less).2) ((zeros_below k (n % 2 ^ k) below).3)
    ∙ omega arith

-- `k` bits from the bit `i` on.
pub bit_and-field :
    (j k i n : ℕ) → n < 2 ^ j → bit_and n ((2 ^ k - 1) * 2 ^ i) ≡ n / 2 ^ i % 2 ^ k * 2 ^ i
bit_and-field j k i n h =
    let split : n / 2 ^ i * 2 ^ i + n % 2 ^ i ≡ n = div-add-mod' n (2 ^ i) in
    let pos = one-le-pow i 2 in
    let below : n % 2 ^ i < 2 ^ i = mod-lt n (omega (arith, pos)) in
    let less : n / 2 ^ i < 2 ^ j = omega arith in
    let mask : (2 ^ k - 1) * 2 ^ i ≡ (2 ^ k - 1) * 2 ^ i + 0 = omega arith in
    ap (λ (m : ℕ). bit_and m ((2 ^ k - 1) * 2 ^ i)) (sym split)
    ∙ ap (bit_and (n / 2 ^ i * 2 ^ i + n % 2 ^ i)) mask
    ∙ bit_and-parts i (n / 2 ^ i) (n % 2 ^ i) (2 ^ k - 1) 0 below (omega (arith, pos))
    ∙ fields i (bit_and-low j k (n / 2 ^ i) less) ((zeros_below i (n % 2 ^ i) below).2)
    ∙ omega arith
