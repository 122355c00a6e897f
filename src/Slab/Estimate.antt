-- ===== src/Slab/Estimate.antt =====
-- cache_estimate: the objects fit into the slab, and one more would not.
use quark_os.Base.{ℕ, zero, suc, ◌+◌, ◌-◌, ◌*◌, ◌/◌, ◌%◌, ◌^◌, ◌≤◌, ◌<◌, ◌≡◌, arith}
use native.Mathlib.Nat.{
  div-mul-le_self, lt-div-mul-add, add-mul, mul-add, pow-le-pow_right, one-le-pow,
}
use quark_os.Slab.{
  page_size, sizeof_slab, sizeof_bufctl, cache_line_size, align_up, slab_mgmt_size, cache_num,
  cache_left_over,
}

-- The bytes that `n` objects take in a slab.
abbrev pub used : (n buffer_size : ℕ) → ℕ
used n buffer_size = align_up (sizeof_slab + n * sizeof_bufctl) cache_line_size + n * buffer_size

mul_suc : (n b : ℕ) → (n + 1) * b ≡ n * b + b
mul_suc n b = omega (arith, add-mul n 1 b)

mul_four : (n b : ℕ) → n * (b + 4) ≡ n * b + n * 4
mul_four n b = omega (arith, mul-add n b 4)

-- The object that is left out where the rounding of the indices takes its place.
mul_pred : (n b : ℕ) → 0 < n → (n - 1) * b + b ≡ n * b
mul_pred zero b h = absurd (omega arith)
mul_pred (suc n) b h = ground (arith, mul_suc n b)

-- For an order up to 11, objects of at least 27 bytes and, with the 4 bytes of an index, fewer
-- than 2 ^ 32, and the cache line size as alignment, the number of objects that cache_estimate
-- computes fits into the slab together with its management data, and one object more would not.
pub cache_num-used :
    (order buffer_size : ℕ)
    → order ≤ 11
    → 27 ≤ buffer_size
    → buffer_size + sizeof_bufctl < 2 ^ 32
    → let slab_size = page_size * 2 ^ order in
      let n = cache_num order buffer_size cache_line_size in
      (used n buffer_size ≤ slab_size) × (slab_size < used (n + 1) buffer_size)
unfolding cache_num slab_mgmt_size
cache_num-used order b ho hb small =
    let p = 2 ^ order in
    let q = (page_size * p - sizeof_slab) / (b + sizeof_bufctl) in
    let lo = one-le-pow order 2 in
    let hi = pow-le-pow_right {n = 2} (omega arith) {i = order} {j = 11} ho in
    let no_wrap : (b + sizeof_bufctl) % 2 ^ 32 ≡ b + sizeof_bufctl = omega (arith, small) in
    rw no_wrap (
      ground (
        arith,
        div-mul-le_self (page_size * p - sizeof_slab) (b + sizeof_bufctl),
        lt-div-mul-add {a = page_size * p - sizeof_slab} {b = b + sizeof_bufctl} (omega arith),
        mul_suc q b,
        mul_four q b,
        mul_pred q b,
        lo,
        hi,
      ))

-- For an order up to 11, objects of 27 bytes or more and the cache line size as alignment, the
-- bytes that cache_estimate reports as left over and the bytes in use are together the size of
-- the slab: the subtraction does not wrap.
pub cache_left_over-used :
    (order buffer_size : ℕ)
    → order ≤ 11
    → 27 ≤ buffer_size
    → buffer_size + sizeof_bufctl < 2 ^ 32
    → cache_left_over order buffer_size cache_line_size
        + used (cache_num order buffer_size cache_line_size) buffer_size
      ≡ page_size * 2 ^ order
unfolding cache_left_over slab_mgmt_size
cache_left_over-used order b ho hb small = ground (
  arith,
  cache_num-used order b ho hb small,
  one-le-pow order 2,
  pow-le-pow_right {n = 2} (omega arith) {i = order} {j = 11} ho,
)
