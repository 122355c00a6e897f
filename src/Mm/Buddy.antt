-- ===== src/Mm/Buddy.antt =====
-- page_find_buddy: which block is the buddy of another.
use Prim.Native.Nat.{bit_xor, min}
use quark_os.Base.{
  ℕ, zero, suc, ◌+◌, ◌-◌, ◌/◌, ◌%◌, ◌^◌, ◌<◌, ◌≡◌, refl, true, arith, ◌==◌, ==_iff, if◌then◌else◌,
  all_below, in_table, ◌≢◌,
}
use quark_os.Mm.{max_order, page_find_buddy}

-- The other half of a pair of blocks of order `order`.
abbrev pub other_half : (page order : ℕ) → ℕ
other_half page order = if page / 2 ^ order % 2 == 0 then page + 2 ^ order else page - 2 ^ order

xor_table :
    all_below 11 (λ order. all_below 2048 (λ i. bit_xor i (2 ^ order) == other_half i order)) ≡ true
unfolding all_below
xor_table = refl

-- A statement about every order below MAX_ORDER is one about eleven numbers.
by_order :
    (P : ℕ → Type 0)
    → P 0 × P 1 × P 2 × P 3 × P 4 × P 5 × P 6 × P 7 × P 8 × P 9 × P 10
    → (o : ℕ) → o < max_order
    → P o
by_order P (a, b, c, d, e, f, g, h, i, j, k) zero lt = a
by_order P (a, b, c, d, e, f, g, h, i, j, k) (suc zero) lt = b
by_order P (a, b, c, d, e, f, g, h, i, j, k) (suc (suc zero)) lt = c
by_order P (a, b, c, d, e, f, g, h, i, j, k) (suc (suc (suc zero))) lt = d
by_order P (a, b, c, d, e, f, g, h, i, j, k) (suc (suc (suc (suc zero)))) lt = e
by_order P (a, b, c, d, e, f, g, h, i, j, k) (suc (suc (suc (suc (suc zero))))) lt = f
by_order P (a, b, c, d, e, f, g, h, i, j, k) (suc (suc (suc (suc (suc (suc zero)))))) lt = g
by_order P (a, b, c, d, e, f, g, h, i, j, k) (suc (suc (suc (suc (suc (suc (suc zero))))))) lt = h
by_order P (a, b, c, d, e, f, g, h, i, j, k) (suc (suc (suc (suc (suc (suc (suc (suc zero))))))))
      lt =
    i
by_order P (a, b, c, d, e, f, g, h, i, j, k)
      (suc (suc (suc (suc (suc (suc (suc (suc (suc zero))))))))) lt =
    j
by_order P (a, b, c, d, e, f, g, h, i, j, k)
      (suc (suc (suc (suc (suc (suc (suc (suc (suc (suc zero)))))))))) lt =
    k
by_order P t (suc (suc (suc (suc (suc (suc (suc (suc (suc (suc (suc o))))))))))) lt =
    absurd (omega arith)

xor-other_half :
    (order i : ℕ) → order < max_order → i < 2048 → bit_xor i (2 ^ order) ≡ other_half i order
xor-other_half order i ho hi =
    (==_iff _ _).0 (in_table 2048 i _ hi (in_table 11 order _ ho xor_table))

-- The index within the 2 ^ MAX_ORDER pages decides.
shifted :
    (order : ℕ)
    → order < max_order
    → (page : ℕ) → page + other_half (page % 2048) order - page % 2048 ≡ other_half page order
shifted =
    by_order (λ o. (page : ℕ) → page + other_half (page % 2048) o - page % 2048 ≡ other_half page o)
      (
        λ p. ground arith,
        λ p. ground arith,
        λ p. ground arith,
        λ p. ground arith,
        λ p. ground arith,
        λ p. ground arith,
        λ p. ground arith,
        λ p. ground arith,
        λ p. ground arith,
        λ p. ground arith,
        λ p. ground arith,
      )

-- For an order below MAX_ORDER the buddy that page_find_buddy computes by xor from the low
-- MAX_ORDER bits of a page frame number is the block 2 ^ order pages above or below, as the bit
-- of that order is 0 or 1.
pub page_find_buddy_lem :
    (page order : ℕ)
    → order < max_order
    → page_find_buddy page (page % 2 ^ max_order) order ≡ other_half page order
unfolding page_find_buddy
page_find_buddy_lem page order ho =
    ground (arith, xor-other_half order (page % 2048) ho, shifted order ho page)

abbrev Pairs : (order page q : ℕ) → Type 0
Pairs order page q = (other_half q order ≡ page) × (min page q % 2 ^ suc order ≡ 0) × (page ≢ q)

other_half-Pairs :
    (order : ℕ)
    → order < max_order
    → (page : ℕ) → page % 2 ^ order ≡ 0
    → Pairs order page (other_half page order)
other_half-Pairs =
    by_order (λ o. (page : ℕ) → page % 2 ^ o ≡ 0 → Pairs o page (other_half page o))
      (
        λ p h. ground arith,
        λ p h. ground arith,
        λ p h. ground arith,
        λ p h. ground arith,
        λ p h. ground arith,
        λ p h. ground arith,
        λ p h. ground arith,
        λ p h. ground arith,
        λ p h. ground arith,
        λ p h. ground arith,
        λ p h. ground arith,
      )

-- For an order below MAX_ORDER and a block aligned to it, the buddy of the buddy is the block,
-- the two differ, and the lower of them is aligned to the next order.
pub page_find_buddy-involutive :
    (page order : ℕ)
    → order < max_order
    → page % 2 ^ order ≡ 0
    → let buddy = page_find_buddy page (page % 2 ^ max_order) order in
      (page_find_buddy buddy (buddy % 2 ^ max_order) order ≡ page)
      × (min page buddy % 2 ^ suc order ≡ 0)
      × (page ≢ buddy)
page_find_buddy-involutive page order ho al =
    rw (page_find_buddy_lem page order ho) (
      rw (page_find_buddy_lem (other_half page order) order ho) (other_half-Pairs order ho page al))
