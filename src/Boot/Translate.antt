-- ===== src/Boot/Translate.antt =====
-- The addresses that default_page_map maps.
use quark_os.Base.{
  ℕ, zero, suc, ◌+◌, ◌-◌, ◌*◌, ◌/◌, ◌%◌, ◌^◌, ◌≤◌, ◌<◌, ◌≡◌, ◌∙◌, refl, ◌&&◌, arith, ◌==◌, ltb, leb,
  Bool, Option, some, none, if◌then◌else◌,
}
use quark_os.Boot.{
  Tables, attr, page_bytes, kernel_pde, entry, set_pde, store, fill_pte, map_tables,
  default_page_map,
}

filled :
    (left j : ℕ) (t : Tables) (k : ℕ)
    → ((fill_pte left j t).pte k
        ≡ (if leb j k && ltb k (j + left) then page_bytes * k + attr else t.pte k))
      × ((fill_pte left j t).pde k ≡ t.pde k)
unfolding fill_pte
filled zero j t k = (ground arith, refl)
filled (suc left) j t k =
    let r = filled left (j + 1) (record t { pte = store t.pte j (page_bytes * j + attr) }) k in
    (ground (arith, r.0), r.1)

-- Where the inner loop stands after a round.
abbrev reached : (i j : ℕ) → ℕ
reached i j = if ltb j (i * 1024) then i * 1024 else j

reached_eq : (i j : ℕ) → j ≤ i * 1024 → reached i j ≡ i * 1024
reached_eq i j h = ground arith

-- One round of the outer loop.
round :
    (i j base : ℕ) (t : Tables) (k : ℕ)
    → ((fill_pte (reached i j - j) j (set_pde base i t)).pte k
        ≡ (if leb j k && ltb k (j + (reached i j - j)) then page_bytes * k + attr else t.pte k))
      × ((fill_pte (reached i j - j) j (set_pde base i t)).pde k ≡ (
          if k == kernel_pde + i then entry base i else if k == i then entry base i else t.pde k))
round i j base t k = filled (reached i j - j) j (set_pde base i t) k

mapped_pte :
    (left i j base : ℕ) (t : Tables) (k : ℕ)
    → (i - 1) * 1024 ≤ j
    → j ≤ i * 1024
    → (map_tables left i j base t).pte k
      ≡ (if leb j k && ltb k ((i + left - 1) * 1024) then page_bytes * k + attr else t.pte k)
unfolding map_tables
mapped_pte zero i j base t k lo hi = ground arith
mapped_pte (suc left) i j base t k lo hi =
    let at = reached_eq i j hi in
    let u = fill_pte (reached i j - j) j (set_pde base i t) in
    let r =
      mapped_pte left (i + 1) (reached i j) base u k (omega (arith, at)) (omega (arith, at)) in
    r ∙ rw at (ground (arith, (filled (i * 1024 - j) j (set_pde base i t) k).0))

mapped_pde :
    (left i j base : ℕ) (t : Tables) (k : ℕ)
    → i + left ≤ kernel_pde
    → (map_tables left i j base t).pde k ≡ (
        if leb i k && ltb k (i + left)
        then entry base k
        else if leb (kernel_pde + i) k && ltb k (kernel_pde + i + left)
        then entry base (k - kernel_pde)
        else t.pde k)
unfolding map_tables
mapped_pde zero i j base t k le = ground arith
mapped_pde (suc left) i j base t k le =
    let u = fill_pte (reached i j - j) j (set_pde base i t) in
    mapped_pde left (i + 1) (reached i j) base u k (omega arith)
    ∙ ground (arith, (round i j base t k).1)

-- Bit 0 of an entry, Present.
abbrev present : (entry : ℕ) → Bool
present entry = entry % 2 == 1

-- The translation of an address by the i386: its page table by the upper ten bits, its page by the
-- next ten, and a page fault, `none`, where one of the two entries is not present. Tables lie from
-- `base + 4096` on.
abbrev pub translate : (base : ℕ) → Tables → ℕ → Option ℕ
translate base t addr =
    let pde = t.pde (addr / 2 ^ 22) in
    let pte = t.pte ((pde / 4096 * 4096 - base - 4096) / 4 + addr / 2 ^ 12 % 1024) in
    if present pde && present pte then some (pte / 4096 * 4096 + addr % 4096) else none

-- With the tables that default_page_map writes at a page-aligned address, ending at or below
-- 2^32, both entries for each address below 28 MB, and for the same address above __PAGE_OFFSET,
-- are present, and the processor translates it to that address.
pub translate-default_page_map :
    (base : ℕ) (t : Tables) (addr : ℕ)
    → base % 4096 ≡ 0
    → base + 9 * 4096 ≤ 2 ^ 32
    → addr < 28 * 2 ^ 20
    → (translate base (default_page_map base t) addr ≡ some addr)
      × (translate base (default_page_map base t) (0xC0000000 + addr) ≡ some addr)
unfolding default_page_map
translate-default_page_map base t addr al fits h = (
  ground (
    arith,
    mapped_pde 8 0 0 base t (addr / 2 ^ 22) (omega arith),
    mapped_pte 8 0 0 base t (addr / 2 ^ 12) (omega arith) (omega arith),
  ),
  ground (
    arith,
    mapped_pde 8 0 0 base t ((0xC0000000 + addr) / 2 ^ 22) (omega arith),
    mapped_pte 8 0 0 base t (addr / 2 ^ 12) (omega arith) (omega arith),
  ),
)

-- default_page_map leaves the entries of the page tables from 28 MB on as they were.
pub default_page_map-last :
    (base : ℕ) (t : Tables) (k : ℕ) → 7 * 1024 ≤ k → (default_page_map base t).pte k ≡ t.pte k
unfolding default_page_map
default_page_map-last base t k h =
    ground (arith, mapped_pte 8 0 0 base t k (omega arith) (omega arith))
