-- ===== src/Mm/Addr.antt =====
-- include/mm.h and include/page.h: virtual addresses, physical addresses and pages.
--
-- An `unsigned long` has 32 bits. `mem_map` is indexed by the page frame number.
use quark_os.Base.{
  ℕ, ◌+◌, ◌-◌, ◌*◌, ◌/◌, ◌%◌, ◌^◌, ◌≤◌, ◌<◌, ◌≡◌, ◌∙◌, ap, Option, none, some, arith, ltb,
  if◌then◌else◌,
}
use Prim.Native.Nat.{bit_and}
use quark_os.Base.Bits.{bit_and-field}
use quark_os.Mm.{Layout, Mm, M, page_shift, pure, ◌>>=◌, bug, alloc_pages, free_pages}

-- `__PAGE_OFFSET`
abbrev pub page_offset : ℕ
page_offset = 0xC0000000

abbrev pub page_size : ℕ
page_size = 2 ^ page_shift

-- `__pa`
abbrev pub virt_to_phys : ℕ → ℕ
virt_to_phys virt = (virt + (2 ^ 32 - page_offset)) % 2 ^ 32

-- `__va`
abbrev pub phys_to_virt : ℕ → ℕ
phys_to_virt phys = (phys + page_offset) % 2 ^ 32

-- `PAGE_ALIGN(a)`: `(a + PAGE_SIZE - 1) & ~PAGE_MASK`
unfoldable pub page_align : ℕ → ℕ
page_align a = bit_and ((a + (page_size - 1)) % 2 ^ 32) (2 ^ 32 - 1 - (page_size - 1))

abbrev pub page_address : ℕ → ℕ
page_address page = phys_to_virt (page * 2 ^ page_shift)

unfoldable pub virt_to_page : ℕ → Option ℕ
virt_to_page virt =
    if ltb virt page_offset then none else some ((virt - page_offset) / 2 ^ page_shift)

-- The page of an address within a page below the 2 ^ 18 that lie above __PAGE_OFFSET is that
-- page, and the physical address of the page's is its number times PAGE_SIZE.
pub virt_to_page-page_address :
    (page offset : ℕ)
    → page < 2 ^ 18
    → offset < page_size
    → (virt_to_page (page_address page + offset) ≡ some page)
      × (virt_to_phys (page_address page) ≡ page * page_size)
unfolding virt_to_page
virt_to_page-page_address page offset hp ho =
    let e : (page_address page + offset - page_offset) / 2 ^ page_shift ≡ page = omega arith in
    (ground (arith, e), omega arith)

page_align-below : (a : ℕ) → a + page_size ≤ 2 ^ 32 → page_align a ≡ (a + 4095) / 4096 * 4096
unfolding page_align
page_align-below a h =
    let e : (a + 4095) % 2 ^ 32 ≡ a + 4095 = omega arith in
    ap (λ (n : ℕ). bit_and n ((2 ^ 20 - 1) * 2 ^ 12)) e
    ∙ bit_and-field 32 20 12 (a + 4095) (omega arith)
    ∙ omega arith

-- PAGE_ALIGN of an address of which the next page lies below 2 ^ 32 is the first multiple of
-- PAGE_SIZE from there on.
pub page_align_lem :
    (a : ℕ)
    → a + page_size ≤ 2 ^ 32
    → (page_align a % page_size ≡ 0) × (a ≤ page_align a) × (page_align a < a + page_size)
page_align_lem a h =
    let e = page_align-below a h in (omega (arith, e), omega (arith, e), omega (arith, e))

module _ (l : Layout) where
  -- The address of a block, or NULL.
  unfoldable pub get_free_pages : (order : ℕ) → M ℕ
  get_free_pages order = do
    found ← alloc_pages l order
    pure (elim found [ none ↦ 0 | some page ↦ page_address page ])

  unfoldable pub get_free_page : M ℕ
  get_free_page = get_free_pages 0

  -- `free_pages(addr, order)`; `none` is also the use of NULL as a page.
  unfoldable pub free_pages_at : (addr order : ℕ) → M (Unit {0})
  free_pages_at addr order = elim (virt_to_page addr) [
    | none ↦ bug
    | some page ↦ free_pages l page order
  ]

  -- The block that get_free_pages gives an address of goes back to its list when that address is
  -- given to free_pages: both act on the page that alloc_pages returns.
  pub free_pages-get_free_pages :
      (order page : ℕ) (s t : Mm)
      → alloc_pages l order s ≡ some (some page, t)
      → page < 2 ^ 18
      → (get_free_pages order s ≡ some (page_address page, t))
        × (free_pages_at (page_address page) order t ≡ free_pages l page order t)
  unfolding get_free_pages free_pages_at
  free_pages-get_free_pages order page s t e hp =
      let back = (virt_to_page-page_address page 0 hp (omega arith)).0 in
      (ground (arith, e), ground (arith, back))
