-- ===== src/Boot.antt =====
-- kernel/boot.c, default_page_map: the first page directory and its page tables.
--
-- `pde` is the page directory of 1024 words at the address `base`, `pte` the words of the page
-- tables behind it.
pub mod Translate
pub mod Start
mod Tests
use quark_os.Base.{ℕ, zero, suc, ◌+◌, ◌-◌, ◌*◌, ◌/◌, ◌^◌, ◌==◌, ltb, if◌then◌else◌}

pub record Tables : Type 0 where
  pub pde : ℕ → ℕ
  pub pte : ℕ → ℕ

abbrev pub attr : ℕ
attr = 0x07

abbrev pub page_bytes : ℕ
page_bytes = 4096

-- `__PAGE_OFFSET / (1 << PDE_SHIFT)`
abbrev pub kernel_pde : ℕ
kernel_pde = 0xC0000000 / 2 ^ 22

abbrev pub store : (ℕ → ℕ) → ℕ → ℕ → ℕ → ℕ
store f i v k = if k == i then v else f k

-- The inner loop, over the `left` entries from `j` on.
unfoldable pub fill_pte : (left j : ℕ) → Tables → Tables
fill_pte zero j t = t
fill_pte (suc left) j t =
    fill_pte left (j + 1) (record t { pte = store t.pte j (page_bytes * j + attr) })

-- `pde[i] = (pte + i * 1024) + attr`, and the same entry for the kernel's addresses.
abbrev pub entry : (base i : ℕ) → ℕ
entry base i = base + 4096 + 4 * (i * 1024) + attr

abbrev pub set_pde : (base i : ℕ) → Tables → Tables
set_pde base i t = record t {
  pde = store (store t.pde i (entry base i)) (kernel_pde + i) (entry base i);
}

-- The outer loop, with the `j` that the inner one has reached.
unfoldable pub map_tables : (left i j base : ℕ) → Tables → Tables
map_tables zero i j base t = t
map_tables (suc left) i j base t =
    let next = if ltb j (i * 1024) then i * 1024 else j in
    map_tables left (i + 1) next base (fill_pte (next - j) j (set_pde base i t))

unfoldable pub default_page_map : (base : ℕ) → Tables → Tables
default_page_map base t = map_tables (0x2000000 / 2 ^ 22) 0 0 base t
