-- ===== src/Boot/Start.antt =====
-- kernel/boot.c, boot_main: the kernel's code is moved to its place and the page map is set up.
--
-- The memory that the kernel is copied in is a Ram, and the page tables, which stand behind the
-- kernel, are words of their own. The bytes sent to the ports are a list, the latest first, each
-- with its port; the byte that the port 0x92 gives is an argument.
use quark_os.Base.{
  ℕ, ◌+◌, ◌-◌, ◌*◌, ◌%◌, ◌^◌, ◌≤◌, ◌<◌, ◌≡◌, ◌∙◌, refl, ◌⊎◌, List, ◌∷◌, arith, ap, some,
}
use mathlib.Core.Option.{map}
use Prim.Native.Nat.{bit_or}
use quark_os.Ram.{Ram, memcpy}
use quark_os.Ram.Copy.{memcpy_lem}
use quark_os.Boot.{Tables, default_page_map}
use quark_os.Boot.Translate.{translate, translate-default_page_map}

pub record BootState : Type 0 where
  pub ram : Ram
  pub tables : Tables
  pub ports : List (ℕ × ℕ)

abbrev pub send : (val port : ℕ) → BootState → BootState
send val port s = record s { ports = (val, port) ∷ s.ports }

abbrev pub disable_nmi : BootState → BootState
disable_nmi = send 0x80 0x70

-- `port_92` is the value of `inb(0x92)`.
unfoldable pub enable_a20 : (port_92 : ℕ) → BootState → BootState
enable_a20 port_92 = send (bit_or port_92 0x02) 0x92

abbrev pub mask_all_ints : BootState → BootState
mask_all_ints s = send 0xFB 0x21 (send 0xFF 0xA1 s)

-- `text` and `end` are the linker's `_text` and `_end`.
unfoldable pub move_kernel_code : (text end from : ℕ) → BootState → BootState
move_kernel_code text end from s = record s {
  ram = memcpy (end - text) (text - 0xC0000000) from s.ram;
}

-- `base` is the physical address of the page directory.
unfoldable pub boot_main : (text end base port_92 from : ℕ) → BootState → BootState
boot_main text end base port_92 from s =
    let s = mask_all_ints (enable_a20 port_92 (disable_nmi s)) in
    let s = move_kernel_code text end from s in record s { tables = default_page_map base s.tables }

-- For a kernel linked above __PAGE_OFFSET that ends below 28 MB, a page-aligned page directory at
-- or behind the kernel's end, whose tables end at or below 2^32, and a copy that does not run
-- over its own source, once boot_main has run the processor translates each address that the
-- kernel is linked to, without a page fault, to one that holds the byte that the loader put
-- there; and the last bytes sent mask all interrupts but the one of the slave.
pub boot_main_lem :
    (text end base port_92 from : ℕ) (s : BootState) (i : ℕ)
    → 0xC0000000 ≤ text
    → text + i < end
    → end < 0xC0000000 + 28 * 2 ^ 20
    → end ≤ 0xC0000000 + base
    → base % 4096 ≡ 0
    → base + 9 * 4096 ≤ 2 ^ 32
    → (text - 0xC0000000 ≤ from) ⊎ (from + (end - text) ≤ text - 0xC0000000)
    → let t = boot_main text end base port_92 from s in
      (map t.ram (translate base t.tables (text + i)) ≡ some (s.ram (from + i)))
      × (t.ports
          ≡ (0xFB, 0x21) ∷ (0xFF, 0xA1) ∷ (bit_or port_92 0x02, 0x92) ∷ (0x80, 0x70) ∷ s.ports)
unfolding boot_main enable_a20 move_kernel_code
boot_main_lem text end base port_92 from s i lo in_kernel hi behind al fits apart =
    let addr = text - 0xC0000000 + i in
    let e : 0xC0000000 + addr ≡ text + i = omega arith in
    let at = rw e at ((translate-default_page_map base s.tables addr al fits (omega arith)).1) in
    let copied = memcpy_lem (end - text) (text - 0xC0000000) from s.ram addr apart in
    (
      ap (map (memcpy (end - text) (text - 0xC0000000) from s.ram)) at
          ∙ ap some (ground (arith, copied)),
      refl,
    )
