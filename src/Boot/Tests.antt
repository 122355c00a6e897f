-- ===== src/Boot/Tests.antt =====
-- The map at 0x1000, over tables that hold 0, and a whole run of boot_main.
use quark_os.Base.{◌+◌, ◌%◌, ◌≡◌, refl, arith, [], ◌∷◌, inr, some}
use mathlib.Core.Option.{map}
use Prim.Native.Nat.{bit_or}
use quark_os.Boot.Start.{BootState, boot_main, boot_main_lem}
use quark_os.Boot.{Tables, default_page_map}
use quark_os.Boot.Translate.{translate, translate-default_page_map, default_page_map-last}

abbrev zeros : Tables
zeros = record { pde = λ i. 0; pte = λ j. 0 }

translate-default_page_map_example :
    (translate 0x1000 (default_page_map 0x1000 zeros) 0xB8003 ≡ some 0xB8003)
    × (translate 0x1000 (default_page_map 0x1000 zeros) (0xC0000000 + 0xB8003) ≡ some 0xB8003)
translate-default_page_map_example =
    translate-default_page_map 0x1000 zeros 0xB8003 refl (omega arith) (omega arith)

default_page_map-last_example : (default_page_map 0x1000 zeros).pte 7200 ≡ 0
default_page_map-last_example = default_page_map-last 0x1000 zeros 7200 (omega arith)

-- A kernel of 128 KB that the loader put at 64 KB.
abbrev loaded : BootState
loaded = record { ram = λ a. a % 256; tables = zeros; ports = [] }

boot_main_lem_example :
    let t = boot_main 0xC0100000 0xC0120000 0x120000 0 0x10000 loaded in
    (map t.ram (translate 0x120000 t.tables (0xC0100000 + 5)) ≡ some (loaded.ram (0x10000 + 5)))
    × (t.ports ≡ (0xFB, 0x21) ∷ (0xFF, 0xA1) ∷ (bit_or 0 0x02, 0x92) ∷ (0x80, 0x70) ∷ loaded.ports)
boot_main_lem_example =
    boot_main_lem 0xC0100000 0xC0120000 0x120000 0 0x10000 loaded 5 (omega arith) (omega arith)
      (omega arith) (omega arith) refl (omega arith) (inr (omega arith))
