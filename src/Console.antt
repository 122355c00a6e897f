-- ===== src/Console.antt =====
-- kernel/printf.c, from line 405 on: the text console.
--
-- The state is the memory and `stdout_pt`, the offset of the cursor in the video memory. A `char`
-- is its byte; it is signed, so that the 16-bit cell is a sum modulo 2 ^ 16.
pub mod Rows
pub mod Within
mod Tests
use quark_os.Base.{
  ℕ, zero, suc, ◌+◌, ◌-◌, ◌*◌, ◌/◌, ◌%◌, ◌^◌, Bool, List, [], ◌∷◌, ◌==◌, ltb, leb, if◌then◌else◌,
}
use quark_os.Ram.{Ram, poke, memcpy, memset}

abbrev pub video_mem : ℕ
video_mem = 0xB8000

abbrev pub chars_per_line : ℕ
chars_per_line = 80

abbrev pub max_lines : ℕ
max_lines = 25

abbrev pub video_mem_size : ℕ
video_mem_size = chars_per_line * max_lines * 2

pub record Console : Type 0 where
  pub ram : Ram
  pub stdout_pt : ℕ

unfoldable pub scroll : Console → Console
scroll s =
    let pt = video_mem + 80 * 2 * 10 in
    let moved = memcpy (2 * 80 * 15) video_mem pt s.ram in
    record { ram = memset (2 * 80 * 10) (pt + 80 * 2 * 5) 0 moved; stdout_pt = 80 * 2 * 15 }

-- `0x0700 + c` as a `short`.
abbrev pub cell : ℕ → ℕ
cell c = if ltb c 128 then 0x0700 + c else 0x0700 + c - 256

unfoldable pub put_cell : ℕ → Console → Console
put_cell c s =
    let at = video_mem + s.stdout_pt in
    record {
      ram = poke (poke s.ram at (cell c % 256)) (at + 1) (cell c / 256);
      stdout_pt = s.stdout_pt + 2;
    }

unfoldable pub putchar : ℕ → Console → Console
putchar c s =
    let t = if leb video_mem_size (s.stdout_pt + 2) then scroll s else s in
    if c == 10
    then record t { stdout_pt = t.stdout_pt + (2 * 80 - t.stdout_pt % (2 * 80)) }
    else put_cell c t

-- The bytes of the string before its terminating 0.
unfoldable pub puts : List ℕ → Console → Console
puts [] s = s
puts (c ∷ str) s = puts str (putchar c s)
