-- ===== src/Console/Rows.antt =====
-- What scroll does to the rows of the screen.
use quark_os.Base.{ℕ, ◌+◌, ◌*◌, ◌<◌, ◌≡◌, false, ◌&&◌, arith, ltb, leb, if◌then◌else◌}
use quark_os.Console.{Console, scroll, video_mem, video_mem_size}
use quark_os.Ram.{memcpy}
use quark_os.Ram.Copy.{memcpy_lem, memset_lem}

-- The byte at a column of a row; a row has 160 bytes.
abbrev pub byte_at : Console → (row column : ℕ) → ℕ
byte_at s row column = s.ram (video_mem + row * 160 + column)

moved :
    (s : Console) (a : ℕ)
    → (scroll s).ram a ≡ (
        if leb (video_mem + 2400) a && ltb a (video_mem + 4000)
        then 0
        else if leb video_mem a && ltb a (video_mem + 2400)
        then s.ram (a + 1600)
        else s.ram a)
unfolding scroll
moved s a = ground (
  arith,
  memset_lem 1600 (video_mem + 2400) 0 (memcpy 2400 video_mem (video_mem + 1600) s.ram) a,
  memcpy_lem 2400 video_mem (video_mem + 1600) s.ram a,
)

-- Scrolling moves the lower 15 of the 25 rows of the screen to the top and clears the 10 rows
-- below them.
pub scroll-byte_at :
    (s : Console) (row column : ℕ)
    → row < 25
    → column < 160
    → byte_at (scroll s) row column ≡ (if ltb row 15 then byte_at s (row + 10) column else 0)
scroll-byte_at s row column hr hc = ground (arith, moved s (video_mem + row * 160 + column))

-- Outside the screen nothing changes.
pub scroll-outside :
    (s : Console) (a : ℕ)
    → leb video_mem a && ltb a (video_mem + video_mem_size) ≡ false
    → (scroll s).ram a ≡ s.ram a
scroll-outside s a out = ground (arith, moved s a)
