-- ===== src/Console/Within.antt =====
-- The console writes within the video memory alone.
use quark_os.Base.{
  ℕ, ◌+◌, ◌-◌, ◌%◌, ◌≤◌, ◌<◌, ◌≡◌, ◌∙◌, refl, false, ◌&&◌, arith, List, [], ◌∷◌, ◌==◌, ltb, leb,
  if◌then◌else◌,
}
use quark_os.Console.{Console, scroll, put_cell, putchar, puts, video_mem, video_mem_size}
use quark_os.Console.Rows.{scroll-outside}

-- The cursor stands on a cell of the screen, or just behind the last one.
pub record IsPlaced (s : Console) : Type 0 where
  pub even : s.stdout_pt % 2 ≡ 0
  pub bound : s.stdout_pt ≤ video_mem_size

abbrev pub OffScreen : ℕ → Type 0
OffScreen a = (leb video_mem a && ltb a (video_mem + video_mem_size)) ≡ false

-- The state that the character is written in: after a scroll if need be.
abbrev room : Console → Console
room s = if leb video_mem_size (s.stdout_pt + 2) then scroll s else s

room_bound :
    (s : Console)
    → IsPlaced s
    → ((room s).stdout_pt % 2 ≡ 0) × ((room s).stdout_pt < video_mem_size - 2)
unfolding scroll
room_bound s p = (ground (arith, p.even), ground (arith, p.bound))

room_outside : (s : Console) (a : ℕ) → OffScreen a → (room s).ram a ≡ s.ram a
room_outside s a out = ground (arith, scroll-outside s a)

pub putchar-IsPlaced :
    (c : ℕ) (s : Console)
    → IsPlaced s
    → IsPlaced (putchar c s) × ((a : ℕ) → OffScreen a → (putchar c s).ram a ≡ s.ram a)
unfolding putchar put_cell
putchar-IsPlaced c s p =
    let b = room_bound s p in
    (
      record { even = ground (arith, b); bound = ground (arith, b) },
      λ a out. ground (arith, b, room_outside s a out),
    )

-- From a cursor on a cell of the screen or just behind the last one, puts of any string leaves
-- the cursor so and changes no byte outside the video memory.
pub puts-IsPlaced :
    (str : List ℕ) (s : Console)
    → IsPlaced s
    → IsPlaced (puts str s) × ((a : ℕ) → OffScreen a → (puts str s).ram a ≡ s.ram a)
unfolding puts
puts-IsPlaced [] s p = (p, λ a out. refl)
puts-IsPlaced (c ∷ str) s p =
    let (q, kept) = putchar-IsPlaced c s p in
    let (r, also) = puts-IsPlaced str (putchar c s) q in (r, λ a out. also a out ∙ kept a out)

-- From a cursor on a cell of the screen or just behind the last one, putchar of a character other
-- than a newline leaves its byte in the cell before the cursor, with the attribute 7 for a
-- character below 128 and the attribute 6 for the others.
pub putchar-cell :
    (c : ℕ) (s : Console)
    → IsPlaced s
    → c < 256
    → (c == 10) ≡ false
    → let t = putchar c s in
      (t.ram (video_mem + (t.stdout_pt - 2)) ≡ c)
      × (t.ram (video_mem + (t.stdout_pt - 1)) ≡ (if ltb c 128 then 7 else 6))
unfolding putchar put_cell
putchar-cell c s p small ne =
    let b = room_bound s p in (ground (arith, b, ne), ground (arith, b, ne))
