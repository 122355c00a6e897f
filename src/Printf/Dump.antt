-- ===== src/Printf/Dump.antt =====
-- kernel/string.c, mem_dump: units of 1, 2 or 4 bytes of the memory, printed.
use quark_os.Base.{
  ℕ, zero, suc, ◌+◌, ◌*◌, ◌^◌, ◌≤◌, ◌<◌, ◌≡◌, ◌∙◌, refl, false, ◌&&◌, ◌⊎◌, inl, inr, Option, none,
  some, List, [], ◌∷◌, arith, ◌==◌, ltb, leb, if◌then◌else◌,
}
use quark_os.Ram.{Ram}
use quark_os.Console.{Console, video_mem, video_mem_size}
use quark_os.Console.Within.{IsPlaced, OffScreen}
use quark_os.Printf.Fixed.{hex_format, text_length-hex_format, text_length-newline}
use quark_os.Printf.Screen.{buf_size, printf, printf-IsPlaced}

-- `mdformat`
abbrev pub mdformat : ℕ → List ℕ
mdformat ps = hex_format (if ps == 0 then b'2' else if ps == 1 then b'4' else b'8')

-- The unit of `blk` bytes at an address, the lowest byte first.
unfoldable pub unit_at : (blk addr : ℕ) → Ram → ℕ
unit_at zero addr m = 0
unit_at (suc blk) addr m = let high = unit_at blk (addr + 1) m in m addr + 2 ^ 8 * high

module _ (printf_buf : ℕ) where
  -- `_MEMPRINT_`, from the unit `i` on.
  unfoldable pub print_units : (left i addr blk ps : ℕ) → Console → Option Console
  print_units zero i addr blk ps s = elim (printf printf_buf (b'\n' ∷ []) (λ k. 0) s) [
    | none ↦ none
    | some (ret, t) ↦ some t
  ]
  print_units (suc left) i addr blk ps s =
      elim (printf printf_buf (mdformat ps) (λ k. unit_at blk (addr + blk * i) s.ram) s) [
        | none ↦ none
        | some (ret, t) ↦ print_units left (i + 1) addr blk ps t
      ]

  -- Another `blk` is BUG().
  unfoldable pub mem_dump : (addr blk size : ℕ) → Console → Option Console
  mem_dump addr blk size s =
      if blk == 1
      then print_units size 0 addr blk 0 s
      else if blk == 2
      then print_units size 0 addr blk 1 s
      else if blk == 4
      then print_units size 0 addr blk 2 s
      else none

  -- The bytes that neither are on the screen nor belong to printf_buf.
  abbrev pub Elsewhere : ℕ → Type 0
  Elsewhere a = OffScreen a × ((leb printf_buf a && ltb a (printf_buf + buf_size)) ≡ false)

  module _ (pos : 0 < printf_buf) (le : printf_buf + buf_size ≤ 2 ^ 32)
      (behind : video_mem + video_mem_size ≤ printf_buf) where
    print_units-IsPlaced :
        (left i addr blk ps : ℕ) (s : Console)
        → IsPlaced s
        → ps < 3
        → (t : Console) × (print_units left i addr blk ps s ≡ some t)
          × IsPlaced t
          × ((a : ℕ) → Elsewhere a → t.ram a ≡ s.ram a)
    unfolding print_units
    print_units-IsPlaced zero i addr blk ps s p lt =
        let short = text_length-newline printf_buf buf_size (λ k. 0) s.ram in
        let (ret, t, runs, q, kept) =
          printf-IsPlaced printf_buf (b'\n' ∷ []) (λ k. 0) s p pos le behind refl
            (omega (arith, short)) (omega (arith, short, le)) in
        (t, ground (arith, runs), q, λ a e. kept a e.0 e.1)
    print_units-IsPlaced (suc left) i addr blk ps s p lt =
        let words = λ (k : ℕ). unit_at blk (addr + blk * i) s.ram in
        let short = text_length-hex_format printf_buf buf_size words s.ram ps lt in
        let (ret, t, runs, q, kept) =
          printf-IsPlaced printf_buf (mdformat ps) words s p pos le behind (ground arith)
            (omega (arith, short)) (omega (arith, short, le)) in
        let (u, rest, r, also) = print_units-IsPlaced left (i + 1) addr blk ps t q lt in
        (u, ground (arith, runs, rest), r, λ a e. also a e ∙ kept a e.0 e.1)

    -- From a cursor on a cell of the screen or just behind the last one, with printf_buf above 0,
    -- behind the video memory and ending at 2 ^ 32 or below, mem_dump of units of 1, 2 or 4 bytes
    -- ends, leaves the cursor so, and changes no byte outside the video memory and printf_buf.
    pub mem_dump-IsPlaced :
        (addr blk size : ℕ) (s : Console)
        → IsPlaced s
        → (blk ≡ 1) ⊎ ((blk ≡ 2) ⊎ (blk ≡ 4))
        → (t : Console) × (mem_dump addr blk size s ≡ some t)
          × IsPlaced t
          × ((a : ℕ) → Elsewhere a → t.ram a ≡ s.ram a)
    unfolding mem_dump
    mem_dump-IsPlaced addr blk size s p (inl e) =
        let (t, runs, q, kept) = print_units-IsPlaced size 0 addr blk 0 s p (omega arith) in
        (t, ground (arith, runs), q, kept)
    mem_dump-IsPlaced addr blk size s p (inr (inl e)) =
        let (t, runs, q, kept) = print_units-IsPlaced size 0 addr blk 1 s p (omega arith) in
        (t, ground (arith, runs), q, kept)
    mem_dump-IsPlaced addr blk size s p (inr (inr e)) =
        let (t, runs, q, kept) = print_units-IsPlaced size 0 addr blk 2 s p (omega arith) in
        (t, ground (arith, runs), q, kept)
