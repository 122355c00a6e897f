-- ===== src/Printf/Screen.antt =====
-- kernel/printf.c, printf: vsnprintf into `printf_buf`, and puts of what stands there.
use quark_os.Base.{
  ℕ, zero, suc, ◌+◌, ◌-◌, ◌^◌, ◌≤◌, ◌<◌, ◌≡◌, ◌∙◌, refl, ap, false, ◌&&◌, inl, inr, Option, none,
  some, List, arith, length, ◌==◌, ltb, leb, if◌then◌else◌, Bool-cases, ◌∉◌,
}
use Prim.Native.Nat.{min}
use quark_os.Console.{Console, putchar, video_mem, video_mem_size}
use quark_os.Console.Within.{IsPlaced, OffScreen, putchar-IsPlaced}
use quark_os.Printf.Format.{vsnprintf}
use quark_os.Printf.Result.{text_length, vsnprintf_lem}

-- `puts(str)`, from the memory as it then is. `none` is a run out of fuel.
unfoldable pub puts_at : (fuel str : ℕ) → Console → Option Console
puts_at zero str s = none
puts_at (suc fuel) str s =
    let rest = puts_at fuel (str + 1) (putchar (s.ram str) s) in
    if s.ram str == 0 then some s else rest

-- `sizeof(printf_buf)`
abbrev pub buf_size : ℕ
buf_size = 1024

unfoldable pub printf :
    (printf_buf : ℕ) (fmt : List ℕ) (words : ℕ → ℕ) → Console → Option (ℕ × Console)
printf printf_buf fmt words s = elim (vsnprintf printf_buf buf_size fmt words s.ram) [
  | none ↦ none
  | some (ret, ram) ↦
      let t : Console = record s { ram = ram } in
      if ltb 0 ret && ltb ret (2 ^ 31)
      then elim (puts_at buf_size printf_buf t) [ none ↦ none | some u ↦ some (ret, u) ]
      else some (ret, t)
]

-- What a call does to the console and to the memory off the screen.
abbrev Keeps : Console → Console → Type 0
Keeps s t = IsPlaced t × ((a : ℕ) → OffScreen a → t.ram a ≡ s.ram a)

here : (s : Console) (str : ℕ) → s.ram (str + 0) ≡ 0 → s.ram str ≡ 0
here s str e = ap s.ram (omega arith) ∙ e

puts_at-Keeps :
    (k fuel str : ℕ) (s : Console)
    → IsPlaced s
    → s.ram (str + k) ≡ 0
    → ((i : ℕ) → i ≤ k → OffScreen (str + i))
    → k < fuel
    → (t : Console) × (puts_at fuel str s ≡ some t) × Keeps s t
unfolding puts_at
puts_at-Keeps k zero str s p z off h = absurd (omega arith)
puts_at-Keeps zero (suc fuel) str s p z off h = (s, ground (arith, here s str z), (p, λ a o. refl))
puts_at-Keeps (suc k) (suc fuel) str s p z off h = elim (Bool-cases (s.ram str == 0)) [
  | inl e ↦ (s, ground (arith, e), (p, λ a o. refl))
  | inr ne ↦
      let (q, kept) = putchar-IsPlaced (s.ram str) s p in
      let u = putchar (s.ram str) s in
      let (t, runs, (r, also)) =
        puts_at-Keeps k fuel (str + 1) u q
          (kept (str + 1 + k) (ground (arith, off (suc k))) ∙ ap s.ram (omega arith) ∙ z)
          (λ i le. ground (arith, off (suc i))) (omega arith) in
      (t, ground (arith, ne, runs), (r, λ a o. also a o ∙ kept a o))
]

-- From a cursor on a cell of the screen or just behind the last one, with printf_buf above 0,
-- behind the video memory and ending at 2 ^ 32 or below, printf of a format without the character
-- n and arguments that together give fewer than 2 ^ 31 characters, not enough to take the pointer
-- past the end of the 32-bit memory, ends, leaves the cursor so, and changes no byte outside the
-- video memory and printf_buf.
pub printf-IsPlaced :
    (printf_buf : ℕ) (fmt : List ℕ) (words : ℕ → ℕ) (s : Console)
    → IsPlaced s
    → 0 < printf_buf
    → printf_buf + buf_size ≤ 2 ^ 32
    → video_mem + video_mem_size ≤ printf_buf
    → b'n' ∉ fmt
    → text_length printf_buf buf_size fmt words s.ram < 2 ^ 31
    → printf_buf + text_length printf_buf buf_size fmt words s.ram < 2 ^ 32
    → (ret : ℕ) × (t : Console) × (printf printf_buf fmt words s ≡ some (ret, t))
      × IsPlaced t
      × ((a : ℕ)
          → OffScreen a
          → (leb printf_buf a && ltb a (printf_buf + buf_size)) ≡ false
          → t.ram a ≡ s.ram a)
unfolding printf
printf-IsPlaced printf_buf fmt words s p pos room apart h short fits =
    let (text, ram, runs, counted, bytes) =
      vsnprintf_lem printf_buf buf_size fmt words s.ram pos (omega arith) (omega arith) room h short
        fits in
    let small : length text < 2 ^ 31 = omega (arith, counted, short) in
    let k = min (length text) (buf_size - 1) in
    let u : Console = record s { ram = ram } in
    let (t, puts, (q, kept)) =
      puts_at-Keeps k buf_size printf_buf u (record { even = p.even; bound = p.bound })
        (ground (arith, bytes (printf_buf + k))) (λ i le. ground arith) (omega arith) in
    elim (Bool-cases (ltb 0 (length text))) [
      | inl more ↦ (
        length text,
        t,
        ground (arith, runs, puts, more, small),
        q,
        λ a off out. kept a off ∙ ground (arith, bytes a),
      )
      | inr none_put ↦ (
        length text,
        u,
        ground (arith, runs, none_put),
        record { even = p.even; bound = p.bound },
        λ a off out. ground (arith, bytes a),
      )
    ]
