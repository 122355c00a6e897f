-- ===== src/Printf/Result.antt =====
-- vsnprintf: what it returns, and what it leaves in the buffer.
use quark_os.Base.{
  ℕ, zero, suc, ◌+◌, ◌-◌, ◌%◌, ◌^◌, ◌≤◌, ◌<◌, ◌≡◌, ◌∙◌, refl, ap, ◌&&◌, inl, inr, none, some, sym,
  List, [], ◌∷◌, arith, length, ◌==◌, ltb, leb, if◌then◌else◌, Bool-cases, ◌∉◌,
}
use Prim.Native.Nat.{min}
use quark_os.Ram.{Ram}
use quark_os.Ctype.{entry_at}
use quark_os.Printf.{Out, put_list}
use quark_os.Printf.Emit.{str-put_list, ram-put_list}
use quark_os.Printf.Format.{parse, round, loop, terminate, end_of, vsnprintf}
use quark_os.Printf.Suffix.{parse-Within, Within-trans}
use quark_os.Printf.Directive.{Emits, Emits-refl, Emits-trans, Emits-put, Steps, convert-Steps}

module _ (buf end : ℕ) (words : ℕ → ℕ) where
  round-Steps :
      (c : ℕ) (cs : List ℕ) (arg : ℕ) (o : Out)
      → b'n' ∉ cs
      → Steps buf end words cs o (round buf end words c (record { out = o; arg = arg; fmt = cs }))
  unfolding round
  round-Steps c cs arg o h = elim (Bool-cases (c == b'%')) [
    | inl e ↦
        let (le, no_count) = parse-Within words arg cs in
        let (text, within) = convert-Steps buf end words (parse words arg cs) o (no_count h) in
        rw e (text, Within-trans _ _ cs within (le, no_count))
    | inr e ↦ rw e (Emits-put end c o, (omega arith, λ k. k))
  ]

  loop-Emits :
      (fuel : ℕ) (fmt : List ℕ) (arg : ℕ) (o : Out)
      → length fmt ≤ fuel
      → b'n' ∉ fmt
      → (o' : Out) × (loop buf end words fuel fmt arg o ≡ some o') × Emits end o o'
  unfolding loop
  loop-Emits fuel [] arg o le h = (o, refl, Emits-refl end o)
  loop-Emits zero (c ∷ cs) arg o le h = absurd (omega arith)
  loop-Emits (suc fuel) (c ∷ cs) arg o le h =
      let (text, (shorter, no_count)) = round-Steps c cs arg o (ground arith) in
      let p = round buf end words c (record { out = o; arg = arg; fmt = cs }) in
      let (o', runs, more) =
        loop-Emits fuel p.fmt p.arg p.out (omega arith) (no_count (ground arith)) in
      (o', runs, Emits-trans end o p.out o' text more)

pub end_of-room :
    (buf size : ℕ)
    → 0 < buf
    → 0 < size
    → buf + size ≤ 2 ^ 32
    → end_of buf size ≡ (buf + size - 1, size)
unfolding end_of
end_of-room buf size bpos spos room = ground arith

pub runs_to :
    (buf size end : ℕ) (fmt : List ℕ) (words : ℕ → ℕ) (ram : Ram) (o : Out)
    → size < 2 ^ 31
    → end_of buf size ≡ (end, size)
    → loop buf end words (length fmt) fmt 0 (record { ram = ram; str = buf }) ≡ some o
    → vsnprintf buf size fmt words ram ≡ some (terminate buf size end o)
unfolding vsnprintf
runs_to buf size end fmt words ram o small e runs = ground (arith, e, runs)

-- The characters that a format and its arguments give, those that the buffer has no room for
-- included.
unfoldable pub text_length : (buf size : ℕ) (fmt : List ℕ) (words : ℕ → ℕ) → Ram → ℕ
text_length buf size fmt words ram =
    let start : Out = record { ram = ram; str = buf } in
    elim (loop buf (end_of buf size).0 words (length fmt) fmt 0 start) [
      | none ↦ 0
      | some o ↦ o.str - buf
    ]

pub counted_to :
    (buf size : ℕ) (fmt : List ℕ) (words : ℕ → ℕ) (ram : Ram) (text : List ℕ)
    → loop buf (end_of buf size).0 words (length fmt) fmt 0 (record { ram = ram; str = buf })
      ≡ some (put_list (end_of buf size).0 text (record { ram = ram; str = buf }))
    → text_length buf size fmt words ram ≡ length text
unfolding text_length
counted_to buf size fmt words ram text runs =
    let o : Out = record { ram = ram; str = buf } in
    ground (arith, runs, str-put_list (end_of buf size).0 text o)

-- The terminating 0 behind a text.
pub terminate_lem :
    (buf size : ℕ) (text : List ℕ) (ram : Ram) (a : ℕ)
    → 0 < size
    → buf + size ≤ 2 ^ 32
    → length text < 2 ^ 31
    → buf + length text < 2 ^ 32
    → let end = buf + size - 1 in
      let o = put_list end text (record { ram = ram; str = buf }) in
      let stop = buf + min (length text) (size - 1) in
      ((terminate buf size end o).0 ≡ length text)
      × ((terminate buf size end o).1 a ≡ (
          if leb buf a && ltb a stop
          then entry_at text (a - buf) % 256
          else if a == stop
          then 0
          else ram a))
unfolding terminate
terminate_lem buf size text ram a pos room short fits =
    let end = buf + size - 1 in
    let o : Out = record { ram = ram; str = buf } in
    (
      omega (arith, str-put_list end text o),
      ground (arith, str-put_list end text o, ram-put_list end text o a (omega (arith, fits))),
    )

-- For a buffer at an address above 0 of 0 < size < 2 ^ 31 bytes that ends at 2 ^ 32 or below, and
-- a format without the character n and arguments that together give fewer than 2 ^ 31 characters,
-- text_length of them, not enough to take the pointer past the end of the 32-bit memory,
-- vsnprintf ends and returns that number, the length of a text; afterwards the buffer holds the
-- first bytes of that text, size - 1 at most, and a 0 behind them, and every other byte of the
-- memory is as before.
pub vsnprintf_lem :
    (buf size : ℕ) (fmt : List ℕ) (words : ℕ → ℕ) (ram : Ram)
    → 0 < buf
    → 0 < size
    → size < 2 ^ 31
    → buf + size ≤ 2 ^ 32
    → b'n' ∉ fmt
    → text_length buf size fmt words ram < 2 ^ 31
    → buf + text_length buf size fmt words ram < 2 ^ 32
    → (text : List ℕ) × (after : Ram) × (vsnprintf buf size fmt words ram
        ≡ some (length text, after))
      × (length text ≡ text_length buf size fmt words ram)
      × ((a : ℕ)
          → let stop = buf + min (length text) (size - 1) in
            after a ≡ (
              if leb buf a && ltb a stop
              then entry_at text (a - buf) % 256
              else if a == stop
              then 0
              else ram a))
vsnprintf_lem buf size fmt words ram bpos spos small room h short fits =
    let end = buf + size - 1 in
    let o : Out = record { ram = ram; str = buf } in
    let (o', runs, (text, e)) = loop-Emits buf end words (length fmt) fmt 0 o (omega arith) h in
    let t = terminate buf size end (put_list end text o) in
    let at = end_of-room buf size bpos spos room in
    let counted : text_length buf size fmt words ram ≡ length text =
      counted_to buf size fmt words ram text (rw at (runs ∙ ap some e)) in
    let same = λ (a : ℕ).
      terminate_lem buf size text ram a spos room (omega (arith, counted, short))
        (omega (arith, counted, fits)) in
    (
      text,
      t.1,
      runs_to buf size end fmt words ram o' small at runs
          ∙ ap (λ (q : Out). some (terminate buf size end q)) e
          ∙ ap (λ (n : ℕ). some (n, t.1)) (same 0).0,
      sym counted,
      λ a. (same a).1,
    )
