-- ===== src/Printf/Plain.antt =====
-- vsnprintf of a format without directives, and of a size out of range.
use quark_os.Base.{
  ℕ, ◌+◌, ◌-◌, ◌%◌, ◌^◌, ◌≤◌, ◌<◌, ◌≡◌, ◌∙◌, refl, ap, false, ◌&&◌, some, List, [], ◌∷◌, arith,
  length, ◌==◌, ltb, leb, if◌then◌else◌, ◌∉◌,
}
use Prim.Native.Nat.{min}
use quark_os.Ctype.{entry_at}
use quark_os.Ram.{Ram}
use quark_os.Printf.{Out, put, put_list}
use quark_os.Printf.Format.{Print, round, loop, terminate, vsnprintf}
use quark_os.Printf.Result.{end_of-room, runs_to, terminate_lem}

module _ (buf end : ℕ) (words : ℕ → ℕ) where
  plain_round :
      (c : ℕ) (cs : List ℕ) (arg : ℕ) (o : Out)
      → (c == b'%') ≡ false
      → round buf end words c (record { out = o; arg = arg; fmt = cs })
        ≡ record { out = put end c o; arg = arg; fmt = cs }
  unfolding round
  plain_round c cs arg o h = rw h refl

  pub plain_loop :
      (fmt : List ℕ) (arg : ℕ) (o : Out)
      → b'%' ∉ fmt
      → loop buf end words (length fmt) fmt arg o ≡ some (put_list end fmt o)
  unfolding loop put_list
  plain_loop [] arg o h = refl
  plain_loop (c ∷ cs) arg o h =
      let one = plain_round c cs arg o (ground arith) in
      ap (λ (p : Print). loop buf end words (length cs) p.fmt p.arg p.out) one
      ∙ plain_loop cs arg (put end c o) (ground arith)

-- For a buffer at an address above 0 of 0 < size < 2 ^ 31 bytes that ends at 2 ^ 32 or below,
-- vsnprintf of a format without %, of fewer than 2 ^ 31 characters and ending below 2 ^ 32 when put at the
-- buffer, returns the length of the format; the buffer then holds the
-- first bytes of the format, size - 1 at most, and a 0 behind them, and every other byte is as
-- before.
pub vsnprintf-plain :
    (buf size : ℕ) (fmt : List ℕ) (words : ℕ → ℕ) (ram : Ram)
    → 0 < buf
    → 0 < size
    → size < 2 ^ 31
    → buf + size ≤ 2 ^ 32
    → b'%' ∉ fmt
    → length fmt < 2 ^ 31
    → buf + length fmt < 2 ^ 32
    → (after : Ram) × (vsnprintf buf size fmt words ram ≡ some (length fmt, after))
      × ((a : ℕ)
          → let stop = buf + min (length fmt) (size - 1) in
            after a ≡ (
              if leb buf a && ltb a stop
              then entry_at fmt (a - buf) % 256
              else if a == stop
              then 0
              else ram a))
vsnprintf-plain buf size fmt words ram bpos spos small room h short fits =
    let end = buf + size - 1 in
    let o : Out = record { ram = ram; str = buf } in
    let t = terminate buf size end (put_list end fmt o) in
    let same = λ (a : ℕ). terminate_lem buf size fmt ram a spos room short fits in
    (
      t.1,
      runs_to buf size end fmt words ram _ small (end_of-room buf size bpos spos room)
            (plain_loop buf end words fmt 0 o h)
          ∙ ap (λ (n : ℕ). some (n, t.1)) (same 0).0,
      λ a. (same a).1,
    )

pub vsnprintf-negative :
    (buf size : ℕ) (fmt : List ℕ) (words : ℕ → ℕ) (ram : Ram)
    → 2 ^ 31 ≤ size
    → vsnprintf buf size fmt words ram ≡ some (0, ram)
unfolding vsnprintf
vsnprintf-negative buf size fmt words ram h = ground arith
