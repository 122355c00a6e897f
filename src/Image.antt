-- ===== src/Image.antt =====
-- tools/mkimage.c: the image of the floppy disk.
--
-- Files are the lists of their bytes, and so is what has been written. How much a read of the
-- kernel gives is up to the system: `read_size` says it, from the number of bytes that are left.
-- The loader, of at most 512 bytes, is read at once, files open, and writes succeed. `size_t` has
-- 64 bits.
pub mod Layout
mod Tests
use quark_os.Base.{
  ℕ, zero, suc, ◌+◌, ◌-◌, ◌*◌, ◌^◌, ◌%◌, List, [], ◌∷◌, ◌++◌, Option, none, some, length, ◌==◌, ltb,
  if◌then◌else◌,
}

abbrev pub disk_size : ℕ
disk_size = 2880 * 512

abbrev pub take : ℕ → List ℕ → List ℕ
take zero xs = []
take (suc n) [] = []
take (suc n) (x ∷ xs) = x ∷ take n xs

abbrev pub drop : ℕ → List ℕ → List ℕ
drop zero xs = xs
drop (suc n) [] = []
drop (suc n) (x ∷ xs) = drop n xs

unfoldable pub zeros : ℕ → List ℕ
zeros zero = []
zeros (suc n) = 0 ∷ zeros n

-- `failed` is the exit status -1, `out_of_fuel` a run that has not ended.
pub data Outcome : Type 0 where
  failed : Outcome
  out_of_fuel : Outcome
  image : List ℕ → Outcome

-- `while (file_size)`: the kernel's bytes that are left, and what is written.
unfoldable pub copy : (read_size : ℕ → ℕ) (fuel file_size : ℕ) (left out : List ℕ) → Option (List ℕ)
copy read_size zero file_size left out = none
copy read_size (suc fuel) file_size left out =
    let n = read_size (length left) in
    let rest =
      copy read_size fuel ((file_size + 2 ^ 64 - n) % 2 ^ 64) (drop n left) (out ++ take n left) in
    if file_size == 0 then some out else rest

-- `while (remain_size)`
unfoldable pub fill : (fuel remain_size : ℕ) (out : List ℕ) → Option (List ℕ)
fill zero remain_size out = none
fill (suc fuel) remain_size out =
    let size = if ltb remain_size 1024 then remain_size else 1024 in
    let rest = fill fuel (remain_size - size) (out ++ zeros size) in
    if remain_size == 0 then some out else rest

unfoldable pub mkimage : (read_size : ℕ → ℕ) (fuel : ℕ) (loader kernel : List ℕ) → Outcome
mkimage read_size fuel loader kernel =
    if ltb 512 (length loader)
    then Outcome.failed
    else if length loader == 0
    then Outcome.failed
    else (let boot = loader ++ zeros (512 - length loader) in
        elim (copy read_size fuel (length kernel) kernel boot) [
          | none ↦ Outcome.out_of_fuel
          | some out ↦ elim (fill fuel ((disk_size + 2 ^ 64 - 512 - length kernel) % 2 ^ 64) out) [
            | none ↦ Outcome.out_of_fuel
            | some all ↦ Outcome.image all
          ]
        ])
