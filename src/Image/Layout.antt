-- ===== src/Image/Layout.antt =====
-- What the image holds.
use mathlib.Core.List.{append_assoc, append-nil}
use quark_os.Base.{
  ℕ, zero, suc, ◌+◌, ◌-◌, ◌^◌, ◌%◌, ◌≤◌, ◌<◌, ◌≡◌, ◌∙◌, ap, sym, refl, List, [], ◌∷◌, ◌++◌, some,
  length, arith, ◌==◌, ==_iff, ltb, if◌then◌else◌, Bool-cases, inl, inr,
}
use quark_os.Image.{disk_size, take, drop, zeros, Outcome, copy, fill, mkimage}

take-drop : (n : ℕ) (xs : List ℕ) → take n xs ++ drop n xs ≡ xs
take-drop zero xs = refl
take-drop (suc n) [] = refl
take-drop (suc n) (x ∷ xs) = ap (λ (ys : List ℕ). x ∷ ys) (take-drop n xs)

length-drop : (n : ℕ) (xs : List ℕ) → length (drop n xs) ≡ length xs - n
length-drop zero xs = omega arith
length-drop (suc n) [] = omega arith
length-drop (suc n) (x ∷ xs) = omega (arith, length-drop n xs)

zeros-add : (m n : ℕ) → zeros m ++ zeros n ≡ zeros (m + n)
unfolding zeros
zeros-add zero n = let e : n ≡ 0 + n = omega arith in ap zeros e
zeros-add (suc m) n =
    let e : suc (m + n) ≡ suc m + n = omega arith in
    ap (λ (ys : List ℕ). 0 ∷ ys) (zeros-add m n) ∙ ap zeros e

-- A read gives at least one of the bytes that are left, and at most the buffer's 1024.
abbrev pub Reads : (ℕ → ℕ) → Type 0
Reads read_size =
    (left : ℕ) → 0 < left → (0 < read_size left) × (read_size left ≤ left) × (read_size left ≤ 1024)

no_bytes : (xs : List ℕ) → length xs ≡ 0 → xs ≡ []
no_bytes [] e = refl
no_bytes (x ∷ xs) e = absurd (omega (arith, e))

copy-append :
    (read_size : ℕ → ℕ) (fuel : ℕ) (left out : List ℕ)
    → Reads read_size
    → length left < fuel
    → length left < 2 ^ 64
    → copy read_size fuel (length left) left out ≡ some (out ++ left)
unfolding copy
copy-append read_size zero left out reads less small = absurd (omega arith)
copy-append read_size (suc fuel) left out reads less small = elim (Bool-cases (length left == 0)) [
  | inl e ↦ rw e (
      ap (λ (ys : List ℕ). some ys)
        (sym (ap (λ (ys : List ℕ). out ++ ys) (no_bytes left ((==_iff _ _).0 e)) ∙ append-nil out)))
  | inr e ↦
      let n = read_size (length left) in
      let (some_read, most, _) = reads (length left) (ground (arith, e)) in
      let size : (length left + 2 ^ 64 - n) % 2 ^ 64 ≡ length (drop n left) =
        omega (arith, length-drop n left, some_read, most) in
      rw e (
        ap (λ (m : ℕ). copy read_size fuel m (drop n left) (out ++ take n left)) size
        ∙ copy-append read_size fuel (drop n left) (out ++ take n left) reads
            (omega (arith, length-drop n left, some_read, most)) (omega (arith, length-drop n left))
        ∙ ap (λ (ys : List ℕ). some ys)
            (append_assoc out (take n left) (drop n left)
              ∙ ap (λ (ys : List ℕ). out ++ ys) (take-drop n left)))
]

fill-zeros : (fuel n : ℕ) (out : List ℕ) → n < fuel → fill fuel n out ≡ some (out ++ zeros n)
unfolding fill zeros
fill-zeros zero n out less = absurd (omega arith)
fill-zeros (suc fuel) n out less = elim (Bool-cases (n == 0)) [
  | inl e ↦ rw e (
      ap (λ (ys : List ℕ). some ys)
        (sym (ap (λ (m : ℕ). out ++ zeros m) ((==_iff _ _).0 e) ∙ append-nil out)))
  | inr e ↦
      let size = if ltb n 1024 then n else 1024 in
      let (least, most) : (0 < size) × (size ≤ n) = (ground (arith, e), ground arith) in
      let whole : size + (n - size) ≡ n = omega (arith, most) in
      rw e (
        fill-zeros fuel (n - size) (out ++ zeros size) (omega (arith, least, most))
        ∙ ap (λ (ys : List ℕ). some ys)
            (append_assoc out (zeros size) (zeros (n - size))
              ∙ ap (λ (ys : List ℕ). out ++ ys) (zeros-add size (n - size) ∙ ap zeros whole)))
]

-- For a loader of 1 to 512 bytes, a kernel that leaves room for 512 bytes on the disk, and reads
-- that give at least one of the bytes left and at most 1024, mkimage ends, within one round more
-- than the disk has bytes for each loop, and the image is the loader, zeros up to 512 bytes, the
-- kernel, and zeros up to the size of the disk.
pub mkimage_lem :
    (read_size : ℕ → ℕ) (fuel : ℕ) (loader kernel : List ℕ)
    → Reads read_size
    → 0 < length loader
    → length loader ≤ 512
    → length kernel + 512 ≤ disk_size
    → disk_size < fuel
    → mkimage read_size fuel loader kernel
      ≡ Outcome.image (
          ((loader ++ zeros (512 - length loader)) ++ kernel)
          ++ zeros (disk_size - 512 - length kernel))
unfolding mkimage
mkimage_lem read_size fuel loader kernel reads pos fits room enough =
    let boot = loader ++ zeros (512 - length loader) in
    let copied = copy-append read_size fuel kernel boot reads (omega arith) (omega arith) in
    let e : (disk_size + 2 ^ 64 - 512 - length kernel) % 2 ^ 64 ≡ disk_size - 512 - length kernel =
      omega arith in
    let filled = fill-zeros fuel (disk_size - 512 - length kernel) (boot ++ kernel) (omega arith) in
    ground (arith, copied, e, filled)
