-- ===== src/Ram/Copy.antt =====
-- What memcpy, memset and strnlen do to each address.
use quark_os.Base.{
  ℕ, zero, suc, ◌+◌, ◌-◌, ◌%◌, ◌≤◌, ◌<◌, ◌≡◌, ◌≢◌, refl, ◌⊎◌, inl, inr, ◌&&◌, arith, ◌==◌, ltb, leb,
  if◌then◌else◌, Bool-cases,
}
use quark_os.Ram.{Ram, poke, memcpy, memset, strnlen}

-- memcpy to an address at or below the source, or behind the end of the source, leaves the
-- source's old bytes at the destination, and changes no other byte.
pub memcpy_lem :
    (count dest src : ℕ) (m : Ram) (a : ℕ)
    → (dest ≤ src) ⊎ (src + count ≤ dest)
    → memcpy count dest src m a
      ≡ (if leb dest a && ltb a (dest + count) then m (src + (a - dest)) else m a)
unfolding memcpy
memcpy_lem zero dest src m a apart = ground arith
memcpy_lem (suc count) dest src m a apart =
    ground (arith, memcpy_lem count (dest + 1) (src + 1) (poke m dest (m src)) a)

-- memset leaves the low byte of the value at each address of the range and changes no other byte.
pub memset_lem :
    (count dest value : ℕ) (m : Ram) (a : ℕ)
    → memset count dest value m a
      ≡ (if leb dest a && ltb a (dest + count) then value % 256 else m a)
unfolding memset
memset_lem zero dest value m a = ground arith
memset_lem (suc count) dest value m a =
    ground (arith, memset_lem count (dest + 1) value (poke m dest (value % 256)) a)

-- strnlen returns at most the count, no byte before the returned length is 0, and the length is
-- the count or the byte there is 0.
pub strnlen_lem :
    (count s : ℕ) (m : Ram)
    → (strnlen count s m ≤ count)
      × ((i : ℕ) → i < strnlen count s m → m (s + i) ≢ 0)
      × ((strnlen count s m ≡ count) ⊎ (m (s + strnlen count s m) ≡ 0))
unfolding strnlen
strnlen_lem zero s m = (omega arith, λ i h. absurd (omega arith), inl refl)
strnlen_lem (suc count) s m = elim (Bool-cases (m s == 0)) [
  | inl e ↦ rw e (omega arith, λ i h. absurd (omega arith), inr (ground arith))
  | inr ne ↦
      let (le, full, stop) = strnlen_lem count (s + 1) m in
      rw ne (omega arith, λ i h. ground (arith, full (i - 1)), ground (arith, stop))
]
