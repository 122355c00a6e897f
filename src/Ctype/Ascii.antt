-- ===== src/Ctype/Ascii.antt =====
-- The classes of the ASCII characters.
use quark_os.Base.{
  ℕ, ◌<◌, ◌≡◌, refl, Bool, true, false, not, ◌&&◌, ◌||◌, sym, ◌==◌, leb, ltb, all_below, in_table,
}
use quark_os.Ctype.{
  ctype, entry_at, mask_of, isalnum, isalpha, iscntrl, isdigit, isgraph, islower, isprint, ispunct,
  isspace, isupper, isxdigit,
}

abbrev pub between : (lo hi c : ℕ) → Bool
between lo hi c = leb lo c && leb c hi

abbrev pub same : Bool → Bool → Bool
same true b = b
same false b = not b

same_lem : (a b : Bool) → same a b ≡ true → a ≡ b
same_lem true b e = sym e
same_lem false true e = cc
same_lem false false e = refl

-- The classes by ranges of characters.
abbrev pub digits : ℕ → Bool
digits c = between b'0' b'9' c

abbrev pub uppers : ℕ → Bool
uppers c = between b'A' b'Z' c

abbrev pub lowers : ℕ → Bool
lowers c = between b'a' b'z' c

abbrev pub hexes : ℕ → Bool
hexes c = digits c || between b'a' b'f' c || between b'A' b'F' c

-- Two tests that agree on the table of the characters agree.
pub by_table :
    (bound : ℕ) (p q : ℕ → Bool)
    → all_below bound (λ c. same (p c) (q c)) ≡ true
    → (c : ℕ) → c < bound
    → p c ≡ q c
by_table bound p q table c h =
    same_lem (p c) (q c) (in_table bound c (λ c. same (p c) (q c)) h table)

abbrev pub alnums : ℕ → Bool
alnums c = uppers c || lowers c || digits c

-- For each of the 128 ASCII characters the tests on the table agree with the ranges of the
-- characters: digits, upper case, lower case, hexadecimal digits, letters, letters or digits,
-- white space, control characters, printable ones, graphic ones and punctuation.
pub classes-ranges :
    (c : ℕ)
    → c < 128
    → (isdigit c ≡ digits c)
      × (isupper c ≡ uppers c)
      × (islower c ≡ lowers c)
      × (isxdigit c ≡ hexes c)
      × (isalpha c ≡ (uppers c || lowers c))
      × (isalnum c ≡ alnums c)
      × (isspace c ≡ (c == 32 || between 9 13 c))
      × (iscntrl c ≡ (ltb c 32 || c == 127))
      × (isprint c ≡ between 32 126 c)
      × (isgraph c ≡ between 33 126 c)
      × (ispunct c ≡ (between 33 126 c && not (alnums c)))
unfolding all_below isalnum isalpha iscntrl isdigit isgraph islower isprint ispunct isspace isupper
    isxdigit mask_of entry_at ctype
classes-ranges c h = (
  by_table 128 isdigit digits refl c h,
  by_table 128 isupper uppers refl c h,
  by_table 128 islower lowers refl c h,
  by_table 128 isxdigit hexes refl c h,
  by_table 128 isalpha (λ c. uppers c || lowers c) refl c h,
  by_table 128 isalnum alnums refl c h,
  by_table 128 isspace (λ c. c == 32 || between 9 13 c) refl c h,
  by_table 128 iscntrl (λ c. ltb c 32 || c == 127) refl c h,
  by_table 128 isprint (between 32 126) refl c h,
  by_table 128 isgraph (between 33 126) refl c h,
  by_table 128 ispunct (λ c. between 33 126 c && not (alnums c)) refl c h,
)

-- Of all 256 bytes the digits are the ten of ASCII.
pub isdigit_lem : (c : ℕ) → c < 256 → isdigit c ≡ digits c
unfolding all_below isdigit mask_of entry_at ctype
isdigit_lem = by_table 256 isdigit digits refl
