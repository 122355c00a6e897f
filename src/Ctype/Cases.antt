-- ===== src/Ctype/Cases.antt =====
-- tolower and toupper.
use quark_os.Base.{
  ℕ, ◌<◌, ◌≡◌, refl, Bool, true, false, not, ◌&&◌, ◌||◌, arith, ◌==◌, all_below, in_table,
}
use quark_os.Ctype.{ctype, entry_at, mask_of, isupper, islower, tolower, toupper}

-- `a` if it holds implies `b`.
abbrev implies : Bool → Bool → Bool
implies a b = not a || b

implies_lem : (a b : Bool) → implies a b ≡ true → a ≡ true → b ≡ true
implies_lem a b e h = ground arith

up_down :
    all_below 256 (λ c. implies (isupper c) (toupper (tolower c) == c && islower (tolower c)))
    ≡ true
unfolding all_below isupper islower tolower toupper mask_of entry_at ctype
up_down = refl

no_upper : all_below 256 (λ c. not (isupper (tolower c))) ≡ true
unfolding all_below isupper tolower mask_of entry_at ctype
no_upper = refl

-- For each byte that isupper accepts, toupper of tolower is the byte again, and tolower of it is
-- lower case and not upper case.
pub toupper-tolower :
    (c : ℕ)
    → c < 256
    → isupper c ≡ true
    → (toupper (tolower c) ≡ c) × (islower (tolower c) ≡ true) × (isupper (tolower c) ≡ false)
toupper-tolower c h u =
    let both =
      implies_lem (isupper c) _
        (in_table 256 c (λ c. implies (isupper c) (toupper (tolower c) == c && islower (tolower c)))
          h up_down)
        u in
    (
      ground (arith, both),
      ground (arith, both),
      ground (arith, in_table 256 c (λ c. not (isupper (tolower c))) h no_upper),
    )
