-- ===== src/Printf/Suffix.antt =====
-- What the parsing of a directive leaves of the format.
use quark_os.Base.{
  ℕ, ◌+◌, ◌-◌, ◌*◌, ◌≤◌, ◌≡◌, refl, Bool, true, false, List, [], ◌∷◌, arith, length, ◌==◌,
  if◌then◌else◌, ◌∉◌,
}
use quark_os.Printf.{Flags, no_flags, skip_atoi}
use quark_os.Printf.Format.{
  first, rest_of, set_flag, parse_flags, Spec, parse_width, parse_precision, parse_qualifier, parse,
}

-- `cs` is no longer than `ds`, and has no `n` where that has none.
abbrev pub Within : List ℕ → List ℕ → Type 0
Within cs ds = (length cs ≤ length ds) × (b'n' ∉ ds → b'n' ∉ cs)

pub rest_of-Within : (cs : List ℕ) → Within (rest_of cs) cs
rest_of-Within [] = (omega arith, λ h. h)
rest_of-Within (c ∷ cs) = (omega arith, λ h. ground arith)

pub Within-trans : (a b c : List ℕ) → Within a b → Within b c → Within a c
Within-trans a b c (p, f) (q, g) = (omega arith, λ h. f (g h))

Within-refl : (cs : List ℕ) → Within cs cs
Within-refl cs = (omega arith, λ h. h)

Within-if :
    (b : Bool) (x y cs : List ℕ) → Within x cs → Within y cs → Within (if b then x else y) cs
Within-if true x y cs p q = p
Within-if false x y cs p q = q

pub first_ne : (cs : List ℕ) → b'n' ∉ cs → (first cs == b'n') ≡ false
first_ne [] h = refl
first_ne (c ∷ cs) h = ground arith

parse_flags-Within : (f : Flags) (cs : List ℕ) → Within (parse_flags f cs).1 cs
unfolding parse_flags
parse_flags-Within f [] = Within-refl []
parse_flags-Within f (c ∷ cs) =
    let (p, n) = parse_flags-Within (set_flag c f) cs in (ground arith, λ h. ground arith)

skip_atoi-Within : (i : ℕ) (cs : List ℕ) → Within (skip_atoi i cs).1 cs
unfolding skip_atoi
skip_atoi-Within i [] = Within-refl []
skip_atoi-Within i (c ∷ cs) =
    let (p, n) = skip_atoi-Within (i * 10 + c - b'0') cs in (ground arith, λ h. ground arith)

parse_width-Within : (words : ℕ → ℕ) (s : Spec) → Within (parse_width words s).fmt s.fmt
unfolding parse_width
parse_width-Within words s =
    let (p, n) = skip_atoi-Within 0 s.fmt in
    let (q, m) = rest_of-Within s.fmt in (ground arith, λ h. ground arith)

parse_precision-Within : (words : ℕ → ℕ) (s : Spec) → Within (parse_precision words s).fmt s.fmt
unfolding parse_precision
parse_precision-Within words s =
    let cs = rest_of s.fmt in
    let (q, m) = rest_of-Within s.fmt in
    let (p, n) = Within-trans _ cs s.fmt (skip_atoi-Within 0 cs) (rest_of-Within s.fmt) in
    let (r, k) = Within-trans _ cs s.fmt (rest_of-Within cs) (rest_of-Within s.fmt) in
    (ground arith, λ h. ground arith)

parse_qualifier-Within : (s : Spec) → Within (parse_qualifier s).fmt s.fmt
unfolding parse_qualifier
parse_qualifier-Within s =
    let cs = rest_of s.fmt in
    let (q, m) = rest_of-Within s.fmt in
    let (r, k) = Within-trans _ cs s.fmt (rest_of-Within cs) (rest_of-Within s.fmt) in
    (ground arith, λ h. ground arith)

pub parse-Within : (words : ℕ → ℕ) (arg : ℕ) (cs : List ℕ) → Within (parse words arg cs).fmt cs
unfolding parse
parse-Within words arg cs = Within-trans _ _ cs (parse_qualifier-Within _) (
    Within-trans _ _ cs (parse_precision-Within words _)
      (Within-trans _ _ cs (parse_width-Within words _) (parse_flags-Within no_flags cs)))
