-- ===== src/Ctype.antt =====
-- kernel/ctype.c and include/ctype.h: the classes of characters.
--
-- A `char` is its byte. The bits of a class are distinct powers of two, so that `|` of two is a sum.
pub mod Table
pub mod Ascii
pub mod Cases
mod Tests
unfoldable pub use Table.*
use quark_os.Base.{ℕ, zero, suc, ◌+◌, ◌-◌, ◌%◌, Bool, not, List, [], ◌∷◌, ◌==◌, leb, if◌then◌else◌}
use Prim.Native.Nat.{bit_and}

-- What stands behind the table is not read: an index is a byte.
unfoldable pub entry_at : List ℕ → ℕ → ℕ
entry_at [] i = 0
entry_at (m ∷ ms) zero = m
entry_at (m ∷ ms) (suc i) = entry_at ms i

-- `__ismask(x)`
unfoldable pub mask_of : ℕ → ℕ
mask_of c = entry_at ctype (c % 256)

abbrev pub has_class : ℕ → ℕ → Bool
has_class c classes = not (bit_and (mask_of c) classes == 0)

unfoldable pub isalnum : ℕ → Bool
isalnum c = has_class c (upper + lower + digit)

unfoldable pub isalpha : ℕ → Bool
isalpha c = has_class c (upper + lower)

unfoldable pub iscntrl : ℕ → Bool
iscntrl c = has_class c (cntrl)

unfoldable pub isdigit : ℕ → Bool
isdigit c = has_class c (digit)

unfoldable pub isgraph : ℕ → Bool
isgraph c = has_class c (punct + upper + lower + digit)

unfoldable pub islower : ℕ → Bool
islower c = has_class c (lower)

unfoldable pub isprint : ℕ → Bool
isprint c = has_class c (punct + upper + lower + digit + hard_space)

unfoldable pub ispunct : ℕ → Bool
ispunct c = has_class c (punct)

unfoldable pub isspace : ℕ → Bool
isspace c = has_class c (space)

unfoldable pub isupper : ℕ → Bool
isupper c = has_class c (upper)

unfoldable pub isxdigit : ℕ → Bool
isxdigit c = has_class c (digit + hex)

unfoldable pub isascii : ℕ → Bool
isascii c = leb (c % 256) 0x7f

unfoldable pub toascii : ℕ → ℕ
toascii c = bit_and (c % 256) 0x7f

-- `c -= 'A' - 'a'` on an `unsigned char`.
unfoldable pub tolower : ℕ → ℕ
tolower c = if isupper c then (c + 32) % 256 else c

unfoldable pub toupper : ℕ → ℕ
toupper c = if islower c then (c + 256 - 32) % 256 else c
