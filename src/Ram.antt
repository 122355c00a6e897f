-- ===== src/Ram.antt =====
-- kernel/string.c: memcpy, memset and strnlen over a memory of bytes.
--
-- The memory gives the byte at each address; a `size_t` count is a number, and the loops recurse
-- on it.
pub mod Copy
mod Tests
use quark_os.Base.{ℕ, zero, suc, ◌+◌, ◌%◌, Bool, ◌==◌, if◌then◌else◌}

abbrev pub Ram : Type 0
Ram = ℕ → ℕ

abbrev pub poke : Ram → ℕ → ℕ → Ram
poke m p v a = if a == p then v else m a

unfoldable pub memcpy : (count dest src : ℕ) → Ram → Ram
memcpy zero dest src m = m
memcpy (suc count) dest src m = memcpy count (dest + 1) (src + 1) (poke m dest (m src))

-- The value is cut to a byte.
unfoldable pub memset : (count dest value : ℕ) → Ram → Ram
memset zero dest value m = m
memset (suc count) dest value m = memset count (dest + 1) value (poke m dest (value % 256))

unfoldable pub strnlen : (count s : ℕ) → Ram → ℕ
strnlen zero s m = 0
strnlen (suc count) s m = let rest = strnlen count (s + 1) m in if m s == 0 then 0 else suc rest
