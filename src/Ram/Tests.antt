-- ===== src/Ram/Tests.antt =====
-- Runs on a memory that holds the string "abc" at 100.
use quark_os.Base.{◌==◌, if◌then◌else◌}
use quark_os.Ram.{Ram}

abbrev abc : Ram
abc a = if a == 100 then 97 else if a == 101 then 98 else if a == 102 then 99 else 0

-- The copy overlaps the string.
