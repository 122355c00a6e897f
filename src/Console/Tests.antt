-- ===== src/Console/Tests.antt =====
-- Runs on a full screen whose cursor stands on the last cell, and at its start.
use quark_os.Base.{ℕ, ◌+◌, ◌-◌, ◌%◌, ◌≡◌, refl, List, [], ◌∷◌, arith}
use quark_os.Console.{Console, putchar, puts, video_mem}
use quark_os.Console.Within.{IsPlaced, OffScreen, puts-IsPlaced, putchar-cell}

abbrev full : Console
full = record { ram = λ a. a % 256; stdout_pt = 3998 }

full-IsPlaced : IsPlaced full
full-IsPlaced = record { even = refl; bound = omega arith }

abbrev message : List ℕ
message = 79 ∷ 75 ∷ 10 ∷ []

puts-IsPlaced_example :
    IsPlaced (puts message full) × ((a : ℕ) → OffScreen a → (puts message full).ram a ≡ full.ram a)
puts-IsPlaced_example = puts-IsPlaced message full full-IsPlaced

putchar-cell_example :
    ((putchar 200 full).ram (video_mem + ((putchar 200 full).stdout_pt - 2)) ≡ 200)
    × ((putchar 200 full).ram (video_mem + ((putchar 200 full).stdout_pt - 1)) ≡ 6)
putchar-cell_example = putchar-cell 200 full full-IsPlaced (omega arith) refl
