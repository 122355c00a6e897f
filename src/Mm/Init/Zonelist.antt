-- ===== src/Mm/Init/Zonelist.antt =====
-- The zonelist that zone_init leaves, and what alloc_pages finds there.
use quark_os.Base.{ℕ, zero, suc, ◌+◌, ◌-◌, ◌≤◌, ◌<◌, ◌≡◌, ◌∙◌, refl, ap, Option, none, some, arith}
use quark_os.Mm.{Layout, Mm, max_order, zone_normal, find_blk, rmqueue, alloc_from, alloc_pages}
use quark_os.Mm.Init.{zone_init}

find_blk-none :
    (left curr zone : ℕ) (s : Mm)
    → ((o : ℕ) → curr ≤ o → o < curr + left → s.nr_free zone o ≡ 0)
    → find_blk left curr zone s ≡ none
unfolding find_blk
find_blk-none zero curr zone s e = refl
find_blk-none (suc left) curr zone s e = ground (
  arith,
  e curr,
  find_blk-none left (curr + 1) zone s (λ o lo hi. e o (omega arith) (omega arith)),
)

zone_init-zonelist :
    (l : Layout) (s z : Mm)
    → zone_init l s ≡ some (tt, z)
    → (z.zonelist 0 ≡ some zone_normal) × (z.zonelist 1 ≡ none)
unfolding zone_init
zone_init-zonelist l s z e = (ground arith, ground arith)

one_zone :
    (l : Layout) (order : ℕ) (s : Mm)
    → s.zonelist 0 ≡ some zone_normal
    → s.zonelist 1 ≡ none
    → find_blk (max_order + 1 - order) order zone_normal s ≡ none
    → alloc_from l 4 0 order s ≡ some (none, s)
unfolding alloc_from rmqueue
one_zone l order s first second empty = ground (arith, first, second, empty)

-- With the zonelist that zone_init leaves, alloc_pages returns NULL and changes nothing when the
-- normal zone counts no free block, whatever the DMA zone has.
pub alloc_pages-zone_init :
    (l : Layout) (order : ℕ) (s z t : Mm)
    → zone_init l s ≡ some (tt, z)
    → t.zonelist ≡ z.zonelist
    → ((o : ℕ) → o ≤ max_order → t.nr_free zone_normal o ≡ 0)
    → alloc_pages l order t ≡ some (none, t)
unfolding alloc_pages
alloc_pages-zone_init l order s z t e same empty =
    let (first, second) = zone_init-zonelist l s z e in
    let left = max_order + 1 - order in
    let none_found = find_blk-none left order zone_normal t λ o lo hi. empty o (omega arith) in
    ground (
      arith,
      one_zone l order t (ap (λ (f : ℕ → Option ℕ). f 0) same ∙ first)
          (ap (λ (f : ℕ → Option ℕ). f 1) same ∙ second) none_found,
    )
