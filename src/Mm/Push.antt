-- ===== src/Mm/Push.antt =====
-- A block put in front of a free list, where all the free lists are initialised.
pub use quark_os.Mm.Listed.{put, length-blocks}
use quark_os.Base.{ℕ, ◌-◌, ◌^◌, ◌≤◌, ◌<◌, ◌≡◌, refl, Bool, true, some, ◌∷◌, ◌∉◌}
use quark_os.ListHead.{Heap, list_add}
use quark_os.ListHead.Ring.{Ring-IsNode, SameOutside}
use quark_os.Base.{arith}
use quark_os.Mm.{Layout, lru, area, max_order, Mm}
use quark_os.Mm.Lists.{IsLayout, Blocks, lrus, HasBlocks, AreDisjoint}
use quark_os.Mm.Listed.{HasListed, relisted, counted_up, list_add-HasListed}

-- All lists are initialised.
abbrev pub all_listed : (zone order : ℕ) → Bool
all_listed zone order = true

-- The state once the list heads are linked and the block is counted.
abbrev pub pushed : Mm → Heap → (zone order : ℕ) → Mm
pushed s h zone order = relisted s h (counted_up s.nr_free zone order)

pub HasBlocks-HasListed :
    {l : Layout} {total : ℕ} {s : Mm} {b : Blocks}
    → HasBlocks l total s b
    → HasListed l total all_listed s b
HasBlocks-HasListed {l} f = record {
  ring = λ z o hz ho i. f.ring z o hz ho;
  counted = λ z o hz ho i. f.counted z o hz ho;
  nodes = f.nodes;
  heads = λ z o hz ho. Ring-IsNode _ (area l z o) (f.ring z o hz ho) (ground arith);
  cleared = λ z o hz ho out. absurd (ground arith);
}

pub HasListed-HasBlocks :
    {l : Layout} {total : ℕ} {listed : (zone order : ℕ) → Bool} {s : Mm} {b : Blocks}
    → HasListed l total listed s b
    → ((z o : ℕ) → z < 2 → o ≤ max_order → listed z o ≡ true)
    → HasBlocks l total s b
HasListed-HasBlocks f all = record {
  ring = λ z o hz ho. f.ring z o hz ho (all z o hz ho);
  counted = λ z o hz ho. f.counted z o hz ho (all z o hz ho);
  nodes = f.nodes;
}

-- `list_add` of a page that heads no block succeeds and leaves the blocks with that one more.
pub list_add-pushed :
    {l : Layout} {total : ℕ} {s : Mm} {b : Blocks} (zone order page : ℕ)
    → IsLayout l
    → HasBlocks l total s b
    → AreDisjoint total b
    → zone < 2
    → order ≤ max_order
    → ((z o : ℕ) → z < 2 → o ≤ max_order → page ∉ b z o)
    → page < total
    → total < 2 ^ 32 - 1
    → (h : Heap) × (list_add (lru l page) (area l zone order) s.lists ≡ some (tt, h))
      × HasBlocks l total (pushed s h zone order) (put b zone order page)
      × SameOutside (lru l page ∷ area l zone order ∷ lrus l (b zone order)) s.lists h
list_add-pushed zone order page y f d hz ho fresh hp small =
    let (h, runs, g, same) =
      list_add-HasListed zone order y (HasBlocks-HasListed f) d hz ho page refl fresh hp small in
    (h, runs, HasListed-HasBlocks g (λ z o kz ko. refl), same)
