-- ===== src/Mm/Setup/Tests.antt =====
-- mm_init on a machine of 32 MB whose memory is cleared.
use quark_os.Base.{
  ℕ, ◌+◌, ◌*◌, ◌^◌, ◌≤◌, ◌<◌, ◌≡◌, refl, true, ◌&&◌, inl, inr, Option, some, none, [], ◌∷◌, arith,
  ◌==◌, ltb, Bool-cases, if◌then◌else◌,
}
use quark_os.ListHead.Ring.{IsNode, Ring}
use quark_os.Mm.{Layout, Mm, lru, area, max_order, alloc_pages, zone_normal}
use quark_os.Mm.Addr.{page_offset, page_size}
use quark_os.Mm.Lists.{Blocks, AreDisjoint, lrus}
use quark_os.Mm.Listed.{HasListed}
use quark_os.Mm.Cover.{IsCovered}
use quark_os.Mm.Areas.Start.{at_start}
use quark_os.Mm.Setup.{memory_pages, free_mem_start, layout_of, init_pages}
use quark_os.Mm.Setup.Covered.{IsMachine, init_pages-IsCovered}
use quark_os.Mm.Setup.Null.{alloc_pages-null}

abbrev machine : Mm
machine = record {
  lists = record { next = λ a. some 0; prev = λ a. some 0 };
  count = λ page. 0;
  flags = λ page. 0;
  nr_free = λ zone order. 0;
  spanned_pages = λ zone. 0;
  free_pages = λ zone. 0;
  zone_mem_map = λ zone. 0;
  zonelist = λ slot. none;
}

abbrev pg : ℕ
pg = 0xC0120000

abbrev zones : ℕ
zones = 0xC0110000

abbrev pages : ℕ
pages = 8192

pages-of_memory : memory_pages (31 * 1024) ≡ pages
unfolding memory_pages
pages-of_memory = refl

machine-IsMachine : IsMachine pg zones pages machine
machine-IsMachine = record {
  kernel = omega arith;
  zones_below = omega arith;
  at_least = omega arith;
  whole = refl;
  room = omega arith;
  nodes = λ p hp. record { next = refl; prev = refl };
  heads = λ z o hz ho. record { next = refl; prev = refl };
  counts = λ p hp. refl;
  flags = λ p hp. refl;
}

init_pages-IsCovered_example :
    (t : Mm) × (b : Blocks) × (init_pages pg zones pages machine ≡ some (tt, t))
    × HasListed (layout_of pg zones pages) pages at_start t b
    × AreDisjoint pages b
    × ((i : ℕ)
        → IsCovered b i
        → (i < pages) × (free_mem_start pg pages ≤ page_offset + i * page_size))
    × ((i : ℕ) → i < pages → free_mem_start pg pages ≤ page_offset + i * page_size → IsCovered b i)
init_pages-IsCovered_example = init_pages-IsCovered machine-IsMachine

-- The zone NORMAL has one block, of order MAX_ORDER, and the lists of the zone DMA are empty.
abbrev layout : Layout
layout = record { mem_map = 4194304 + 4096; zones = 4194304 }

abbrev block : ℕ
block = lru layout 4096

abbrev largest : ℕ
largest = area layout 1 11

abbrev linked : ℕ → Option ℕ
linked a =
    if a == block
    then some largest
    else if a == largest
    then some block
    else if ltb a (4194304 + 164)
    then some a
    else some 0

abbrev one_block : Mm
one_block = record machine {
  lists = record { next = linked; prev = linked };
  nr_free = λ zone order. if (zone == 1) && (order == 11) then 1 else 0;
  zonelist = λ slot. if slot == 0 then some zone_normal else none;
}

abbrev blocks : Blocks
blocks zone order = if (zone == 1) && (order == 11) then 4096 ∷ [] else []

node : (a : ℕ) → IsNode one_block.lists a
node a = record { next = ground arith; prev = ground arith }

blocks-Ring :
    (z o : ℕ)
    → z < 2
    → o ≤ max_order
    → at_start z o ≡ true
    → Ring one_block.lists (area layout z o) (lrus layout (blocks z o))
blocks-Ring z o hz ho i = elim (Bool-cases ((z == 1) && (o == 11))) [
  | inl e ↦
      let ez : z ≡ 1 = ground arith in
      let eo : o ≡ 11 = ground arith in
      let front : Ring one_block.lists largest (block ∷ []) = record {
        chain = ((refl, refl), (refl, refl));
        distinct = (refl, (refl, tt));
      } in
      rw e (rw (ez, eo) front)
  | inr ne ↦
      let empty : Ring one_block.lists (area layout z o) [] = record {
        chain = (ground arith, ground arith);
        distinct = (refl, tt);
      } in
      rw ne empty
]

one_block-HasListed : HasListed layout 8192 at_start one_block blocks
one_block-HasListed = record {
  ring = blocks-Ring;
  counted = λ z o hz ho i. elim (Bool-cases ((z == 1) && (o == 11))) [
    | inl e ↦ rw e refl
    | inr ne ↦ rw ne refl
  ];
  nodes = λ p hp. node (lru layout p);
  heads = λ z o hz ho. node (area layout z o);
  cleared = λ z o hz ho out. (ground arith, ground arith, ground arith);
}

one_block-AreDisjoint : AreDisjoint 8192 blocks
one_block-AreDisjoint = record {
  once = λ z o hz ho. elim (Bool-cases ((z == 1) && (o == 11))) [
    | inl e ↦ rw e (refl, tt)
    | inr ne ↦ rw ne tt
  ];
  apart = λ z o p z' o' p' hz ho i hz' ho' i' ne. absurd (ground arith);
  within = λ z o p hz ho i. ground arith;
}

alloc_pages-null_example :
    (t : Mm) × (alloc_pages layout 3 one_block ≡ some (some 4096, t))
    × ((o : ℕ)
        → 3 ≤ o
        → o < max_order
        → (t.lists.next (area layout 1 o) ≡ some (lru layout (4096 + 2 ^ o)))
          × (t.lists.next (lru layout (4096 + 2 ^ o)) ≡ some 0))
    × (t.lists.prev 0 ≡ some (lru layout (4096 + 2 ^ 3)))
alloc_pages-null_example =
    alloc_pages-null layout 8192 3 4096 [] one_block blocks (record { below = omega arith })
      one_block-HasListed one_block-AreDisjoint refl refl (record { next = refl; prev = refl })
      (omega arith)
