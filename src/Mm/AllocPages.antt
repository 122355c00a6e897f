-- ===== src/Mm/AllocPages.antt =====
-- rmqueue and alloc_pages: what they return, and when they return NULL.
use quark_os.Base.{
  ℕ, zero, suc, ◌+◌, ◌-◌, ◌^◌, ◌≤◌, ◌<◌, ◌≡◌, ◌∙◌, refl, ◌⊎◌, inl, inr, Option, none, some, List,
  [], ◌∷◌, arith, ap, length,
}
use quark_os.Mm.{Layout, Mm, max_order, find_blk, take_blk, rmqueue, alloc_from, alloc_pages, write}
use quark_os.Mm.Lists.{IsLayout, Blocks}
use quark_os.Mm.Split.{IsFree}
use quark_os.Mm.Alloc.{Allocated, Finds, find_blk-Finds, take_blk-Allocated, cons_of_length}

nil_of_length : (ps : List ℕ) → length ps ≡ 0 → ps ≡ []
nil_of_length [] e = refl
nil_of_length (p ∷ ps) e = absurd (omega arith)

-- A zone without a block of the order or above.
abbrev pub HasNone : Blocks → (zone order : ℕ) → Type 0
HasNone b zone order = (o : ℕ) → order ≤ o → o ≤ max_order → b zone o ≡ []

-- `page` is handed out, `m` being the call that does so.
pub record Hands (l : Layout) (total : ℕ) (s : Mm) (b : Blocks) (order : ℕ)
    (r : Option (Option ℕ × Mm)) : Type 0 where
  pub page : ℕ
  pub out : Mm
  pub runs : r ≡ some (some page, out)
  pub allocated : Allocated l total s b order page out
  pub flags : out.flags ≡ s.flags
  pub zonelist : out.zonelist ≡ s.zonelist

module _ {l : Layout} {total : ℕ} (y : IsLayout l) (small : total < 2 ^ 32 - 1) {s : Mm}
    {b : Blocks} (f : IsFree l total s b) where
  rmqueue_of_found :
      (zone order curr page : ℕ) (t : Mm)
      → find_blk (max_order + 1 - order) order zone s ≡ some curr
      → take_blk l curr order zone s ≡ some (page, t)
      → rmqueue l zone order s ≡ some (some page, t)
  unfolding rmqueue
  rmqueue_of_found zone order curr page t e k = ground arith

  rmqueue_of_none :
      (zone order : ℕ)
      → find_blk (max_order + 1 - order) order zone s ≡ none
      → rmqueue l zone order s ≡ some (none, s)
  unfolding rmqueue
  rmqueue_of_none zone order e = ground arith

  -- The two results of rmqueue.
  abbrev Outcome : (zone order : ℕ) → Type 0
  Outcome zone order =
      ((rmqueue l zone order s ≡ some (none, s)) × HasNone b zone order)
      ⊎ ((h : Hands l total s b order (rmqueue l zone order s)) × (h.out.count ≡ s.count))

  Outcome-of :
      (zone order : ℕ) (r : Option ℕ)
      → zone < 2
      → order ≤ max_order
      → find_blk (max_order + 1 - order) order zone s ≡ r
      → Finds s (max_order + 1 - order) order zone r
      → Outcome zone order
  Outcome-of zone order none hz ho e k = inl (
    rmqueue_of_none zone order e,
    λ o lo hi.
        nil_of_length (b zone o)
          (omega (arith, f.has_blocks.counted zone o hz hi, k o lo (omega arith))),
  )
  Outcome-of zone order (some curr) hz ho e k =
      let hc : curr ≤ max_order = omega (arith, k.0, k.1) in
      let (page, rest, front) =
        cons_of_length (b zone curr) (omega (arith, k.2, f.has_blocks.counted zone curr hz hc)) in
      let (t, runs, a, same) =
        take_blk-Allocated y small curr order zone page rest f hz k.0 hc front in
      inr (
        record {
          page = page;
          out = t;
          runs = rmqueue_of_found zone order curr page t e runs;
          allocated = a;
          flags = same.flags;
          zonelist = same.zonelist;
        },
        same.count,
      )

  pub rmqueue_lem : (zone order : ℕ) → zone < 2 → order ≤ max_order → Outcome zone order
  rmqueue_lem zone order hz ho =
      Outcome-of zone order _ hz ho refl (find_blk-Finds (max_order + 1 - order) order zone s)

-- The zones that a zonelist names from a slot on, before its first NULL: `P` holds of each.
abbrev pub Zones : (ℕ → Option ℕ) → (ℕ → Type 0) → (slots slot : ℕ) → Type 0
Zones list P zero slot = Unit
Zones list P (suc slots) slot = elim (list slot) [
  | none ↦ Unit
  | some zone ↦ P zone × Zones list P slots (slot + 1)
]

with_count :
    {l : Layout} {total : ℕ} {s : Mm} {b : Blocks} (order page : ℕ) (t : Mm) (count : ℕ → ℕ)
    → Allocated l total s b order page t
    → Allocated l total s b order page (record t { count = count })
with_count order page t count a = record {
  blocks = a.blocks;
  free = record {
    has_blocks = record {
      ring = a.free.has_blocks.ring;
      counted = a.free.has_blocks.counted;
      nodes = a.free.has_blocks.nodes;
    };
    disjoint = a.free.disjoint;
  };
  held = a.held;
  was_free = a.was_free;
  kept = a.kept;
  only = a.only;
  next_poisoned = a.next_poisoned;
  prev_poisoned = a.prev_poisoned;
  foreign = a.foreign;
}

slot_cases : (o : Option ℕ) → (o ≡ none) ⊎ ((zone : ℕ) × (o ≡ some zone))
slot_cases none = inl refl
slot_cases (some zone) = inr (zone, refl)

module _ {l : Layout} {total : ℕ} (y : IsLayout l) (small : total < 2 ^ 32 - 1) {s : Mm}
    {b : Blocks} (f : IsFree l total s b) where
  -- The two results of a walk over the zonelist.
  abbrev pub Served : (order : ℕ) → (none_left : Type 0) → Option (Option ℕ × Mm) → Type 0
  Served order none_left r =
      ((r ≡ some (none, s)) × none_left)
      ⊎ ((h : Hands l total s b order r) × (h.out.count ≡ write s.count h.page 1))

  slot_null :
      (slots slot order : ℕ)
      → s.zonelist slot ≡ none
      → alloc_from l (suc slots) slot order s ≡ some (none, s)
  unfolding alloc_from
  slot_null slots slot order e = ground arith

  slot_next :
      (slots slot order zone : ℕ)
      → s.zonelist slot ≡ some zone
      → rmqueue l zone order s ≡ some (none, s)
      → alloc_from l (suc slots) slot order s ≡ alloc_from l slots (slot + 1) order s
  unfolding alloc_from
  slot_next slots slot order zone e r = ground arith

  slot_served :
      (slots slot order zone page : ℕ) (t : Mm)
      → s.zonelist slot ≡ some zone
      → rmqueue l zone order s ≡ some (some page, t)
      → alloc_from l (suc slots) slot order s
        ≡ some (some page, record t { count = write t.count page 1 })
  unfolding alloc_from
  slot_served slots slot order zone page t e r = ground arith

  handed_later :
      (slots slot order zone : ℕ)
      → s.zonelist slot ≡ some zone
      → rmqueue l zone order s ≡ some (none, s)
      → Hands l total s b order (alloc_from l slots (slot + 1) order s)
      → Hands l total s b order (alloc_from l (suc slots) slot order s)
  handed_later slots slot order zone e r h = record {
    page = h.page;
    out = h.out;
    runs = slot_next slots slot order zone e r ∙ h.runs;
    allocated = h.allocated;
    flags = h.flags;
    zonelist = h.zonelist;
  }

  handed_here :
      (slots slot order zone : ℕ)
      → s.zonelist slot ≡ some zone
      → Hands l total s b order (rmqueue l zone order s)
      → Hands l total s b order (alloc_from l (suc slots) slot order s)
  handed_here slots slot order zone e h =
      let counted = write h.out.count h.page 1 in
      record {
        page = h.page;
        out = record h.out { count = counted };
        runs = slot_served slots slot order zone h.page h.out e h.runs;
        allocated = with_count order h.page h.out counted h.allocated;
        flags = h.flags;
        zonelist = h.zonelist;
      }

  alloc_from-Served :
      (slots slot order : ℕ)
      → order ≤ max_order
      → Zones s.zonelist (λ z. z < 2) slots slot
      → Served order
          (Zones s.zonelist (λ z. HasNone b z order) slots slot)
          (alloc_from l slots slot order s)
  unfolding alloc_from handed_later handed_here
  alloc_from-Served zero slot order ho zs = inl (refl, tt)
  alloc_from-Served (suc slots) slot order ho zs = elim (slot_cases (s.zonelist slot)) [
    | inl e ↦ inl (slot_null slots slot order e, rw (e, Zones) tt)
    | inr (zone, e) ↦
        let z : (zone < 2) × Zones s.zonelist (λ z. z < 2) slots (slot + 1) = rw (e, Zones) at zs in
        elim (rmqueue_lem y small f zone order z.0 ho) [
          | inl (r, empty) ↦ elim (alloc_from-Served slots (slot + 1) order ho z.1) [
            | inl (r', rest) ↦
                inl (slot_next slots slot order zone e r ∙ r', rw (e, Zones) (empty, rest))
            | inr (h, c) ↦ inr (handed_later slots slot order zone e r h, c)
          ]
          | inr (h, c) ↦
              inr (handed_here slots slot order zone e h, ap (λ (k : ℕ → ℕ). write k h.page 1) c)
        ]
  ]

  in_range : (order : ℕ) → order ≤ max_order → alloc_pages l order s ≡ alloc_from l 4 0 order s
  unfolding alloc_pages
  in_range order ho = ground arith

  -- Of a state whose free lists are linked and counted and whose free blocks are disjoint,
  -- alloc_pages of an order up to MAX_ORDER over a zonelist of the DMA and the normal zone does
  -- one of two things. It returns NULL, changes nothing, and each zone of the zonelist has no
  -- free block of the order or above; or it returns the first page of 2 ^ order pages that were
  -- all free and now are not, sets that page's count to 1, leaves the flags, the zonelist and the
  -- list heads that are not the allocator's alone, and the new free lists are linked, counted and
  -- disjoint and hold all the other pages that were free and no further ones.
  pub alloc_pages_lem :
      (order : ℕ)
      → order ≤ max_order
      → Zones s.zonelist (λ z. z < 2) 4 0
      → Served order (Zones s.zonelist (λ z. HasNone b z order) 4 0) (alloc_pages l order s)
  alloc_pages_lem order ho zs = rw (in_range order ho) (alloc_from-Served 4 0 order ho zs)

  -- An order above MAX_ORDER is refused.
  pub alloc_pages_above : (order : ℕ) → max_order < order → alloc_pages l order s ≡ some (none, s)
  unfolding alloc_pages
  alloc_pages_above order h = ground arith
