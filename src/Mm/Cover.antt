-- ===== src/Mm/Cover.antt =====
-- Which pages the blocks cover, as blocks are put in and taken out.
use native.Mathlib.Nat.{one-le-pow}
use quark_os.Base.{
  ℕ, ◌+◌, ◌^◌, ◌≤◌, ◌<◌, ◌≡◌, false, ◌&&◌, arith, ◌==◌, Bool-cases, ◌⊎◌, inl, inr, has, ◌∈◌, ◌∉◌,
}
use quark_os.Mm.{max_order}
use quark_os.Mm.Lists.{Blocks, AreDisjoint, IsHeld, Clear}
use quark_os.Mm.Push.{put}

-- The page `i` belongs to a free block.
pub record IsCovered (b : Blocks) (i : ℕ) : Type 0 where
  pub zone : ℕ
  pub order : ℕ
  pub page : ℕ
  pub zone_in : zone < 2
  pub order_in : order ≤ max_order
  pub listed : page ∈ b zone order
  pub from : page ≤ i
  pub to : i < page + 2 ^ order

pub held-fresh :
    {total : ℕ} {b : Blocks} (p n : ℕ)
    → IsHeld total b p n
    → 0 < n
    → (z o : ℕ) → z < 2
    → o ≤ max_order
    → p ∉ b z o
held-fresh {b} p n h pos z o hz ho = elim (Bool-cases (has p (b z o))) [
  | inl i ↦ absurd (ground (arith, h.clear z o p hz ho i, one-le-pow o 2))
  | inr out ↦ out
]

pub IsHeld-sub :
    {total : ℕ} {b : Blocks} (p m q n : ℕ)
    → IsHeld total b p m
    → p ≤ q
    → q + n ≤ p + m
    → IsHeld total b q n
IsHeld-sub p m q n h lo hi = record {
  clear = λ z o r hz ho i. ground (arith, h.clear z o r hz ho i);
  within = omega (arith, h.within);
}

-- An entry of the blocks with one more is the new one or an old one.
put-cases :
    (b : Blocks) (zone order page z o p : ℕ)
    → p ∈ put b zone order page z o
    → ((z ≡ zone) × (o ≡ order) × (p ≡ page)) ⊎ (p ∈ b z o)
put-cases b zone order page z o p i =
    elim (Bool-cases ((z == zone) && (o == order) && (p == page))) [
      | inl e ↦ inl (ground arith, ground arith, ground arith)
      | inr ne ↦ inr (ground arith)
    ]

Clear-symm : (p m q n : ℕ) → Clear p m q n → Clear q n p m
Clear-symm p m q n (inl h) = inr h
Clear-symm p m q n (inr h) = inl h

pub two-pow_pos : (n : ℕ) → 0 < 2 ^ n
two-pow_pos n = omega (arith, one-le-pow n 2)

module _ {total : ℕ} {b : Blocks} (zone order page : ℕ) where
  pub put-IsHeld :
      (p n : ℕ)
      → IsHeld total b p n
      → Clear p n page (2 ^ order)
      → IsHeld total (put b zone order page) p n
  put-IsHeld p n h c = record {
    clear = λ z o q hz ho i. elim (put-cases b zone order page z o q i) [
      | inl (ez, eo, eq) ↦ rw (eo, eq) c
      | inr old ↦ h.clear z o q hz ho old
    ];
    within = h.within;
  }

  module _ (d : AreDisjoint total b) (h : IsHeld total b page (2 ^ order)) where
    put-apart :
        (z o p z' o' p' : ℕ)
        → z < 2
        → o ≤ max_order
        → p ∈ put b zone order page z o
        → z' < 2
        → o' ≤ max_order
        → p' ∈ put b zone order page z' o'
        → ((z == z') && (o == o') && (p == p')) ≡ false
        → Clear p (2 ^ o) p' (2 ^ o')
    put-apart z o p z' o' p' hz ho i hz' ho' i' ne = elim (put-cases b zone order page z o p i) [
      | inl (ez, eo, ep) ↦ elim (put-cases b zone order page z' o' p' i') [
        | inl (ez', eo', ep') ↦ absurd (ground arith)
        | inr old' ↦ rw (eo, ep) (h.clear z' o' p' hz' ho' old')
      ]
      | inr old ↦ elim (put-cases b zone order page z' o' p' i') [
        | inl (ez', eo', ep') ↦ rw (eo', ep') (Clear-symm _ _ _ _ (h.clear z o p hz ho old))
        | inr old' ↦ d.apart z o p z' o' p' hz ho old hz' ho' old' ne
      ]
    ]

    pub put-AreDisjoint : AreDisjoint total (put b zone order page)
    put-AreDisjoint = record {
      once = λ z o hz ho.
          ground
            (arith, d.once z o hz ho, held-fresh page (2 ^ order) h (two-pow_pos order) z o hz ho);
      apart = put-apart;
      within = λ z o p hz ho i. elim (put-cases b zone order page z o p i) [
        | inl (ez, eo, ep) ↦ rw (eo, ep) h.within
        | inr old ↦ d.within z o p hz ho old
      ];
    }

module _ (b : Blocks) (zone order page : ℕ) where
  -- A page is covered once a block is put in if it was covered, or lies in that block.
  pub put-IsCovered : (i : ℕ) → IsCovered b i → IsCovered (put b zone order page) i
  put-IsCovered i c = record {
    zone = c.zone;
    order = c.order;
    page = c.page;
    zone_in = c.zone_in;
    order_in = c.order_in;
    listed = ground (arith, c.listed);
    from = c.from;
    to = c.to;
  }

  pub put-IsCovered_new :
      (i : ℕ)
      → zone < 2
      → order ≤ max_order
      → page ≤ i
      → i < page + 2 ^ order
      → IsCovered (put b zone order page) i
  put-IsCovered_new i hz ho lo hi = record {
    zone = zone;
    order = order;
    page = page;
    zone_in = hz;
    order_in = ho;
    listed = ground arith;
    from = lo;
    to = hi;
  }

  pub put-IsCovered_inv :
      (i : ℕ)
      → IsCovered (put b zone order page) i
      → IsCovered b i ⊎ ((page ≤ i) × (i < page + 2 ^ order))
  put-IsCovered_inv i c = elim (put-cases b zone order page c.zone c.order c.page c.listed) [
    | inl (ez, eo, ep) ↦ inr (rw (← ep) c.from, rw (← ep, ← eo) c.to)
    | inr old ↦ inl (record {
      zone = c.zone;
      order = c.order;
      page = c.page;
      zone_in = c.zone_in;
      order_in = c.order_in;
      listed = old;
      from = c.from;
      to = c.to;
    })
  ]
