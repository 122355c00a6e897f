-- ===== src/Mm/Taken.antt =====
-- The blocks once the first one of a list is taken out.
use quark_os.Base.{
  ℕ, ◌+◌, ◌^◌, ◌≤◌, ◌<◌, ◌≡◌, ◌&&◌, List, ◌∷◌, arith, ◌==◌, Bool-cases, ◌⊎◌, inl, inr, ◌∈◌,
  Distinct,
}
use mathlib.Core.Path.{subst}
use quark_os.Mm.{max_order}
use quark_os.Mm.Lists.{Blocks, AreDisjoint, IsHeld}
use quark_os.Mm.Pop.{put_rest}
use quark_os.Mm.Cover.{IsCovered}

module _ (total : ℕ) (b : Blocks) (zone order page : ℕ) (rest : List ℕ)
    (front : b zone order ≡ page ∷ rest) where
  rest-mem : (z o p : ℕ) → p ∈ put_rest b zone order rest z o → p ∈ b z o
  rest-mem z o p i = elim (Bool-cases ((z == zone) && (o == order))) [
    | inl e ↦
        let ez : z ≡ zone = ground arith in
        let eo : o ≡ order = ground arith in rw (ez, eo, front) (ground arith)
    | inr ne ↦ ground arith
  ]

  -- An entry is the one taken out, or is left.
  mem-rest :
      (z o p : ℕ)
      → p ∈ b z o
      → ((z ≡ zone) × (o ≡ order) × (p ≡ page)) ⊎ (p ∈ put_rest b zone order rest z o)
  mem-rest z o p i = elim (Bool-cases ((z == zone) && (o == order))) [
    | inl e ↦
        let ez : z ≡ zone = ground arith in
        let eo : o ≡ order = ground arith in
        let i' : p ∈ page ∷ rest = subst (λ c. p ∈ c) front (rw (ez, eo) at i) in
        elim (Bool-cases (p == page)) [
          | inl ep ↦ inl (ez, eo, ground arith)
          | inr np ↦ inr (ground arith)
        ]
    | inr ne ↦ inr (ground arith)
  ]

  module _ (d : AreDisjoint total b) (hz : zone < 2) (ho : order ≤ max_order) where
    fronts : Distinct (page ∷ rest)
    fronts = subst Distinct front (d.once zone order hz ho)

    pub rest-AreDisjoint : AreDisjoint total (put_rest b zone order rest)
    rest-AreDisjoint = record {
      once = λ z o kz ko. elim (Bool-cases ((z == zone) && (o == order))) [
        | inl e ↦ rw e fronts.1
        | inr ne ↦ rw ne (d.once z o kz ko)
      ];
      apart = λ z o p z' o' p' kz ko i kz' ko' i' ne.
          d.apart z o p z' o' p' kz ko (rest-mem z o p i) kz' ko' (rest-mem z' o' p' i') ne;
      within = λ z o p kz ko i. d.within z o p kz ko (rest-mem z o p i);
    }

    front-mem : page ∈ b zone order
    front-mem = rw front (ground arith)

    -- The pages of the block taken out are held.
    pub front-IsHeld : IsHeld total (put_rest b zone order rest) page (2 ^ order)
    front-IsHeld = record {
      clear = λ z o q kz ko i.
          d.apart zone order page z o q hz ho front-mem kz ko (rest-mem z o q i)
            (ground (arith, fronts));
      within = d.within zone order page hz ho front-mem;
    }

  pub rest-IsCovered_inv : (i : ℕ) → IsCovered (put_rest b zone order rest) i → IsCovered b i
  rest-IsCovered_inv i c = record {
    zone = c.zone;
    order = c.order;
    page = c.page;
    zone_in = c.zone_in;
    order_in = c.order_in;
    listed = rest-mem c.zone c.order c.page c.listed;
    from = c.from;
    to = c.to;
  }

  pub rest-IsCovered :
      (i : ℕ)
      → IsCovered b i
      → IsCovered (put_rest b zone order rest) i ⊎ ((page ≤ i) × (i < page + 2 ^ order))
  rest-IsCovered i c = elim (mem-rest c.zone c.order c.page c.listed) [
    | inl (ez, eo, ep) ↦ inr (rw (← ep) c.from, rw (← ep, ← eo) c.to)
    | inr left ↦ inl (record {
      zone = c.zone;
      order = c.order;
      page = c.page;
      zone_in = c.zone_in;
      order_in = c.order_in;
      listed = left;
      from = c.from;
      to = c.to;
    })
  ]
