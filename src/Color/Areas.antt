-- ===== src/Color/Areas.antt =====
-- `lma_init`: a new area is well-formed, and its first page has the colour of the share.
use prefix_lookup_mc.Base.{
  ℕ, ◌+◌, ◌-◌, ◌*◌, ◌/◌, ◌%◌, ◌≤◌, ◌<◌, ◌≡◌, ◌≢◌, ap, arith, true, false, some, length,
  get_elem?_lem, ltb, ◌==◌, if◌then◌else◌, Bool-cases, inl, inr,
}
use prefix_lookup_mc.Color.{
  McPriv, CacheShare, LmArea, lma_init, hpage_size, page_size, page_colors, cache_overlap,
}
use prefix_lookup_mc.Color.Shape.{IsArea}

-- The huge page in which `lma_init` looks.
abbrev pub next_hpage : McPriv → CacheShare → LmArea → ℕ
next_hpage m pcs last = (last.start + cache_overlap + pcs.size - m.addr) / hpage_size

abbrev pub area_at : CacheShare → ℕ → LmArea
area_at pcs start = record { start = start; alloc = start; left = pcs.size }

pub record Opened (m : McPriv) (pcs : CacheShare) (last : LmArea) : Type 0 where
  pub start : ℕ
  pub returns : lma_init m pcs last ≡ some (area_at pcs start)
  pub shape : IsArea m.addr m.pfnbuf pcs (area_at pcs start)
  pub behind : last.start + pcs.size ≤ start

module _ (m : McPriv) (pcs : CacheShare) (last : LmArea) (h : IsArea m.addr m.pfnbuf pcs last)
    (few : pcs.page_color < 8) (small : pcs.size ≤ 20480) where
  same_hpage :
      (next_hpage m pcs last == (last.start - m.addr) / hpage_size) ≡ true → Opened m pcs last
  same_hpage e =
      let here : next_hpage m pcs last ≡ (last.start - m.addr) / hpage_size = ground arith in
      let start = last.start + cache_overlap in
      let hpage : (start - m.addr) / hpage_size ≡ (last.start - m.addr) / hpage_size =
        omega (arith, here, h.low) in
      let inner : (start - m.addr) % hpage_size
          ≡ (last.start - m.addr) % hpage_size + cache_overlap =
        omega (arith, hpage, h.low) in
      record {
        start = start;
        returns = unfold lma_init in rw e;
        shape = record {
          pfn = h.pfn;
          low = omega (arith, h.low);
          inside = omega (arith, here, inner, hpage, h.low);
          mapped = rw hpage (h.mapped);
          aligned = omega (arith, h.aligned, h.low);
          color = omega (arith, h.color, inner, h.aligned);
          bumped = omega arith;
          total = omega arith;
        };
        behind = omega arith;
      }

  -- The first page of the colour in a huge page whose first page is `pfn`.
  page_in : ℕ → ℕ
  page_in pfn =
      if ltb (pfn % page_colors) pcs.page_color
      then pcs.page_color - pfn % page_colors
      else if ltb pcs.page_color (pfn % page_colors)
      then page_colors + pcs.page_color - pfn % page_colors
      else 0

  page_in_lem : (pfn : ℕ) → (page_in pfn < 8) × ((pfn + page_in pfn) % 8 ≡ pcs.page_color)
  unfolding page_in
  page_in_lem pfn = ground arith

  start_lem :
      (base pfn : ℕ)
      → (if ltb (pfn % page_colors) pcs.page_color
          then base + (pcs.page_color - pfn % page_colors) * page_size
          else if ltb pcs.page_color (pfn % page_colors)
          then base + (page_colors + pcs.page_color - pfn % page_colors) * page_size
          else base)
        ≡ base + page_in pfn * page_size
  unfolding page_in
  start_lem base pfn = ground arith

  other_hpage :
      (next_hpage m pcs last == (last.start - m.addr) / hpage_size) ≡ false
      → next_hpage m pcs last < length m.pfnbuf
      → Opened m pcs last
  other_hpage e room =
      let np = next_hpage m pcs last in
      let other : np ≢ (last.start - m.addr) / hpage_size =
        λ same. absurd (ground (arith, same, e)) in
      let (pfn, there) = get_elem?_lem m.pfnbuf np room in
      let page = page_in_lem pfn in
      let start = m.addr + np * hpage_size + page_in pfn * page_size in
      let offset : start - m.addr ≡ np * hpage_size + page_in pfn * page_size = omega arith in
      let hpage : (start - m.addr) / hpage_size ≡ np = omega (arith, page.0) in
      let inner : (start - m.addr) % hpage_size ≡ page_in pfn * page_size = omega (arith, page.0) in
      record {
        start = start;
        returns =
            unfold lma_init in
            rw (e, there)
              (ap (λ (t : ℕ). some (area_at pcs t)) (start_lem (m.addr + np * hpage_size) pfn));
        shape = record {
          pfn = pfn;
          low = omega arith;
          inside = omega (arith, inner, page.0);
          mapped = rw hpage there;
          aligned = omega arith;
          color = omega (arith, inner, page.1);
          bumped = omega arith;
          total = omega arith;
        };
        behind = omega (arith, other, h.inside, h.low);
      }

  -- With a huge page left in the mapping, the next area of a share is opened.
  pub lma_init_lem : next_hpage m pcs last < length m.pfnbuf → Opened m pcs last
  lma_init_lem room =
      elim (Bool-cases (next_hpage m pcs last == (last.start - m.addr) / hpage_size)) [
        | inl e ↦ same_hpage e
        | inr e ↦ other_hpage e room
      ]
