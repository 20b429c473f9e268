-- ===== src/Color/Start.antt =====
-- `mc_init`: the state it leaves.
use prefix_lookup_mc.Base.{
  ℕ, suc, ◌+◌, ◌*◌, ◌-◌, ◌/◌, ◌%◌, ◌<◌, ◌≤◌, ◌≡◌, refl, ap, ◌∙◌, arith, true, Option, none, some,
  List, [], ◌∷◌, length, get_elem?, get_elem?_lem,
}
use prefix_lookup_mc.Color.{
  McPriv, addr_pfn, mc_init, init_shares, mapped_priv, page_colors, hpage_size, page_size,
}
use prefix_lookup_mc.Color.Shape.{IsArea, IsPriv, Rising, three}

-- The reads keep the size of the buffer.
pub length-addr_pfn :
    (entries : List (Option ℕ)) (pfns : List ℕ) → length (addr_pfn entries pfns) ≡ length pfns
unfolding addr_pfn
length-addr_pfn [] pfns = refl
length-addr_pfn (none ∷ entries) pfns = refl
length-addr_pfn (some entry ∷ entries) [] = refl
length-addr_pfn (some entry ∷ entries) (pfn ∷ pfns) = ap suc (length-addr_pfn entries pfns)

-- An area on the first pages of the mapping.
first_area :
    (addr : ℕ) (pfnbuf : List ℕ) (pfn size page color : ℕ)
    → get_elem? pfnbuf 0 ≡ some pfn
    → page * page_size + size ≤ hpage_size
    → 0 < size
    → (pfn + page) % page_colors ≡ color
    → IsArea addr pfnbuf
        (record { page_color = color; size = size })
        (record { start = addr + page * page_size; alloc = addr + page * page_size; left = size })
first_area addr pfnbuf pfn size page color there fits pos is =
    let offset : addr + page * page_size - addr ≡ page * page_size = omega arith in
    let hpage : (addr + page * page_size - addr) / hpage_size ≡ 0 = omega arith in
    let inner : (addr + page * page_size - addr) % hpage_size ≡ page * page_size = omega arith in
    record {
      pfn = pfn;
      low = omega arith;
      inside = omega (arith, inner);
      mapped = rw hpage there;
      aligned = omega arith;
      color = omega (arith, inner);
      bumped = omega arith;
      total = refl;
    }

-- What the loop of `mc_init` builds.
pub init_shares-IsPriv :
    (m : McPriv) (pfn : ℕ)
    → get_elem? m.pfnbuf 0 ≡ some pfn
    → ((i j : ℕ) → m.free_head i j ≡ [])
    → IsPriv (init_shares 3 0 0 (pfn % page_colors) m)
unfolding init_shares Rising
init_shares-IsPriv m pfn there none_free =
    let area = first_area m.addr m.pfnbuf pfn in
    record {
      areas =
          three _ (area 8192 0 _ there (omega arith) (omega arith) (omega arith), tt)
            (area 20480 2 _ there (omega arith) (omega arith) (omega arith), tt)
            (area 4096 7 _ there (omega arith) (omega arith) (omega arith), tt);
      rising = three _ (tt, tt) (tt, tt) (tt, tt);
      nonempty = three _ (omega arith) (omega arith) (omega arith);
      sizes = three _ refl refl refl;
      first_color = omega arith;
      second_color = omega arith;
      third_color = omega arith;
      frees = λ i j l l'. rw (none_free i j) tt;
    }

-- When the file opens and is mapped, `mc_init` returns, whatever the reads of the page map give, and
-- the state it leaves is well-formed; every share has one area, and no block is free.
pub mc_init-IsPriv :
    (addr : ℕ) (entries : List (Option ℕ)) (buffer : List ℕ) (bytes : ℕ → ℕ)
    → length buffer ≡ 16
    → (m : McPriv) × (mc_init true (some addr) entries buffer bytes ≡ some m)
      × IsPriv m
      × ((i j : ℕ) → m.free_head i j ≡ [])
      × ((i : ℕ) → i < 3 → length (m.lm i) ≡ 1)
unfolding mc_init init_shares
mc_init-IsPriv addr entries buffer bytes e =
    let pfns = addr_pfn entries buffer in
    let size : length pfns ≡ 16 = length-addr_pfn entries buffer ∙ e in
    let (pfn, there) = get_elem?_lem pfns 0 (omega arith) in
    (
      init_shares 3 0 0 (pfn % page_colors) (mapped_priv addr pfns bytes),
      rw there refl,
      init_shares-IsPriv (mapped_priv addr pfns bytes) pfn there (λ i j. refl),
      λ i j. refl,
      three _ refl refl refl,
    )
