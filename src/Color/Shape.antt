-- ===== src/Color/Shape.antt =====
-- The invariant of the colour allocator, and the colour of an address.
use prefix_lookup_mc.Base.{
  ℕ, zero, suc, ◌+◌, ◌-◌, ◌*◌, ◌/◌, ◌%◌, ◌≤◌, ◌<◌, ◌≡◌, ◌≢◌, sym, ap, ◌∙◌, arith, Option, some,
  List, [], ◌∷◌, length, get_elem?, All, All-get_elem?, ◌>>=◌,
}
use prefix_lookup_mc.Mm.{node_size}
use prefix_lookup_mc.Color.{
  McPriv, CacheShare, LmArea, hpage_size, page_size, page_colors, share_size, head_num,
}

-- The physical page that backs an address gives its colour: pages of a huge page follow one another.
unfoldable pub color_of : McPriv → ℕ → Option ℕ
color_of m x = get_elem? m.pfnbuf ((x - m.addr) / hpage_size) >>= λ pfn.
    some ((pfn + (x - m.addr) % hpage_size / page_size) % page_colors)

-- An area lies in one huge page, from a page of the share's colour on; `alloc` runs through it.
pub record IsArea (addr : ℕ) (pfnbuf : List ℕ) (pcs : CacheShare) (ar : LmArea) : Type 0 where
  pub pfn : ℕ
  pub low : addr ≤ ar.start
  pub inside : (ar.start - addr) % hpage_size + pcs.size ≤ hpage_size
  pub mapped : get_elem? pfnbuf ((ar.start - addr) / hpage_size) ≡ some pfn
  pub aligned : (ar.start - addr) % page_size ≡ 0
  pub color : (pfn + (ar.start - addr) % hpage_size / page_size) % page_colors ≡ pcs.page_color
  pub bumped : ar.start ≤ ar.alloc
  pub total : ar.alloc + ar.left ≡ ar.start + pcs.size

-- Every area of the list lies behind the ones before it.
unfoldable pub Rising : ℕ → List LmArea → Type 0
Rising size [] = Unit
Rising size (ar ∷ areas) = All (λ b. ar.start + size ≤ b.start) areas × Rising size areas

-- The `n` bytes from `p` on have been handed out from an area of the list.
pub record IsBlock (areas : List LmArea) (p n : ℕ) : Type 0 where
  pub k : ℕ
  pub area : LmArea
  pub there : get_elem? areas k ≡ some area
  pub from : area.start ≤ p
  pub to : p + n ≤ area.alloc

pub record IsPriv (m : McPriv) : Type 0 where
  pub areas : (i : ℕ) → i < 3 → All (IsArea m.addr m.pfnbuf (m.cs i)) (m.lm i)
  pub rising : (i : ℕ) → i < 3 → Rising (m.cs i).size (m.lm i)
  pub nonempty : (i : ℕ) → i < 3 → 1 ≤ length (m.lm i)
  pub sizes : (i : ℕ) → i < 3 → (m.cs i).size ≡ share_size i
  pub first_color : (m.cs 0).page_color < page_colors
  pub second_color : (m.cs 1).page_color ≡ ((m.cs 0).page_color + 2) % page_colors
  pub third_color : (m.cs 2).page_color ≡ ((m.cs 0).page_color + 7) % page_colors
  pub frees :
      (i j : ℕ)
      → i < 3
      → j < head_num
      → All (λ p. IsBlock (m.lm i) p (j * node_size)) (m.free_head i j)

pub three {ℓ} : (P : ℕ → Type ℓ) → P 0 → P 1 → P 2 → (i : ℕ) → i < 3 → P i
three P a b c zero h = a
three P a b c (suc zero) h = b
three P a b c (suc (suc zero)) h = c
three P a b c (suc (suc (suc i))) h = absurd (omega arith)

-- All the addresses of a block have colours of the share: as many from its first one on as its areas
-- have pages.
pub record HasColor (m : McPriv) (pcs : CacheShare) (x : ℕ) : Type 0 where
  pub page : ℕ
  pub few : page * page_size < pcs.size
  pub is : color_of m x ≡ some ((pcs.page_color + page) % page_colors)

area-HasColor :
    (m : McPriv) (pcs : CacheShare) (ar : LmArea) (x : ℕ)
    → IsArea m.addr m.pfnbuf pcs ar
    → ar.start ≤ x
    → x < ar.start + pcs.size
    → HasColor m pcs x
unfolding color_of
area-HasColor m pcs ar x h l u =
    let page = (x - ar.start) / page_size in
    let same : (x - m.addr) / hpage_size ≡ (ar.start - m.addr) / hpage_size =
      omega (arith, h.low, h.inside) in
    let offset : (x - m.addr) % hpage_size / page_size
        ≡ (ar.start - m.addr) % hpage_size / page_size + page =
      omega (arith, h.low, h.inside, h.aligned) in
    record {
      page = page;
      few = omega arith;
      is = rw (same, h.mapped) (ap some (omega (arith, offset, h.color)));
    }

block-HasColor :
    (m : McPriv) (pcs : CacheShare) (areas : List LmArea) (p n x : ℕ)
    → All (IsArea m.addr m.pfnbuf pcs) areas
    → IsBlock areas p n
    → p ≤ x
    → x < p + n
    → HasColor m pcs x
block-HasColor m pcs areas p n x h b l u =
    let ar = All-get_elem? (IsArea m.addr m.pfnbuf pcs) areas b.k h b.there in
    area-HasColor m pcs b.area x ar (omega (arith, b.from)) (omega (arith, b.to, ar.total))

-- Every address of a block of a share has a colour of the share.
pub share-HasColor :
    (m : McPriv) (i p n x : ℕ)
    → IsPriv m
    → i < 3
    → IsBlock (m.lm i) p n
    → p ≤ x
    → x < p + n
    → HasColor m (m.cs i) x
share-HasColor m i p n x h l b from to =
    block-HasColor m (m.cs i) (m.lm i) p n x (h.areas i l) b from to

some_same : (a b : ℕ) → ◌≡◌ {A = Option ℕ} (some a) (some b) → a ≡ b
some_same a b e = ground arith

-- The colours of two shares differ.
differ :
    (m : McPriv) (x y : ℕ) (i j : ℕ)
    → IsPriv m
    → color_of m x ≡ color_of m y
    → i < j
    → j < 3
    → HasColor m (m.cs i) x
    → ¬ HasColor m (m.cs j) y
differ m x y zero zero h e l l' cx cy = absurd (omega arith)
differ m x y zero (suc zero) h e l l' cx cy =
    let same = some_same _ _ (sym cx.is ∙ e ∙ cy.is) in
    omega (
      arith,
      same,
      cx.few,
      cy.few,
      h.sizes 0 (omega arith),
      h.sizes 1 (omega arith),
      h.first_color,
      h.second_color,
    )
differ m x y zero (suc (suc zero)) h e l l' cx cy =
    let same = some_same _ _ (sym cx.is ∙ e ∙ cy.is) in
    omega (
      arith,
      same,
      cx.few,
      cy.few,
      h.sizes 0 (omega arith),
      h.sizes 2 (omega arith),
      h.first_color,
      h.third_color,
    )
differ m x y (suc zero) (suc (suc zero)) h e l l' cx cy =
    let same = some_same _ _ (sym cx.is ∙ e ∙ cy.is) in
    omega (
      arith,
      same,
      cx.few,
      cy.few,
      h.sizes 1 (omega arith),
      h.sizes 2 (omega arith),
      h.first_color,
      h.second_color,
      h.third_color,
    )
differ m x y i (suc (suc (suc j))) h e l l' cx cy = absurd (omega arith)
differ m x y (suc i) zero h e l l' cx cy = absurd (omega arith)
differ m x y (suc zero) (suc zero) h e l l' cx cy = absurd (omega arith)
differ m x y (suc (suc i)) (suc zero) h e l l' cx cy = absurd (omega arith)
differ m x y (suc (suc i)) (suc (suc zero)) h e l l' cx cy = absurd (omega arith)

-- In a well-formed state of the allocator, no address of a block of one share has the colour of an
-- address of a block of another share.
pub color_of_apart :
    (m : McPriv) (i j p q n n' x y : ℕ)
    → IsPriv m
    → i < j
    → j < 3
    → IsBlock (m.lm i) p n
    → IsBlock (m.lm j) q n'
    → p ≤ x
    → x < p + n
    → q ≤ y
    → y < q + n'
    → color_of m x ≢ color_of m y
color_of_apart m i j p q n n' x y h l l' b b' px xp qy yq e =
    differ m x y i j h e l l' (share-HasColor m i p n x h (omega arith) b px xp)
      (share-HasColor m j q n' y h l' b' qy yq)
