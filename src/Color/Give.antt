-- ===== src/Color/Give.antt =====
-- The two ways to a block: the next bytes of an area, and a block that has been given back.
use prefix_lookup_mc.Base.{
  ℕ, suc, ◌+◌, ◌*◌, ◌≤◌, ◌<◌, ◌≡◌, refl, arith, true, false, Option, none, some, List, [], ◌∷◌,
  ◌++◌, length, length-append, get_elem?, ltb, ◌>>=◌, Bool-cases, inl, inr,
}
use prefix_lookup_mc.Mm.{node_size}
use prefix_lookup_mc.Color.{
  McPriv, LmArea, lma_init, with_lm, with_free, zeroed, first_fit, last_area, find_lma, lma_alloc,
  lm_alloc, head_num, share_size,
}
use prefix_lookup_mc.Color.Shape.{IsArea, IsPriv, Rising, three}
use prefix_lookup_mc.Color.Areas.{next_hpage, area_at, lma_init_lem}
use prefix_lookup_mc.Color.Alloc.{
  All-append, get_elem?-append_self, last_area_lem, append-IsBlock, append-Rising, zeroed-IsPriv,
  with_lm-IsPriv, with_free-IsPriv,
}
use prefix_lookup_mc.Color.Fill.{Given, clean_lem, lm_self, lm-kept, fill_lem}

first_fit_lem :
    (areas : List LmArea) (n k : ℕ)
    → first_fit areas n ≡ some k
    → (ar : LmArea) × (get_elem? areas k ≡ some ar) × (n < ar.left)
unfolding first_fit
first_fit_lem [] n k e = absurd (ground arith)
first_fit_lem (ar ∷ areas) n k e =
    let later : (j : ℕ)
        → first_fit areas n ≡ some j
        → (b : LmArea) × (get_elem? areas j ≡ some b) × (n < b.left) =
      first_fit_lem areas n in
    elim (Bool-cases (ltb n ar.left)) [
      | inl fits ↦ let zero_k : k ≡ 0 = ground arith in (ar, rw zero_k refl, ground arith)
      | inr full ↦ from_later (first_fit areas n) refl later full
    ]
  where
    from_later :
        (found : Option ℕ)
        → first_fit areas n ≡ found
        → ((j : ℕ)
            → first_fit areas n ≡ some j
            → (b : LmArea) × (get_elem? areas j ≡ some b) × (n < b.left))
        → ltb n ar.left ≡ false
        → (b : LmArea) × (get_elem? (ar ∷ areas) k ≡ some b) × (n < b.left)
    from_later none e' later full = absurd (ground arith)
    from_later (some j) e' later full =
        let next : k ≡ suc j = ground arith in
        let found = later j e' in (found.0, rw next (found.1), found.2)

-- The state with one more area.
abbrev with_area : McPriv → ℕ → LmArea → McPriv
with_area m share new = record (with_lm m share (m.lm share ++ (new ∷ []))) { lma = m.lma + 1 }

find_lma-old :
    (m : McPriv) (share node_num k : ℕ)
    → first_fit (m.lm share) (node_num * node_size) ≡ some k
    → find_lma m share node_num ≡ some (k, m)
unfolding find_lma
find_lma-old m share node_num k e = rw (e, find_lma) refl

find_lma-new :
    (m : McPriv) (share node_num : ℕ) (last new : LmArea)
    → first_fit (m.lm share) (node_num * node_size) ≡ none
    → last_area (m.lm share) ≡ some last
    → lma_init m (m.cs share) last ≡ some new
    → find_lma m share node_num ≡ some (length (m.lm share), with_area m share new)
unfolding find_lma
find_lma-new m share node_num last new e e' e'' = rw (e, e', e'', find_lma) refl

one_more : (areas : List LmArea) (new : LmArea) → 1 ≤ length (areas ++ (new ∷ []))
one_more areas new = omega (arith, length-append areas (new ∷ []))

with_area-IsPriv :
    (m : McPriv) (share : ℕ) (new : LmArea)
    → IsPriv m
    → share < 3
    → IsArea m.addr m.pfnbuf (m.cs share) new
    → Rising (m.cs share).size (m.lm share ++ (new ∷ []))
    → IsPriv (with_area m share new)
with_area-IsPriv m share new h l good up =
    let more =
      with_lm-IsPriv m share (m.lm share ++ (new ∷ [])) h
        (All-append (IsArea m.addr m.pfnbuf (m.cs share)) (m.lm share) (new ∷ []) (h.areas share l)
          (good, tt))
        up (one_more (m.lm share) new) (append-IsBlock (m.lm share) new) in
    record {
      areas = more.areas;
      rising = more.rising;
      nonempty = more.nonempty;
      sizes = more.sizes;
      first_color = more.first_color;
      second_color = more.second_color;
      third_color = more.third_color;
      frees = more.frees;
    }

-- A share has a huge page for one more area.
unfoldable pub HasRoom : McPriv → ℕ → Type 0
HasRoom m share =
    (last : LmArea)
    → last_area (m.lm share) ≡ some last
    → next_hpage m (m.cs share) last < length m.pfnbuf

pub share-small : (m : McPriv) (share : ℕ) → IsPriv m → share < 3 → (m.cs share).size ≤ 20480
share-small m share h l =
    rw (h.sizes share l)
      (three (λ i. share_size i ≤ 20480) (omega arith) (omega arith) (omega arith) share l)

share-color : (m : McPriv) (share : ℕ) → IsPriv m → share < 3 → (m.cs share).page_color < 8
share-color m share h l =
    three (λ i. (m.cs i).page_color < 8) h.first_color (omega (arith, h.second_color))
      (omega (arith, h.third_color)) share l

module _ (m : McPriv) (share node_num : ℕ) (h : IsPriv m) (l : share < 3)
    (small : node_num * node_size < (m.cs share).size) (room : HasRoom m share) where
  new_lem :
      first_fit (m.lm share) (node_num * node_size) ≡ none
      → Given m share node_num
          (find_lma m share node_num >>= λ r. lma_alloc (r.1) share (r.0) node_num)
  unfolding HasRoom
  new_lem e =
      let (last, is_last, good) =
        last_area_lem (IsArea m.addr m.pfnbuf (m.cs share)) (m.lm share) (h.nonempty share l)
          (h.areas share l) in
      let opened =
        lma_init_lem m (m.cs share) last good (share-color m share h l) (share-small m share h l)
          (room last is_last) in
      let new = area_at (m.cs share) opened.start in
      let there : get_elem? ((with_area m share new).lm share) (length (m.lm share)) ≡ some new =
        rw (lm_self m share (m.lm share ++ (new ∷ []))) (get_elem?-append_self (m.lm share) new) in
      let given =
        fill_lem (with_area m share new) share node_num
          (with_area-IsPriv m share new h l opened.shape (
            append-Rising (m.cs share).size (m.lm share) last new (h.rising share l) is_last
              opened.behind))
          l (length (m.lm share)) new there small in
      record {
        p = given.p;
        after = given.after;
        returns =
            rw (find_lma-new m share node_num last new e is_last opened.returns) (given.returns);
        shape = given.shape;
        block = given.block;
        clean = given.clean;
        fresh = λ e' q n b. given.fresh e' q n (
            lm-kept m share (m.lm share ++ (new ∷ [])) (append-IsBlock (m.lm share) new) share q n
              b);
        kept = λ i q n b.
            given.kept i q n (
              lm-kept m share (m.lm share ++ (new ∷ [])) (append-IsBlock (m.lm share) new) i q n b);
      }

  -- From an area that has room, or from a new one.
  fit_lem :
      (found : Option ℕ)
      → first_fit (m.lm share) (node_num * node_size) ≡ found
      → Given m share node_num
          (find_lma m share node_num >>= λ r. lma_alloc (r.1) share (r.0) node_num)
  fit_lem (some k) e =
      let (ar, there, enough) = first_fit_lem (m.lm share) (node_num * node_size) k e in
      rw (find_lma-old m share node_num k e) (fill_lem m share node_num h l k ar there enough)
  fit_lem none e = new_lem e

  -- From the blocks that were given back, else from the areas.
  free_lem :
      (free : List ℕ)
      → m.free_head share node_num ≡ free
      → node_num < head_num
      → Given m share node_num (lm_alloc m node_num share)
  free_lem [] e lt =
      let row : ltb node_num head_num ≡ true = ground (arith, lt) in
      unfold lm_alloc in rw (row, e) (fit_lem (first_fit (m.lm share) (node_num * node_size)) refl)
  free_lem (p ∷ ps) e lt =
      let row : ltb node_num head_num ≡ true = ground (arith, lt) in
      let good = rw e at (h.frees share node_num l lt) in
      let n = node_num * node_size in
      let taken = with_free m share node_num ps in
      record {
        p = p;
        after = zeroed taken p n;
        returns = unfold lm_alloc in rw (row, e) refl;
        shape = zeroed-IsPriv taken p n (with_free-IsPriv m share node_num ps h good.1);
        block = good.0;
        clean = λ x from to. clean_lem taken p n x from to;
        fresh = λ e'. absurd (ground arith);
        kept = λ i q n' b. b;
      }

  pub lm_alloc_lem : node_num < head_num → Given m share node_num (lm_alloc m node_num share)
  lm_alloc_lem lt = free_lem (m.free_head share node_num) refl lt
