-- ===== src/Color/Fill.antt =====
-- The next bytes of an area: what a block that is handed out is, and `lma_alloc`.
use prefix_lookup_mc.Base.{
  ℕ, ◌+◌, ◌*◌, ◌≤◌, ◌<◌, ◌≡◌, refl, sym, ap, ◌∙◌, arith, true, Option, some, List, [], length-set,
  get_elem?, get_elem?-set_self, set, store_lem, All, All-set, All-get_elem?, ltb, ◌==◌, Bool-cases,
  inl, inr, ◌⊎◌,
}
use prefix_lookup_mc.Mm.{node_size}
use prefix_lookup_mc.Color.{McPriv, CacheShare, LmArea, with_lm, zeroed, lma_alloc}
use prefix_lookup_mc.Color.Shape.{IsArea, IsBlock, IsPriv, Rising}
use prefix_lookup_mc.Color.Alloc.{
  get_elem?-lt, set-Rising, behind_lem, set-IsBlock, fill-IsArea, filled, zeroed-IsPriv,
  with_lm-IsPriv,
}

-- Two blocks that share no byte.
unfoldable pub IsApart : ℕ → ℕ → ℕ → ℕ → Type 0
IsApart p n q n' = (p + n ≤ q) ⊎ (q + n' ≤ p)

-- `result` is a block of the share for so many nodes, with all its bytes zero; if none was free, it is apart from all that were
-- handed out.
pub record Given (m : McPriv) (share node_num : ℕ) (result : Option (ℕ × McPriv)) : Type 0 where
  pub p : ℕ
  pub after : McPriv
  pub returns : result ≡ some (p, after)
  pub shape : IsPriv after
  pub block : IsBlock (after.lm share) p (node_num * node_size)
  pub clean : (x : ℕ) → p ≤ x → x < p + node_num * node_size → after.bytes x ≡ 0
  pub fresh :
      m.free_head share node_num ≡ []
      → (q n : ℕ) → IsBlock (m.lm share) q n
      → IsApart p (node_num * node_size) q n
  pub kept : (i q n : ℕ) → IsBlock (m.lm i) q n → IsBlock (after.lm i) q n

pub clean_lem : (m : McPriv) (p n x : ℕ) → p ≤ x → x < p + n → (zeroed m p n).bytes x ≡ 0
clean_lem m p n x h l = ground arith

pub lm_self :
    (m : McPriv) (share : ℕ) (areas : List LmArea) → (with_lm m share areas).lm share ≡ areas
lm_self m share areas = ground arith

pub lm-kept :
    (m : McPriv) (share : ℕ) (areas : List LmArea)
    → ((q n : ℕ) → IsBlock (m.lm share) q n → IsBlock areas q n)
    → (i q n : ℕ) → IsBlock (m.lm i) q n
    → IsBlock ((with_lm m share areas).lm i) q n
lm-kept m share areas keep i q n b = elim (Bool-cases (i == share)) [
  | inl e ↦ let same : i ≡ share = ground arith in rw e (keep q n (rw same at b))
  | inr e ↦ rw e b
]

pub compare_lem : (a b : ℕ) → (a < b) ⊎ ((a ≡ b) ⊎ (b < a))
compare_lem a b = ground arith

-- The next bytes of an area are apart from all blocks of the areas.
fresh_lem :
    (addr : ℕ) (pfnbuf : List ℕ) (pcs : CacheShare) (areas : List LmArea) (k : ℕ) (ar : LmArea)
    (n : ℕ)
    → All (IsArea addr pfnbuf pcs) areas
    → Rising pcs.size areas
    → get_elem? areas k ≡ some ar
    → n < ar.left
    → (q n' : ℕ) → IsBlock areas q n'
    → IsApart ar.alloc n q n'
unfolding IsApart
fresh_lem addr pfnbuf pcs areas k ar n h up there room q n' b =
    let mine = All-get_elem? (IsArea addr pfnbuf pcs) areas k h there in
    let its = All-get_elem? (IsArea addr pfnbuf pcs) areas b.k h b.there in
    elim (compare_lem k b.k) [
      | inl l ↦
          let below = behind_lem pcs.size areas k b.k ar b.area up there b.there l in
          inl (omega (arith, below, mine.total, b.from))
      | inr (inl e) ↦
          let same : ar ≡ b.area = some_area (sym there ∙ ap (get_elem? areas) e ∙ b.there) in
          inr (omega (arith, ap (λ (t : LmArea). t.alloc) same, b.to))
      | inr (inr l) ↦
          let below = behind_lem pcs.size areas b.k k b.area ar up b.there there l in
          inr (omega (arith, below, its.total, mine.bumped, b.to))
    ]
  where
    some_area : {x y : LmArea} → ◌≡◌ {A = Option LmArea} (some x) (some y) → x ≡ y
    some_area e = ground arith

module _ (m : McPriv) (share node_num : ℕ) (h : IsPriv m) (l : share < 3) where
  pub fill_lem :
      (k : ℕ) (ar : LmArea)
      → get_elem? (m.lm share) k ≡ some ar
      → node_num * node_size < ar.left
      → Given m share node_num (lma_alloc m share k node_num)
  fill_lem k ar there room =
      let n = node_num * node_size in
      let areas = set (m.lm share) k (filled ar n) in
      let inside = get_elem?-lt (m.lm share) k there in
      let fits : ltb n ar.left ≡ true = ground (arith, room) in
      let good =
        All-get_elem? (IsArea m.addr m.pfnbuf (m.cs share)) (m.lm share) k (h.areas share l)
          there in
      record {
        p = ar.alloc;
        after = zeroed (with_lm m share areas) ar.alloc n;
        returns =
            unfold lma_alloc in rw (there, store_lem (m.lm share) k (filled ar n) inside, fits);
        shape = zeroed-IsPriv (with_lm m share areas) ar.alloc n (
            with_lm-IsPriv m share areas h
              (All-set (IsArea m.addr m.pfnbuf (m.cs share)) (m.lm share) k (filled ar n)
                (h.areas share l) (fill-IsArea m.addr m.pfnbuf (m.cs share) ar n good room))
              (set-Rising (m.cs share).size (m.lm share) k ar (filled ar n) (h.rising share l) there
                refl)
              (omega (arith, length-set (m.lm share) k (filled ar n), inside))
              (λ q n' b. set-IsBlock (m.lm share) k ar n q n' there b));
        block = rw (lm_self m share areas) (record {
          k = k;
          area = filled ar n;
          there = get_elem?-set_self (m.lm share) k (filled ar n) inside;
          from = good.bumped;
          to = omega arith;
        });
        clean = λ x from to. clean_lem (with_lm m share areas) ar.alloc n x from to;
        fresh = λ e.
            fresh_lem m.addr m.pfnbuf (m.cs share) (m.lm share) k ar n (h.areas share l)
              (h.rising share l) there room;
        kept = lm-kept m share areas (λ q n' b. set-IsBlock (m.lm share) k ar n q n' there b);
      }
