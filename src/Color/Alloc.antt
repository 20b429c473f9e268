-- ===== src/Color/Alloc.antt =====
-- `mc_alloc_node` and `mc_dealloc_node`: a block that is handed out is zeroed and lies in an area of its
-- share, and the state stays well-formed.
use native.Mathlib.Decide.{ℕ_discrete}
use prefix_lookup_mc.Base.{
  ℕ, zero, suc, ◌+◌, ◌-◌, ◌*◌, ◌≤◌, ◌<◌, ◌≡◌, refl, sym, ap, ◌∙◌, arith, ◌&&◌, Option, some, List,
  [], ◌∷◌, ◌++◌, length, get_elem?, get_elem?-set_self, get_elem?-set_ne, set, All, All-set,
  All-get_elem?, ◌==◌, Bool-cases, inl, inr,
}
use prefix_lookup_mc.Mm.{node_size}
use prefix_lookup_mc.Color.{McPriv, CacheShare, LmArea, with_lm, with_free, zeroed, last_area}
use prefix_lookup_mc.Color.Shape.{IsArea, IsBlock, IsPriv, Rising}

-- Lists of areas.
pub All-append {ℓ κ} :
    {A : Type ℓ} (P : A → Type κ) (xs ys : List A) → All P xs → All P ys → All P (xs ++ ys)
All-append P [] ys h k = k
All-append P (x ∷ xs) ys h k = (h.0, All-append P xs ys h.1 k)

All-map {ℓ κ μ} :
    {A : Type ℓ} (P : A → Type κ) (Q : A → Type μ) (xs : List A)
    → ((a : A) → P a → Q a)
    → All P xs
    → All Q xs
All-map P Q [] f h = tt
All-map P Q (x ∷ xs) f h = (f x h.0, All-map P Q xs f h.1)

get_elem?-append_left {ℓ} :
    {A : Type ℓ} (xs ys : List A) (k : ℕ) {a : A}
    → get_elem? xs k ≡ some a
    → get_elem? (xs ++ ys) k ≡ some a
get_elem?-append_left [] ys k h = absurd (ground arith)
get_elem?-append_left (x ∷ xs) ys zero h = h
get_elem?-append_left (x ∷ xs) ys (suc k) h = get_elem?-append_left xs ys k h

pub get_elem?-append_self {ℓ} :
    {A : Type ℓ} (xs : List A) (a : A) → get_elem? (xs ++ (a ∷ [])) (length xs) ≡ some a
get_elem?-append_self [] a = refl
get_elem?-append_self (x ∷ xs) a = get_elem?-append_self xs a

pub get_elem?-lt {ℓ} :
    {A : Type ℓ} (xs : List A) (k : ℕ) {a : A} → get_elem? xs k ≡ some a → k < length xs
get_elem?-lt [] k h = absurd (ground arith)
get_elem?-lt (x ∷ xs) zero h = omega arith
get_elem?-lt (x ∷ xs) (suc k) h = omega (arith, get_elem?-lt xs k h)

pub last_area_lem :
    (P : LmArea → Type 0) (areas : List LmArea)
    → 1 ≤ length areas
    → All P areas
    → (last : LmArea) × (last_area areas ≡ some last) × P last
unfolding last_area
last_area_lem P [] h k = absurd (omega arith)
last_area_lem P (ar ∷ []) h k = (ar, refl, k.0)
last_area_lem P (ar ∷ (ar' ∷ areas)) h k = last_area_lem P (ar' ∷ areas) (omega arith) k.1

-- The areas stay in order.
pub append-Rising :
    (size : ℕ) (areas : List LmArea) (last new : LmArea)
    → Rising size areas
    → last_area areas ≡ some last
    → last.start + size ≤ new.start
    → Rising size (areas ++ (new ∷ []))
unfolding Rising last_area
append-Rising size [] last new h e l = (tt, tt)
append-Rising size (ar ∷ []) last new h e l =
    let same : ar.start ≡ last.start = ground arith in ((omega arith, tt), (tt, tt))
append-Rising size (ar ∷ (ar' ∷ areas)) last new h e l =
    let found = last_area_lem (λ b. ar.start + size ≤ b.start) (ar' ∷ areas) (omega arith) h.0 in
    let same : (found.0).start ≡ last.start = same_last (sym found.1 ∙ e) in
    (
      All-append (λ b. ar.start + size ≤ b.start) (ar' ∷ areas) (new ∷ []) h.0
          (omega (arith, found.2), tt),
      append-Rising size (ar' ∷ areas) last new h.1 e l,
    )
  where
    same_last : {x y : LmArea} → ◌≡◌ {A = Option LmArea} (some x) (some y) → x.start ≡ y.start
    same_last e = ground arith

pub set-Rising :
    (size : ℕ) (areas : List LmArea) (k : ℕ) (ar ar' : LmArea)
    → Rising size areas
    → get_elem? areas k ≡ some ar
    → ar'.start ≡ ar.start
    → Rising size (set areas k ar')
unfolding Rising
set-Rising size [] k ar ar' h there e = absurd (ground arith)
set-Rising size (b ∷ areas) zero ar ar' h there e =
    let same : b.start ≡ ar'.start = ground arith in (rw same at h.0, h.1)
set-Rising size (b ∷ areas) (suc k) ar ar' h there e =
    let below = All-get_elem? (λ c. b.start + size ≤ c.start) areas k h.0 there in
    (
      All-set (λ c. b.start + size ≤ c.start) areas k ar' h.0 (omega (arith, below, e)),
      set-Rising size areas k ar ar' h.1 there e,
    )

pub behind_lem :
    (size : ℕ) (areas : List LmArea) (k k' : ℕ) (ar ar' : LmArea)
    → Rising size areas
    → get_elem? areas k ≡ some ar
    → get_elem? areas k' ≡ some ar'
    → k < k'
    → ar.start + size ≤ ar'.start
unfolding Rising
behind_lem size [] k k' ar ar' h e e' l = absurd (ground arith)
behind_lem size (b ∷ areas) k zero ar ar' h e e' l = absurd (omega arith)
behind_lem size (b ∷ areas) zero (suc k') ar ar' h e e' l =
    let same : b.start ≡ ar.start = ground arith in
    omega (arith, All-get_elem? (λ c. b.start + size ≤ c.start) areas k' h.0 e')
behind_lem size (b ∷ areas) (suc k) (suc k') ar ar' h e e' l =
    behind_lem size areas k k' ar ar' h.1 e e' (omega arith)

-- Blocks stay blocks when the lists grow and the areas fill.
pub append-IsBlock :
    (areas : List LmArea) (new : LmArea) (p n : ℕ)
    → IsBlock areas p n
    → IsBlock (areas ++ (new ∷ [])) p n
append-IsBlock areas new p n b = record {
  k = b.k;
  area = b.area;
  there = get_elem?-append_left areas (new ∷ []) b.k b.there;
  from = b.from;
  to = b.to;
}

abbrev pub filled : LmArea → ℕ → LmArea
filled ar n = record ar { alloc = ar.alloc + n; left = ar.left - n }

pub set-IsBlock :
    (areas : List LmArea) (k : ℕ) (ar : LmArea) (n : ℕ) (p n' : ℕ)
    → get_elem? areas k ≡ some ar
    → IsBlock areas p n'
    → IsBlock (set areas k (filled ar n)) p n'
set-IsBlock areas k ar n p n' there b = elim (ℕ_discrete k b.k) [
  | no ne ↦ record {
    k = b.k;
    area = b.area;
    there = get_elem?-set_ne areas k b.k (filled ar n) ne ∙ b.there;
    from = b.from;
    to = b.to;
  }
  | yes e ↦
      let same : ar ≡ b.area = some_area ar b.area (sym there ∙ ap (get_elem? areas) e ∙ b.there) in
      record {
        k = k;
        area = filled ar n;
        there = get_elem?-set_self areas k (filled ar n) (get_elem?-lt areas k there);
        from = rw same (b.from);
        to = omega (arith, ap (λ (t : LmArea). t.alloc) same, b.to);
      }
]
  where
    some_area : (x y : LmArea) → ◌≡◌ {A = Option LmArea} (some x) (some y) → x ≡ y
    some_area x y e = ground arith

pub fill-IsArea :
    (addr : ℕ) (pfnbuf : List ℕ) (pcs : CacheShare) (ar : LmArea) (n : ℕ)
    → IsArea addr pfnbuf pcs ar
    → n < ar.left
    → IsArea addr pfnbuf pcs (filled ar n)
fill-IsArea addr pfnbuf pcs ar n h l = record {
  pfn = h.pfn;
  low = h.low;
  inside = h.inside;
  mapped = h.mapped;
  aligned = h.aligned;
  color = h.color;
  bumped = omega (arith, h.bumped);
  total = omega (arith, h.total);
}

-- The parts of the state that the invariant reads.
pub zeroed-IsPriv : (m : McPriv) (p n : ℕ) → IsPriv m → IsPriv (zeroed m p n)
zeroed-IsPriv m p n h = record {
  areas = h.areas;
  rising = h.rising;
  nonempty = h.nonempty;
  sizes = h.sizes;
  first_color = h.first_color;
  second_color = h.second_color;
  third_color = h.third_color;
  frees = h.frees;
}

pub with_lm-IsPriv :
    (m : McPriv) (share : ℕ) (areas : List LmArea)
    → IsPriv m
    → All (IsArea m.addr m.pfnbuf (m.cs share)) areas
    → Rising (m.cs share).size areas
    → 1 ≤ length areas
    → ((p n : ℕ) → IsBlock (m.lm share) p n → IsBlock areas p n)
    → IsPriv (with_lm m share areas)
with_lm-IsPriv m share areas h good up some_left keep = record {
  areas = λ i l. elim (Bool-cases (i == share)) [
    | inl e ↦ let same : i ≡ share = ground arith in rw (e, same) good
    | inr e ↦ rw e (h.areas i l)
  ];
  rising = λ i l. elim (Bool-cases (i == share)) [
    | inl e ↦ let same : i ≡ share = ground arith in rw (e, same) up
    | inr e ↦ rw e (h.rising i l)
  ];
  nonempty = λ i l. elim (Bool-cases (i == share)) [
    | inl e ↦ rw e some_left
    | inr e ↦ rw e (h.nonempty i l)
  ];
  sizes = h.sizes;
  first_color = h.first_color;
  second_color = h.second_color;
  third_color = h.third_color;
  frees = λ i j l l'. elim (Bool-cases (i == share)) [
    | inl e ↦
        let same : i ≡ share = ground arith in
        rw e (
          All-map (λ p. IsBlock (m.lm i) p (j * node_size)) (λ p. IsBlock areas p (j * node_size))
            (m.free_head i j) (λ p b. keep p (j * node_size) (rw same at b)) (h.frees i j l l'))
    | inr e ↦ rw e (h.frees i j l l')
  ];
}

pub with_free-IsPriv :
    (m : McPriv) (share node_num : ℕ) (ps : List ℕ)
    → IsPriv m
    → All (λ p. IsBlock (m.lm share) p (node_num * node_size)) ps
    → IsPriv (with_free m share node_num ps)
with_free-IsPriv m share node_num ps h good = record {
  areas = h.areas;
  rising = h.rising;
  nonempty = h.nonempty;
  sizes = h.sizes;
  first_color = h.first_color;
  second_color = h.second_color;
  third_color = h.third_color;
  frees = λ i j l l'. elim (Bool-cases (i == share && j == node_num)) [
    | inl e ↦
        let same : i ≡ share = ground arith in
        let same' : j ≡ node_num = ground arith in rw (e, same, same') good
    | inr e ↦ rw e (h.frees i j l l')
  ];
}
