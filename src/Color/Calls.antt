-- ===== src/Color/Calls.antt =====
-- `mc_alloc_node` and `mc_dealloc_node`, called with a number of nodes and a level.
use prefix_lookup_mc.Base.{
  ℕ, ◌+◌, ◌*◌, ◌<◌, ◌≤◌, ◌≡◌, refl, arith, true, false, ◌&&◌, none, some, List, [], ◌∷◌, ltb, ◌==◌,
  ◌>>=◌, Bool-cases, inl, inr,
}
use prefix_lookup_mc.Mm.{node_size}
use prefix_lookup_mc.Color.{
  McPriv, with_free, zeroed, lm_alloc, mc_alloc_node, mc_dealloc_node, share_of, share_size,
  head_num,
}
use prefix_lookup_mc.Color.Shape.{IsBlock, IsPriv, color_of_apart, three}
use prefix_lookup_mc.Color.Alloc.{with_free-IsPriv}
use prefix_lookup_mc.Color.Fill.{Given, IsApart, compare_lem}
use prefix_lookup_mc.Color.Give.{HasRoom, lm_alloc_lem}

pub share_of-lt : (level : ℕ) → share_of level < 3
unfolding share_of
share_of-lt level = ground arith

-- A row of nodes is smaller than every area.
row_fits :
    (m : McPriv) (share n : ℕ)
    → IsPriv m
    → share < 3
    → n < head_num
    → n * node_size < (m.cs share).size
row_fits m share n h l lt =
    rw (h.sizes share l)
      (three (λ i. n * node_size < share_size i) (omega arith) (omega arith) (omega arith) share l)

-- For 1 to 127 nodes, and with a huge page left for an area of the share of the level, `mc_alloc_node`
-- returns a block of an area of that share, with all its bytes zero; the state after it is
-- well-formed, and what was a block is still one.
pub mc_alloc_node_lem :
    (m : McPriv) (n level : ℕ)
    → IsPriv m
    → 0 < n
    → n < head_num
    → HasRoom m (share_of level)
    → Given m (share_of level) n (mc_alloc_node m n level)
mc_alloc_node_lem m n level h pos lt room =
    let some_nodes : (n == 0) ≡ false = ground (arith, pos) in
    let not_many : ltb 128 n ≡ false = ground (arith, lt) in
    let l = share_of-lt level in
    unfold mc_alloc_node in
    rw (some_nodes, not_many)
      (lm_alloc_lem m (share_of level) n h l (row_fits m (share_of level) n h l lt) room lt)

apart_lem : (p n q n' x : ℕ) → IsApart p n q n' → p ≤ x → x < p + n → q ≤ x → ¬ (x < q + n')
unfolding IsApart
apart_lem p n q n' x (inl a) px xp qx xq = omega arith
apart_lem p n q n' x (inr a) px xp qx xq = omega arith

-- For 1 to 127 nodes, when no block of that many nodes of the share is free and a huge page is left:
-- the block that `mc_alloc_node` returns has no byte in common with any block handed out before, of
-- whatever share.
pub mc_alloc_node_fresh :
    (m : McPriv) (n level : ℕ)
    → IsPriv m
    → 0 < n
    → n < head_num
    → HasRoom m (share_of level)
    → m.free_head (share_of level) n ≡ []
    → (p : ℕ) × (after : McPriv) × (mc_alloc_node m n level ≡ some (p, after))
      × ((i q n' x : ℕ)
          → i < 3
          → IsBlock (m.lm i) q n'
          → p ≤ x
          → x < p + n * node_size
          → q ≤ x
          → ¬ (x < q + n'))
mc_alloc_node_fresh m n level h pos lt room none_free =
    let given = mc_alloc_node_lem m n level h pos lt room in
    let share = share_of level in
    (
      given.p,
      given.after,
      given.returns,
      λ i q n' x l b px xp qx xq. elim (compare_lem i share) [
        | inl before ↦
            color_of_apart given.after i share q given.p n' (n * node_size) x x given.shape before
              (share_of-lt level) (given.kept i q n' b) given.block qx xq px xp refl
        | inr (inl same) ↦
            apart_lem given.p (n * node_size) q n' x (given.fresh none_free q n' (rw same at b)) px
              xp qx xq
        | inr (inr behind) ↦
            color_of_apart given.after share i given.p q (n * node_size) n' x x given.shape behind l
              given.block (given.kept i q n' b) px xp qx xq refl
      ],
    )

-- A block of at most 127 nodes that is given back with the number and the level it was asked for with
-- leaves the state well-formed.
pub mc_dealloc_node-IsPriv :
    (m : McPriv) (n level p : ℕ)
    → IsPriv m
    → n < head_num
    → IsBlock (m.lm (share_of level)) p (n * node_size)
    → (after : McPriv) × (mc_dealloc_node m n level p ≡ some after) × IsPriv after
mc_dealloc_node-IsPriv m n level p h lt b =
    let not_many : ltb 128 n ≡ false = ground (arith, lt) in
    let row : ltb n head_num ≡ true = ground (arith, lt) in
    let share = share_of level in
    let ps = p ∷ m.free_head share n in
    (
      with_free m share n ps,
      unfold mc_dealloc_node in rw (not_many, row) refl,
      with_free-IsPriv m share n ps h (b, h.frees share n (share_of-lt level) lt),
    )

free_self :
    (m : McPriv) (share n : ℕ) (ps : List ℕ) → (with_free m share n ps).free_head share n ≡ ps
free_self m share n ps = ground arith

free_back :
    (m : McPriv) (share n : ℕ) (ps : List ℕ) (i j : ℕ)
    → (with_free (with_free m share n ps) share n (m.free_head share n)).free_head i j
      ≡ m.free_head i j
free_back m share n ps i j = elim (Bool-cases (i == share && j == n)) [
  | inl e ↦
      let same : i ≡ share = ground arith in
      let same' : j ≡ n = ground arith in rw (e, same, same') refl
  | inr e ↦ rw e refl
]

-- `ps` is what was free for so many nodes.
reuse_lem :
    (m : McPriv) (share n p : ℕ) (ps : List ℕ)
    → m.free_head share n ≡ p ∷ ps
    → n < head_num
    → lm_alloc m n share ≡ some (p, zeroed (with_free m share n ps) p (n * node_size))
reuse_lem m share n p ps e lt =
    let row : ltb n head_num ≡ true = ground (arith, lt) in unfold lm_alloc in rw (row, e) refl

-- For 1 to 127 nodes: a block given back is what the next call of `mc_alloc_node` for as many nodes on
-- the same level returns, with all its bytes zero; the free lists and the areas are then as before.
pub mc_alloc_node-mc_dealloc_node :
    (m : McPriv) (n level p : ℕ)
    → 0 < n
    → n < head_num
    → (after : McPriv) × ((mc_dealloc_node m n level p >>= λ freed. mc_alloc_node freed n level)
        ≡ some (p, after))
      × ((x : ℕ) → p ≤ x → x < p + n * node_size → after.bytes x ≡ 0)
      × ((i j : ℕ) → after.free_head i j ≡ m.free_head i j)
      × ((i : ℕ) → after.lm i ≡ m.lm i)
mc_alloc_node-mc_dealloc_node m n level p pos lt =
    let some_nodes : (n == 0) ≡ false = ground (arith, pos) in
    let not_many : ltb 128 n ≡ false = ground (arith, lt) in
    let row : ltb n head_num ≡ true = ground (arith, lt) in
    let share = share_of level in
    let ps = m.free_head share n in
    let freed = with_free m share n (p ∷ ps) in
    (
      zeroed (with_free freed share n ps) p (n * node_size),
      unfold mc_dealloc_node in
          unfold mc_alloc_node in
          rw (not_many, row, some_nodes)
            (reuse_lem freed share n p ps (free_self m share n (p ∷ ps)) lt),
      λ x from to. ground arith,
      λ i j. free_back m share n (p ∷ ps) i j,
      λ i. refl,
    )

-- No nodes, or more than 128, are refused: the result is NULL and the state is unchanged, and giving
-- back more than 128 changes nothing. 128 nodes pass the guards of both functions and then index
-- `free_head` behind the end of a row.
pub mc_alloc_node_of_bad :
    (m : McPriv) (level p : ℕ)
    → (mc_alloc_node m 0 level ≡ some (0, m))
      × ((n : ℕ)
          → 128 < n
          → (mc_alloc_node m n level ≡ some (0, m)) × (mc_dealloc_node m n level p ≡ some m))
      × (mc_alloc_node m 128 level ≡ none)
      × (mc_dealloc_node m 128 level p ≡ none)
unfolding mc_alloc_node mc_dealloc_node lm_alloc
mc_alloc_node_of_bad m level p = (
  refl,
  λ n l.
      let many : ltb 128 n ≡ true = ground (arith, l) in
      let some_nodes : (n == 0) ≡ false = ground (arith, l) in
      (rw (some_nodes, many) refl, rw many refl),
  refl,
  refl,
)
