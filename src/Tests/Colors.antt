-- ===== src/Tests/Colors.antt =====
-- The colour allocator on a mapping whose huge pages are backed by pages 5, 8, 3 and so on.
use prefix_lookup_mc.Base.{
  ℕ, ◌<◌, ◌≤◌, ◌+◌, ◌%◌, ◌*◌, ◌≡◌, ◌≢◌, refl, some, none, List, [], ◌∷◌, arith, true, ◌>>=◌, length,
  replicate, ◌^◌,
}
use prefix_lookup_mc.Mm.{node_size}
use prefix_lookup_mc.Color.{
  McPriv, LmArea, init_shares, mapped_priv, with_lm, mc_alloc_node, mc_dealloc_node, mc_init,
  share_of, page_colors, last_area,
}
use prefix_lookup_mc.Color.Shape.{IsPriv, IsBlock, Rising, color_of, color_of_apart}
use prefix_lookup_mc.Color.Alloc.{filled, fill-IsArea, set-IsBlock, with_lm-IsPriv}
use prefix_lookup_mc.Color.Fill.{Given}
use prefix_lookup_mc.Color.Give.{HasRoom}
use prefix_lookup_mc.Color.Calls.{
  mc_alloc_node_lem, mc_alloc_node_fresh, mc_dealloc_node-IsPriv, mc_alloc_node-mc_dealloc_node,
  mc_alloc_node_of_bad,
}
use prefix_lookup_mc.Color.Start.{init_shares-IsPriv, mc_init-IsPriv}

abbrev pfns : List ℕ
pfns = 5 ∷ (8 ∷ (3 ∷ (0 ∷ [])))

abbrev started : McPriv
started = init_shares 3 0 0 (5 % page_colors) (mapped_priv 65536 pfns (λ x. 7))

started-IsPriv : IsPriv started
started-IsPriv = init_shares-IsPriv (mapped_priv 65536 pfns (λ x. 7)) 5 refl (λ i j. refl)

-- Two nodes of the first share and three of the last are in use.
abbrev first_area : LmArea
first_area = record { start = 65536; alloc = 65536; left = 8192 }

abbrev third_area : LmArea
third_area = record { start = 94208; alloc = 94208; left = 4096 }

abbrev one_used : McPriv
one_used = with_lm started 0 (filled first_area 48 ∷ [])

abbrev used : McPriv
used = with_lm one_used 2 (filled third_area 72 ∷ [])

one_used-IsPriv : IsPriv one_used
unfolding init_shares Rising
one_used-IsPriv =
    with_lm-IsPriv started 0 (filled first_area 48 ∷ []) started-IsPriv
      (
        fill-IsArea 65536 pfns (started.cs 0) first_area 48
            ((started-IsPriv.areas 0 (omega arith)).0) (omega arith),
        tt,
      )
      (tt, tt) (omega arith) (λ p n b. set-IsBlock (started.lm 0) 0 first_area 48 p n refl b)

used-IsPriv : IsPriv used
unfolding init_shares Rising
used-IsPriv =
    with_lm-IsPriv one_used 2 (filled third_area 72 ∷ []) one_used-IsPriv
      (
        fill-IsArea 65536 pfns (one_used.cs 2) third_area 72
            ((one_used-IsPriv.areas 2 (omega arith)).0) (omega arith),
        tt,
      )
      (tt, tt) (omega arith) (λ p n b. set-IsBlock (one_used.lm 2) 0 third_area 72 p n refl b)

first_block : IsBlock (used.lm 0) 65536 48
unfolding init_shares
first_block = record {
  k = 0;
  area = filled first_area 48;
  there = refl;
  from = omega arith;
  to = omega arith;
}

third_block : IsBlock (used.lm (share_of 7)) 94208 72
unfolding init_shares share_of
third_block = record {
  k = 0;
  area = filled third_area 72;
  there = refl;
  from = omega arith;
  to = omega arith;
}

used-HasRoom : HasRoom used (share_of 0)
unfolding HasRoom init_shares last_area share_of
used-HasRoom last e = let start : 65536 ≡ last.start = ground arith in omega arith

color_of_apart_example : color_of used 65540 ≢ color_of used 94210
unfolding share_of
color_of_apart_example =
    color_of_apart used 0 2 65536 94208 48 72 65540 94210 used-IsPriv (omega arith) (omega arith)
      first_block third_block (omega arith) (omega arith) (omega arith) (omega arith)

mc_alloc_node_lem_example : Given used (share_of 0) 3 (mc_alloc_node used 3 0)
mc_alloc_node_lem_example =
    mc_alloc_node_lem used 3 0 used-IsPriv (omega arith) (omega arith) used-HasRoom

mc_alloc_node_fresh_example :
    (p : ℕ) × (after : McPriv) × (mc_alloc_node used 3 0 ≡ some (p, after))
    × ((i q n' x : ℕ)
        → i < 3
        → IsBlock (used.lm i) q n'
        → p ≤ x
        → x < p + 3 * node_size
        → q ≤ x
        → ¬ (x < q + n'))
unfolding init_shares share_of
mc_alloc_node_fresh_example =
    mc_alloc_node_fresh used 3 0 used-IsPriv (omega arith) (omega arith) used-HasRoom refl

mc_dealloc_node-IsPriv_example :
    (after : McPriv) × (mc_dealloc_node used 3 7 94208 ≡ some after) × IsPriv after
mc_dealloc_node-IsPriv_example =
    mc_dealloc_node-IsPriv used 3 7 94208 used-IsPriv (omega arith) third_block

mc_alloc_node-mc_dealloc_node_example :
    (after : McPriv) × ((mc_dealloc_node used 3 7 94208 >>= λ freed. mc_alloc_node freed 3 7)
      ≡ some (94208, after))
    × ((x : ℕ) → 94208 ≤ x → x < 94208 + 3 * node_size → after.bytes x ≡ 0)
    × ((i j : ℕ) → after.free_head i j ≡ used.free_head i j)
    × ((i : ℕ) → after.lm i ≡ used.lm i)
mc_alloc_node-mc_dealloc_node_example =
    mc_alloc_node-mc_dealloc_node used 3 7 94208 (omega arith) (omega arith)

mc_alloc_node_of_bad_example :
    (mc_alloc_node used 0 1 ≡ some (0, used))
    × ((n : ℕ)
        → 128 < n
        → (mc_alloc_node used n 1 ≡ some (0, used)) × (mc_dealloc_node used n 1 65536 ≡ some used))
    × (mc_alloc_node used 128 1 ≡ none)
    × (mc_dealloc_node used 128 1 65536 ≡ none)
mc_alloc_node_of_bad_example = mc_alloc_node_of_bad used 1 65536

mc_init-IsPriv_example :
    (m : McPriv) × (mc_init true
        (some 65536)
        (some (2 ^ 63 + 5) ∷ (some 9 ∷ (none ∷ [])))
        (replicate 16 7)
        (λ x. 1)
      ≡ some m)
    × IsPriv m
    × ((i j : ℕ) → m.free_head i j ≡ [])
    × ((i : ℕ) → i < 3 → length (m.lm i) ≡ 1)
mc_init-IsPriv_example =
    mc_init-IsPriv 65536 (some (2 ^ 63 + 5) ∷ (some 9 ∷ (none ∷ []))) (replicate 16 7) (λ x. 1) refl
