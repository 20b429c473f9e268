-- ===== src/TreeFunction/Equal.antt =====
-- The table `fct` holds the positions that the loop tries, so both versions of `tree_function` agree.
use native.Mathlib.Nat.{pow-suc}
use native.Mathlib.Decide.{ℕ_discrete}
use prefix_lookup_mc.Base.{
  ℕ, zero, suc, ◌+◌, ◌/◌, ◌^◌, ◌<◌, ◌≤◌, ◌≡◌, refl, ap, ◌∙◌, arith, Bool, true, false, ◌&&◌, ◌||◌,
  none, ◌==◌, Bool-cases, inl, inr, bit_and,
}
use prefix_lookup_mc.Bits.{count_inl_bitmap, set_bitmap}
use prefix_lookup_mc.Bits.Digits.{bit, set_bit, bit-set_bit_self, bit-set_bit_ne, zero-bit}
use prefix_lookup_mc.Bits.Words.{
  count_inl_bitmap_lem, count_inl_bitmap-lt, test_bitmap_lem, set_bitmap_lem, bit-bit_and,
  bit_and-le,
}
use prefix_lookup_mc.TreeFunction.{fct, fct_loop, tree_function, tree_function_slow, match_loop}
use prefix_lookup_mc.TreeFunction.Highest.{highest, highest_lem, highest-none}

-- Whether the loop with `i` rounds left tries position `q`.
tried : ℕ → ℕ → ℕ → Bool
tried zero stride q = false
tried (suc i) stride q = count_inl_bitmap (stride / 2) i == q || tried i (stride / 2) q

-- The positions of shorter matches are lower.
tried-lt : (i stride q : ℕ) → i ≤ 6 → stride < 2 ^ i → tried i stride q ≡ true → q + 1 < 2 ^ i
unfolding tried
tried-lt zero stride q h k e = absurd (ground arith)
tried-lt (suc i) stride q h k e =
    let half : stride / 2 < 2 ^ i = omega (arith, pow-suc 2 i) in
    let here = count_inl_bitmap_lem (stride / 2) i (omega arith) half in
    elim (Bool-cases (tried i (stride / 2) q)) [
      | inl deeper ↦ omega (arith, pow-suc 2 i, tried-lt i (stride / 2) q (omega arith) half deeper)
      | inr no_deeper ↦
          let at : count_inl_bitmap (stride / 2) i ≡ q = ground arith in
          omega (arith, pow-suc 2 i, here, at)
    ]

-- The table's entry for a stride has the bits of the positions tried for it.
bit-fct_loop :
    (i stride entry q : ℕ)
    → bit (fct_loop i (stride / 2) entry) q ≡ (bit entry q || tried i stride q)
unfolding fct_loop tried
bit-fct_loop zero stride entry q = ground arith
bit-fct_loop (suc i) stride entry q =
    rw
      (
        bit-fct_loop i (stride / 2) (set_bitmap entry (count_inl_bitmap (stride / 2) i)) q,
        set_bitmap_lem entry (count_inl_bitmap (stride / 2) i),
      )
      (elim (ℕ_discrete (count_inl_bitmap (stride / 2) i) q) [
        | yes e ↦
            let on : bit (set_bit entry (count_inl_bitmap (stride / 2) i)) q ≡ true =
              rw (← e) (bit-set_bit_self entry (count_inl_bitmap (stride / 2) i)) in
            rw on (ground arith)
        | no ne ↦ rw (bit-set_bit_ne entry (count_inl_bitmap (stride / 2) i) q ne) (ground arith)
      ])

-- If a word has the bits of a bitmap at the positions tried, its highest bit is the loop's result.
highest-match_loop :
    (i stride bitmap x : ℕ)
    → i ≤ 6
    → stride < 2 ^ i
    → x < 2 ^ 64
    → ((q : ℕ) → q < 64 → bit x q ≡ (tried i stride q && bit bitmap q))
    → highest x ≡ match_loop i stride bitmap
unfolding match_loop tried
highest-match_loop zero stride bitmap x h k fits same = highest-none x fits same
highest-match_loop (suc i) stride bitmap x h k fits same =
    let half : stride / 2 < 2 ^ i = omega (arith, pow-suc 2 i) in
    let p = count_inl_bitmap (stride / 2) i in
    let here = count_inl_bitmap_lem (stride / 2) i (omega arith) half in
    let low = count_inl_bitmap-lt (stride / 2) i (omega arith) half in
    rw (test_bitmap_lem bitmap p) (elim (Bool-cases (bit bitmap p)) [
      | inl on ↦ rw on (
          highest_lem x p (omega arith) (ground (arith, same p)) λ q above l.
            elim (Bool-cases (tried i (stride / 2) q)) [
              | inl deeper ↦
                  absurd (omega (arith, here, tried-lt i (stride / 2) q (omega arith) half deeper))
              | inr none_deeper ↦ ground (arith, same q)
            ])
      | inr off ↦ rw off (
          highest-match_loop i (stride / 2) bitmap x (omega arith) half fits λ q l.
            elim (ℕ_discrete p q) [
              | yes e ↦ let off' : bit bitmap q ≡ false = rw (← e) off in ground (arith, same q)
              | no ne ↦ ground (arith, same q)
            ])
    ])

-- The version with the table is the loop.
pub tree_function_lem :
    (bitmap stride : ℕ)
    → bitmap < 2 ^ 64
    → stride < 64
    → tree_function bitmap stride ≡ match_loop 6 stride bitmap
unfolding tree_function fct
tree_function_lem bitmap stride h k =
    highest-match_loop 6 stride bitmap (bit_and (fct_loop 6 (stride / 2) 0) bitmap) (omega arith) k
      (omega (arith, bit_and-le bitmap (fct_loop 6 (stride / 2) 0) bitmap (omega arith)))
      (λ q l.
        bit-bit_and (fct_loop 6 (stride / 2) 0) bitmap q
        ∙ rw (bit-fct_loop 6 stride 0 q, zero-bit q))

match_loop-zero : (i stride : ℕ) → match_loop i stride 0 ≡ none
unfolding match_loop
match_loop-zero zero stride = refl
match_loop-zero (suc i) stride =
    rw (test_bitmap_lem 0 (count_inl_bitmap (stride / 2) i), zero-bit)
      (match_loop-zero i (stride / 2))

-- The version with the table and the version with the loop return the same position, for every
-- 64-bit bitmap and every stride.
pub tree_function-slow :
    (bitmap stride : ℕ)
    → bitmap < 2 ^ 64
    → stride < 64
    → tree_function bitmap stride ≡ tree_function_slow bitmap stride
unfolding tree_function_slow
tree_function-slow bitmap stride h k = elim (Bool-cases (bitmap == 0)) [
  | inr e ↦ rw e (tree_function_lem bitmap stride h k)
  | inl e ↦
      let z : bitmap ≡ 0 = ground arith in
      rw e (
        tree_function_lem bitmap stride h k ∙ ap (match_loop 6 stride) z ∙ match_loop-zero 6 stride)
]
