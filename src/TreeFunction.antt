-- ===== src/TreeFunction.antt =====
-- The longest match inside one node, of lib/mb_node.c: `tree_function` by the table `fct` and by its
-- loop (the two branches of FAST_TREE_FUNCTION), and `find_overlap_in_node`. A stride is below 64.
pub mod Highest
pub mod Equal
pub mod Overlap
use prefix_lookup_mc.Base.{
  ℕ, zero, suc, ◌+◌, ◌-◌, ◌/◌, ◌%◌, ◌^◌, bit_and, Option, none, some, ◌==◌, if◌then◌else◌,
}
use prefix_lookup_mc.Bits.{bitmap_bits, count_inl_bitmap, test_bitmap, set_bitmap}

-- `fast_lookup_init` for one entry: the rounds left are `j + 1`.
unfoldable pub fct_loop : ℕ → ℕ → ℕ → ℕ
fct_loop zero stride entry = entry
fct_loop (suc j) stride entry =
    fct_loop j (stride / 2) (set_bitmap entry (count_inl_bitmap stride j))

unfoldable pub fct : ℕ → ℕ
fct i = fct_loop 6 i 0

-- `__builtin_clzll`: the clear bits above the highest set one, in a word of `w` bits.
unfoldable pub clz : ℕ → ℕ → ℕ
clz zero x = 0
clz (suc w) x = if x / 2 ^ w % 2 == 1 then 0 else suc (clz w x)

-- The position of the longest match, `none` for -1.
unfoldable pub tree_function : ℕ → ℕ → Option ℕ
tree_function bitmap stride =
    let ret = bit_and (fct (stride / 2)) bitmap in
    if ret == 0 then none else some (bitmap_bits - 1 - clz 64 ret)

-- The loop of the version without the table, with `i + 1` rounds left.
unfoldable pub match_loop : ℕ → ℕ → ℕ → Option ℕ
match_loop zero stride bitmap = none
match_loop (suc i) stride bitmap =
    let pos = count_inl_bitmap (stride / 2) i in
    let shorter = match_loop i (stride / 2) bitmap in
    if test_bitmap bitmap pos then some pos else shorter

unfoldable pub tree_function_slow : ℕ → ℕ → Option ℕ
tree_function_slow bitmap stride = if bitmap == 0 then none else match_loop 6 stride bitmap

-- The position and the `*mask` of a match shorter than `i` bits, with `i` rounds left.
unfoldable pub overlap_loop : ℕ → ℕ → ℕ → Option (ℕ × ℕ)
overlap_loop zero stride bitmap = none
overlap_loop (suc i) stride bitmap =
    let pos = count_inl_bitmap (stride / 2) i in
    let shorter = overlap_loop i (stride / 2) bitmap in
    if test_bitmap bitmap pos then some (pos, i) else shorter

unfoldable pub find_overlap_in_node : ℕ → ℕ → ℕ → Option (ℕ × ℕ)
find_overlap_in_node bitmap stride limit_inside =
    if bitmap == 0 then none else overlap_loop limit_inside (stride / 2 ^ (6 - limit_inside)) bitmap
