-- ===== src/Bits.antt =====
-- The bitmaps of a multi-bit node: the inline functions of lib/mb_node.h on a BITMAP_TYPE, which is
-- a uint64_t (STRIDE is 6, BITMAP_BITS 64). A position is below 64, so `1ULL << pos` is `2 ^ pos`.
mod Step
pub mod Digits
pub mod Words
pub mod Packed
pub mod Shifted
use prefix_lookup_mc.Base.{
  ℕ, zero, suc, ◌+◌, ◌-◌, ◌/◌, ◌%◌, ◌^◌, bit_and, bit_or, Bool, not, ◌==◌, if◌then◌else◌, Option,
  none, some,
}

abbrev pub stride_bits : ℕ
stride_bits = 6

abbrev pub bitmap_bits : ℕ
bitmap_bits = 64

-- `__builtin_popcountl`, over a word of `w` bits
unfoldable pub popcount : ℕ → ℕ → ℕ
popcount zero b = 0
popcount (suc w) b = b % 2 + popcount w (b / 2)

-- The bits set at `pos` and above, less one: `none` is the -1 of a count of no bit.
unfoldable pub count_ones : ℕ → ℕ → Option ℕ
count_ones bitmap pos =
    let n = popcount bitmap_bits (bitmap / 2 ^ pos) in if n == 0 then none else some (n - 1)

unfoldable pub count_children : ℕ → ℕ
count_children bitmap = popcount bitmap_bits bitmap

-- The position of the rule `bits/cidr` of a node, a uint32_t.
unfoldable pub count_inl_bitmap : ℕ → ℕ → ℕ
count_inl_bitmap bits cidr = ((2 ^ cidr + bits) % 2 ^ 32 + 2 ^ 32 - 1) % 2 ^ 32

abbrev pub count_enl_bitmap : ℕ → ℕ
count_enl_bitmap bits = bits

-- The masked word is tested against 0 by every caller.
unfoldable pub test_bitmap : ℕ → ℕ → Bool
test_bitmap bitmap pos = not (bit_and bitmap (2 ^ pos) == 0)

unfoldable pub set_bitmap : ℕ → ℕ → ℕ
set_bitmap bitmap pos = bit_or bitmap (2 ^ pos)

unfoldable pub clear_bitmap : ℕ → ℕ → ℕ
clear_bitmap bitmap pos = bit_and bitmap (2 ^ bitmap_bits - 1 - 2 ^ pos)
