-- ===== src/V4.antt =====
-- The addresses of lib/bitmap_v4.c: a uint32_t. Where C leaves a shift by the width undefined the count
-- is taken modulo 32, as the processor does; under the masking that callers see to, the word is 0 then.
pub mod Laws
pub mod Tabled
use prefix_lookup_mc.Base.{ℕ, ◌-◌, ◌*◌, ◌/◌, ◌%◌, ◌^◌, bit_or}
use prefix_lookup_mc.Address.{Address}

abbrev pub length_v4 : ℕ
length_v4 = 32

unfoldable pub shr32 : ℕ → ℕ → ℕ
shr32 x k = x / 2 ^ (k % 32)

unfoldable pub shl32 : ℕ → ℕ → ℕ
shl32 x k = x * 2 ^ (k % 32) % 2 ^ 32

-- LENGTH is 32, LEVEL is 32 / 6 + 1.
abbrev pub v4 : Address
v4 = record {
  Ip = ℕ;
  width = length_v4;
  levels = 6;
  zero_ip = 0;
  head = λ ip k. shr32 ip (length_v4 - k);
  shift_by = shl32;
  or_bits = λ ip bits k. bit_or ip (shl32 bits k);
}
