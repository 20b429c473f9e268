-- ===== src/V6.antt =====
-- The addresses of lib/bitmap_v6.c: two uint64_t, and the shifts of 128 bits over them. Where C leaves a
-- shift by the width undefined the count is taken modulo 64, as the processor does.
pub mod Laws
pub mod Tabled
pub mod Shifts
pub mod Trie
use prefix_lookup_mc.Base.{ℕ, ◌-◌, ◌*◌, ◌/◌, ◌%◌, ◌^◌, bit_or, ltb, if◌then◌else◌}
use prefix_lookup_mc.Address.{Address}

pub record IpV6 : Type 0 where
  pub iplo : ℕ
  pub iphi : ℕ

abbrev pub length_v6 : ℕ
length_v6 = 128

unfoldable pub shr64 : ℕ → ℕ → ℕ
shr64 x k = x / 2 ^ (k % 64)

unfoldable pub shl64 : ℕ → ℕ → ℕ
shl64 x k = x * 2 ^ (k % 64) % 2 ^ 64

unfoldable pub lshift_ipv6 : IpV6 → ℕ → IpV6
lshift_ipv6 ip bits =
    if ltb bits 64
    then record {
      iplo = shl64 ip.iplo bits;
      iphi = bit_or (shl64 ip.iphi bits) (shr64 ip.iplo (64 - bits));
    }
    else if ltb 64 bits
    then record { iplo = 0; iphi = shl64 ip.iplo (bits - 64) }
    else record { iplo = 0; iphi = ip.iplo }

unfoldable pub rshift_ipv6 : IpV6 → ℕ → IpV6
rshift_ipv6 ip bits =
    if ltb bits 64
    then record {
      iplo = bit_or (shr64 ip.iplo bits) (shl64 ip.iphi (64 - bits));
      iphi = shr64 ip.iphi bits;
    }
    else if ltb 64 bits
    then record { iplo = shr64 ip.iphi (bits - 64); iphi = 0 }
    else record { iplo = ip.iphi; iphi = 0 }

abbrev pub null_ip : IpV6
null_ip = record { iplo = 0; iphi = 0 }

-- `stride_bits`, shifted into place, or-ed into both words.
unfoldable pub or_bits_v6 : IpV6 → ℕ → ℕ → IpV6
or_bits_v6 ip bits k =
    let placed = lshift_ipv6 (record { iplo = bits; iphi = 0 }) k in
    record { iplo = bit_or ip.iplo placed.iplo; iphi = bit_or ip.iphi placed.iphi }

-- LENGTH_v6 is 128, LEVEL_v6 is 128 / 6 + 1.
abbrev pub v6 : Address
v6 = record {
  Ip = IpV6;
  width = length_v6;
  levels = 22;
  zero_ip = null_ip;
  head = λ ip k. (rshift_ipv6 ip (length_v6 - k)).iplo;
  shift_by = lshift_ipv6;
  or_bits = or_bits_v6;
}
