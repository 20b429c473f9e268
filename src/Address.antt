-- ===== src/Address.antt =====
-- What the trie code asks of an address: its leading bits, and a shift to the left.
-- bitmap_v4.c does this on a uint32_t, bitmap_v6.c on two uint64_t; the walks are the same.
pub mod Word
use prefix_lookup_mc.Base.{ℕ, ◌-◌, ◌/◌, ◌%◌, ◌^◌, ◌≤◌, ◌<◌, ◌≡◌, u8_mod}
use prefix_lookup_mc.Bits.{count_inl_bitmap, count_enl_bitmap}

pub record Address : Type 1 where
  pub Ip : Type 0
  -- LENGTH, the width in bits, and the number of strides, LEVEL
  pub width : ℕ
  pub levels : ℕ
  pub zero_ip : Ip
  -- the lowest word of `ip >> (LENGTH - k)`, the `k` leading bits
  pub head : Ip → ℕ → ℕ
  -- `ip <<= k`
  pub shift_by : Ip → ℕ → Ip
  -- `ip | bits << k`
  pub or_bits : Ip → ℕ → ℕ → Ip

-- The leading bits as the uint8_t `stride`, and the next stride's address.
abbrev pub stride_of : (a : Address) → a.Ip → ℕ → ℕ
stride_of a ip k = a.head ip k % u8_mod

abbrev pub shift : (a : Address) → a.Ip → a.Ip
shift a ip = a.shift_by ip 6

-- The laws. `IsIp` is the range of the words, and `IsMasked ip cidr` says that the bits of the host
-- part are zero, which the callers must see to.
pub record IsAddress (a : Address) : Type 1 where
  pub IsIp : a.Ip → Type 0
  pub IsMasked : a.Ip → ℕ → Type 0
  pub shift-IsIp : (ip : a.Ip) → IsIp ip → IsIp (shift a ip)
  pub shift-IsMasked :
      (ip : a.Ip) (cidr : ℕ) → IsMasked ip cidr → 6 ≤ cidr → IsMasked (shift a ip) (cidr - 6)
  pub masked-IsIp : (ip : a.Ip) (cidr : ℕ) → IsMasked ip cidr → IsIp ip
  pub stride-lt : (ip : a.Ip) → IsIp ip → stride_of a ip 6 < 64
  pub masked_head :
      (ip : a.Ip) (cidr : ℕ)
      → IsMasked ip cidr
      → cidr < 6
      → stride_of a ip cidr ≡ stride_of a ip 6 / 2 ^ (6 - cidr)

-- The position of a rule and of a child, as the uint8_t that the walks keep it in.
abbrev pub inl_pos : (a : Address) → a.Ip → ℕ → ℕ
inl_pos a ip cidr = count_inl_bitmap (stride_of a ip cidr) cidr % u8_mod

abbrev pub enl_pos : (a : Address) → a.Ip → ℕ
enl_pos a ip = count_enl_bitmap (stride_of a ip 6) % u8_mod

-- `Covers p k ip` says that the address `ip` is under the prefix `p` of `k` bits.
pub record Covering (a : Address) : Type 1 where
  pub Covers : a.Ip → ℕ → a.Ip → Type 0
  pub covers-head :
      (p : a.Ip) (k : ℕ) (ip : a.Ip)
      → Covers p k ip
      → k < 6
      → stride_of a ip 6 / 2 ^ (6 - k) ≡ stride_of a p 6 / 2 ^ (6 - k)
  pub covers-stride :
      (p : a.Ip) (k : ℕ) (ip : a.Ip) → Covers p k ip → 6 ≤ k → stride_of a ip 6 ≡ stride_of a p 6
  pub covers-shift :
      (p : a.Ip) (k : ℕ) (ip : a.Ip)
      → Covers p k ip
      → 6 ≤ k
      → Covers (shift a p) (k - 6) (shift a ip)
