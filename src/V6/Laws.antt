-- ===== src/V6/Laws.antt =====
-- The two words of a struct ip_v6 are a word of 128 bits: the shifts compute on it, so the address
-- obeys the laws that the walks rely on.
use prefix_lookup_mc.Base.{
  ℕ, zero, suc, ◌+◌, ◌-◌, ◌*◌, ◌/◌, ◌%◌, ◌^◌, ◌≤◌, ◌<◌, ◌≡◌, ap, ◌∙◌, arith, bit_or,
}
use prefix_lookup_mc.Address.{IsAddress, Covering, stride_of, shift}
use prefix_lookup_mc.Address.Word.{IsWord, word_laws, word_covering}
use prefix_lookup_mc.Bits.Shifted.{bit_or-shifted}
use prefix_lookup_mc.V6.{IpV6, v6, shr64, shl64, lshift_ipv6, rshift_ipv6}

pub record Words (ip : IpV6) : Type 0 where
  pub low : ip.iplo < 2 ^ 64
  pub high : ip.iphi < 2 ^ 64

abbrev pub value_v6 : IpV6 → ℕ
value_v6 ip = ip.iphi * 2 ^ 64 + ip.iplo

high_word : (ip : IpV6) → Words ip → (shift v6 ip).iphi ≡ ip.iphi % 2 ^ 58 * 64 + ip.iplo / 2 ^ 58
unfolding lshift_ipv6 shl64 shr64
high_word ip h =
    let moved : shl64 ip.iphi 6 ≡ ip.iphi % 2 ^ 58 * 2 ^ 6 = omega arith in
    ap (λ (t : ℕ). bit_or t (ip.iplo / 2 ^ 58)) moved
    ∙ bit_or-shifted 6 (ip.iphi % 2 ^ 58) (ip.iplo / 2 ^ 58) (omega (arith, h.low))

low_word : (ip : IpV6) → (shift v6 ip).iplo ≡ ip.iplo * 64 % 2 ^ 64
unfolding lshift_ipv6 shl64
low_word ip = omega arith

pub v6-shift_fits : (ip : IpV6) → Words ip → Words (shift v6 ip)
v6-shift_fits ip h = record {
  low = omega (arith, low_word ip);
  high = omega (arith, high_word ip h, h.low);
}

pub v6-shift : (ip : IpV6) → Words ip → value_v6 (shift v6 ip) ≡ value_v6 ip * 64 % 2 ^ 128
v6-shift ip h = omega (arith, low_word ip, high_word ip h, h.low, h.high)

pub v6_stride :
    (ip : IpV6) (k : ℕ) → Words ip → 1 ≤ k → k ≤ 6 → stride_of v6 ip k ≡ value_v6 ip / 2 ^ (128 - k)
unfolding rshift_ipv6 shr64
v6_stride ip zero h l u = absurd (omega arith)
v6_stride ip (suc zero) h l u = omega (arith, h.low, h.high)
v6_stride ip (suc (suc zero)) h l u = omega (arith, h.low, h.high)
v6_stride ip (suc (suc (suc zero))) h l u = omega (arith, h.low, h.high)
v6_stride ip (suc (suc (suc (suc zero)))) h l u = omega (arith, h.low, h.high)
v6_stride ip (suc (suc (suc (suc (suc zero))))) h l u = omega (arith, h.low, h.high)
v6_stride ip (suc (suc (suc (suc (suc (suc zero)))))) h l u = omega (arith, h.low, h.high)
v6_stride ip (suc (suc (suc (suc (suc (suc (suc k))))))) h l u = absurd (omega arith)

pub v6_stride_zero : (ip : IpV6) → Words ip → value_v6 ip ≡ 0 → stride_of v6 ip 0 ≡ 0
unfolding rshift_ipv6 shr64
v6_stride_zero ip h e = omega arith

unfoldable pub v6_word : IsWord v6
v6_word = record {
  IsIp = Words;
  value = value_v6;
  wide = omega arith;
  value-lt = λ ip h. omega (arith, h.low, h.high);
  shift-IsIp = v6-shift_fits;
  value-shift = v6-shift;
  stride-value = v6_stride;
  stride_of_zero = v6_stride_zero;
}

unfoldable pub v6_laws : IsAddress v6
v6_laws = word_laws v6 v6_word

unfoldable pub v6_covering : Covering v6
v6_covering = word_covering v6 v6_word
