-- ===== src/V6/Tabled.antt =====
-- What the table of tbm/tbmv6.c asks of a struct ip_v6 in its updates.
use prefix_lookup_mc.Base.{ℕ, ◌+◌, ◌*◌, ◌/◌, ◌%◌, ◌^◌, ◌≡◌, refl, ap, ◌∙◌, arith, bit_or}
use prefix_lookup_mc.Bits.Shifted.{bit_or-shifted}
use prefix_lookup_mc.V6.{IpV6, v6, shr64, shl64, lshift_ipv6, rshift_ipv6}
use prefix_lookup_mc.V6.Laws.{Words, value_v6, v6_word}
use prefix_lookup_mc.Tbm.{index_of}
use prefix_lookup_mc.Tbm.Laws.{IsTabled}

index_v6 : (ip : IpV6) → Words ip → index_of v6 ip ≡ value_v6 ip / 2 ^ 115
unfolding rshift_ipv6 shr64
index_v6 ip h = omega (arith, h.low, h.high)

rest_high :
    (ip : IpV6) → Words ip → (lshift_ipv6 ip 13).iphi ≡ ip.iphi % 2 ^ 51 * 2 ^ 13 + ip.iplo / 2 ^ 51
unfolding lshift_ipv6 shl64 shr64
rest_high ip h =
    let moved : shl64 ip.iphi 13 ≡ ip.iphi % 2 ^ 51 * 2 ^ 13 = omega arith in
    ap (λ (t : ℕ). bit_or t (ip.iplo / 2 ^ 51)) moved
    ∙ bit_or-shifted 13 (ip.iphi % 2 ^ 51) (ip.iplo / 2 ^ 51) (omega (arith, h.low))

rest_low : (ip : IpV6) → (lshift_ipv6 ip 13).iplo ≡ ip.iplo * 2 ^ 13 % 2 ^ 64
unfolding lshift_ipv6 shl64
rest_low ip = omega arith

pub rest_v6-fits : (ip : IpV6) → Words ip → Words (lshift_ipv6 ip 13)
rest_v6-fits ip h = record {
  low = omega (arith, rest_low ip);
  high = omega (arith, rest_high ip h, h.low);
}

rest_v6 : (ip : IpV6) → Words ip → value_v6 (lshift_ipv6 ip 13) ≡ value_v6 ip * 2 ^ 13 % 2 ^ 128
rest_v6 ip h = omega (arith, rest_low ip, rest_high ip h, h.low, h.high)

pub v6_tabled : IsTabled v6 v6_word
unfolding v6_word
v6_tabled = record {
  long = omega arith;
  short = omega arith;
  deep = omega arith;
  index-value = index_v6;
  rest-IsIp = rest_v6-fits;
  rest-value = rest_v6;
  zero-IsIp = record { low = omega arith; high = omega arith };
  zero-value = refl;
  at = λ x. record { iplo = x % 2 ^ 64; iphi = x / 2 ^ 64 };
  at-IsIp = λ x h. record { low = omega arith; high = omega (arith, h) };
  at-value = λ x h. omega arith;
}
