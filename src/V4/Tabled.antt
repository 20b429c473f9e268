-- ===== src/V4/Tabled.antt =====
-- What the table of tbm/tbmv4.c asks of a uint32_t address.
use prefix_lookup_mc.Base.{ℕ, ◌*◌, ◌/◌, ◌%◌, ◌^◌, ◌<◌, ◌≡◌, refl, arith}
use prefix_lookup_mc.V4.{v4, shr32, shl32}
use prefix_lookup_mc.V4.Laws.{v4_word}
use prefix_lookup_mc.Tbm.{index_of}
use prefix_lookup_mc.Tbm.Laws.{IsTabled}

index_v4 : (ip : ℕ) → ip < 2 ^ 32 → index_of v4 ip ≡ ip / 2 ^ 19
unfolding shr32
index_v4 ip h = omega (arith, h)

rest_v4 : (ip : ℕ) → shl32 ip 13 ≡ ip * 2 ^ 13 % 2 ^ 32
unfolding shl32
rest_v4 ip = omega arith

rest_v4-fits : (ip : ℕ) → shl32 ip 13 < 2 ^ 32
unfolding shl32
rest_v4-fits ip = omega arith

pub v4_tabled : IsTabled v4 v4_word
unfolding v4_word
v4_tabled = record {
  long = omega arith;
  short = omega arith;
  deep = omega arith;
  index-value = index_v4;
  rest-IsIp = λ ip h. rest_v4-fits ip;
  rest-value = λ ip h. rest_v4 ip;
  zero-IsIp = omega arith;
  zero-value = refl;
  at = λ x. x;
  at-IsIp = λ x h. h;
  at-value = λ x h. refl;
}
