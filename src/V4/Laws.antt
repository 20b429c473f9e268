-- ===== src/V4/Laws.antt =====
-- A uint32_t address is a word of 32 bits, so it obeys the laws that the walks rely on.
use prefix_lookup_mc.Base.{ℕ, zero, suc, ◌-◌, ◌*◌, ◌/◌, ◌%◌, ◌^◌, ◌≤◌, ◌<◌, ◌≡◌, arith}
use prefix_lookup_mc.Address.{IsAddress, Covering, stride_of, shift}
use prefix_lookup_mc.Address.Word.{IsWord, word_laws, word_covering}
use prefix_lookup_mc.V4.{v4, shr32, shl32}

pub v4_stride : (ip k : ℕ) → ip < 2 ^ 32 → 1 ≤ k → k ≤ 6 → stride_of v4 ip k ≡ ip / 2 ^ (32 - k)
unfolding shr32
v4_stride ip zero h l u = absurd (omega arith)
v4_stride ip (suc zero) h l u = omega arith
v4_stride ip (suc (suc zero)) h l u = omega arith
v4_stride ip (suc (suc (suc zero))) h l u = omega arith
v4_stride ip (suc (suc (suc (suc zero)))) h l u = omega arith
v4_stride ip (suc (suc (suc (suc (suc zero))))) h l u = omega arith
v4_stride ip (suc (suc (suc (suc (suc (suc zero)))))) h l u = omega arith
v4_stride ip (suc (suc (suc (suc (suc (suc (suc k))))))) h l u = absurd (omega arith)

pub v4_stride_zero : (ip : ℕ) → ip < 2 ^ 32 → ip ≡ 0 → stride_of v4 ip 0 ≡ 0
unfolding shr32
v4_stride_zero ip h e = omega arith

pub v4-shift : (ip : ℕ) → ip < 2 ^ 32 → shift v4 ip ≡ ip * 64 % 2 ^ 32
unfolding shl32
v4-shift ip h = omega arith

pub v4-shift_fits : (ip : ℕ) → ip < 2 ^ 32 → shift v4 ip < 2 ^ 32
unfolding shl32
v4-shift_fits ip h = omega arith

unfoldable pub v4_word : IsWord v4
v4_word = record {
  IsIp = λ ip. ip < 2 ^ 32;
  value = λ ip. ip;
  wide = omega arith;
  value-lt = λ ip h. h;
  shift-IsIp = v4-shift_fits;
  value-shift = v4-shift;
  stride-value = v4_stride;
  stride_of_zero = v4_stride_zero;
}

unfoldable pub v4_laws : IsAddress v4
v4_laws = word_laws v4 v4_word

unfoldable pub v4_covering : Covering v4
v4_covering = word_covering v4 v4_word
