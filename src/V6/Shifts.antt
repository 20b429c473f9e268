-- ===== src/V6/Shifts.antt =====
-- `lshift_ipv6` and `rshift_ipv6` for all counts: on the word of 128 bits they multiply and divide by a
-- power of 2.
use native.Mathlib.Nat.{
  mod-add-div, mod-lt, add-mul-div_left, div-div-eq-div-mul, div-lt_iff_lt-mul, mul_assoc, mul_comm,
  mul-le-mul_right, div-le_self,
}
use prefix_lookup_mc.Base.{
  ℕ, ◌+◌, ◌-◌, ◌*◌, ◌/◌, ◌%◌, ◌^◌, ◌≤◌, ◌<◌, ◌≡◌, refl, sym, ap, ◌∙◌, arith, bit_or, ltb, true,
  false, inl, inr, ◌⊎◌,
}
use prefix_lookup_mc.Address.Word.{pow-split, pow-pos}
use prefix_lookup_mc.Bits.Shifted.{bit_or-shifted, bit_or-below}
use prefix_lookup_mc.V6.{IpV6, shr64, shl64, lshift_ipv6, rshift_ipv6}
use prefix_lookup_mc.V6.Laws.{Words, value_v6}

-- A word split at `w`, scaled by `u`.
split_scaled : (x u w : ℕ) → x * u ≡ x / w * (w * u) + x % w * u
split_scaled x u w =
    ap (λ (t : ℕ). t * u) (sym (mod-add-div x w))
    ∙ omega (
      arith,
      mul_assoc w (x / w) u,
      mul_comm w (x / w),
      mul_assoc (x / w) w u,
      ap (λ (t : ℕ). t * u) (mul_comm w (x / w)),
    )

-- A remainder below `w`, scaled by `u`, has room for `u` more below `w * u`.
scaled_room : (r u w : ℕ) → r < w → r * u + u ≤ w * u
scaled_room r u w h =
    let more : (r + 1) * u ≤ w * u = mul-le-mul_right u (omega arith) in
    let apart : (r + 1) * u ≡ r * u + u = omega arith in omega (arith, more, apart)

shl_lem : (x u w : ℕ) → w * u ≡ 2 ^ 64 → 0 < w → 0 < u → x * u % 2 ^ 64 ≡ x % w * u
shl_lem x u w e h k = omega (
  arith,
  split_scaled x u w,
  ap (λ (t : ℕ). x / w * t) e,
  mod-lt x h,
  e,
  scaled_room (x % w) u w (mod-lt x h),
  k,
)

-- What a shift leaves is a word of 128 bits of the value `v`.
pub record HasValue (ip : IpV6) (v : ℕ) : Type 0 where
  pub words : Words ip
  pub value : value_v6 ip ≡ v

module _ (ip : IpV6) (h : Words ip) (b : ℕ) where
  module _ (low : 1 ≤ b) (high : b < 64) where
    u : ℕ
    u = 2 ^ b

    w : ℕ
    w = 2 ^ (64 - b)

    whole : w * u ≡ 2 ^ 64
    unfolding u w
    whole = sym (pow-split 64 (64 - b) b (omega arith))

    whole' : u * w ≡ 2 ^ 64
    whole' = mul_comm u w ∙ whole

    u-pos : 0 < u
    unfolding u
    u-pos = pow-pos b

    w-pos : 0 < w
    unfolding w
    w-pos = pow-pos (64 - b)

    count : b % 64 ≡ b
    count = omega arith

    count' : (64 - b) % 64 ≡ 64 - b
    count' = omega arith

    carry : ip.iplo / w < u
    carry = (div-lt_iff_lt-mul w-pos).1 (omega (arith, h.low, whole'))

    carry' : ip.iplo / u < w
    carry' = (div-lt_iff_lt-mul u-pos).1 (omega (arith, h.low, whole))

    lshift_low : (lshift_ipv6 ip b).iplo ≡ ip.iplo % w * u
    unfolding lshift_ipv6 shl64 u w
    lshift_low =
        let short : ltb b 64 ≡ true = ground (arith, high) in
        rw (short, count) (shl_lem ip.iplo u w whole w-pos u-pos)

    lshift_high : (lshift_ipv6 ip b).iphi ≡ ip.iphi % w * u + ip.iplo / w
    unfolding lshift_ipv6 shl64 shr64 u w
    lshift_high =
        let short : ltb b 64 ≡ true = ground (arith, high) in
        rw (short, count, count')
          (ap (λ (t : ℕ). bit_or t (ip.iplo / w)) (shl_lem ip.iphi u w whole w-pos u-pos)
            ∙ bit_or-shifted b (ip.iphi % w) (ip.iplo / w) carry)

    rshift_high : (rshift_ipv6 ip b).iphi ≡ ip.iphi / u
    unfolding rshift_ipv6 shr64 u
    rshift_high = let short : ltb b 64 ≡ true = ground (arith, high) in rw (short, count) refl

    rshift_low : (rshift_ipv6 ip b).iplo ≡ ip.iphi % u * w + ip.iplo / u
    unfolding rshift_ipv6 shl64 shr64 u w
    rshift_low =
        let short : ltb b 64 ≡ true = ground (arith, high) in
        rw (short, count, count')
          (ap (λ (t : ℕ). bit_or (ip.iplo / u) t) (shl_lem ip.iphi w u whole' u-pos w-pos)
            ∙ bit_or-below (64 - b) (ip.iphi % u) (ip.iplo / u) carry')

    scaled : (ip.iphi * 2 ^ 64 + ip.iplo) * u ≡ ip.iphi * u * 2 ^ 64 + ip.iplo * u
    scaled = omega arith

    short_lshift : HasValue (lshift_ipv6 ip b) (value_v6 ip * u % 2 ^ 128)
    short_lshift =
        let hi_room : ip.iphi % w * u + u ≤ w * u =
          scaled_room (ip.iphi % w) u w (mod-lt ip.iphi w-pos) in
        let lo_room : ip.iplo % w * u + u ≤ w * u =
          scaled_room (ip.iplo % w) u w (mod-lt ip.iplo w-pos) in
        let hi : ip.iphi * u ≡ ip.iphi / w * 2 ^ 64 + ip.iphi % w * u =
          split_scaled ip.iphi u w ∙ ap (λ (t : ℕ). ip.iphi / w * t + ip.iphi % w * u) whole in
        let lo : ip.iplo * u ≡ ip.iplo / w * 2 ^ 64 + ip.iplo % w * u =
          split_scaled ip.iplo u w ∙ ap (λ (t : ℕ). ip.iplo / w * t + ip.iplo % w * u) whole in
        record {
          words = record {
            low = omega (arith, lshift_low, lo_room, whole, u-pos);
            high = omega (arith, lshift_high, hi_room, whole, carry);
          };
          value = omega (
            arith, lshift_low, lshift_high, scaled, hi, lo, hi_room, lo_room, whole, carry, u-pos,
          );
        }

    short_rshift : HasValue (rshift_ipv6 ip b) (value_v6 ip / u)
    short_rshift =
        let room : ip.iphi % u * w + w ≤ u * w =
          scaled_room (ip.iphi % u) w u (mod-lt ip.iphi u-pos) in
        let hi : ip.iphi * w ≡ ip.iphi / u * 2 ^ 64 + ip.iphi % u * w =
          split_scaled ip.iphi w u ∙ ap (λ (t : ℕ). ip.iphi / u * t + ip.iphi % u * w) whole' in
        let unfolded : ip.iphi * 2 ^ 64 ≡ u * (ip.iphi * w) =
          ap (λ (t : ℕ). ip.iphi * t) (sym whole) ∙ omega arith in
        let quotient : value_v6 ip / u ≡ ip.iplo / u + ip.iphi * w =
          ap (λ (t : ℕ). t / u) (omega (arith, unfolded))
          ∙ add-mul-div_left ip.iplo (ip.iphi * w) u-pos in
        let small : ip.iphi / u ≤ ip.iphi = div-le_self ip.iphi u in
        record {
          words = record {
            low = omega (arith, rshift_low, room, whole', carry');
            high = omega (arith, rshift_high, h.high, small);
          };
          value = omega (arith, rshift_low, rshift_high, quotient, hi);
        }

  module _ (low : 64 < b) (high : b < 128) where
    c : ℕ
    c = 2 ^ (b - 64)

    power : 2 ^ b ≡ c * 2 ^ 64
    unfolding c
    power = pow-split b (b - 64) 64 (omega arith)

    count_rest : (b - 64) % 64 ≡ b - 64
    count_rest = omega arith

    long_lshift : HasValue (lshift_ipv6 ip b) (value_v6 ip * 2 ^ b % 2 ^ 128)
    unfolding lshift_ipv6 shl64 c
    long_lshift =
        let long : ltb b 64 ≡ false = ground (arith, low) in
        let longer : ltb 64 b ≡ true = ground (arith, low) in
        let scaled' : value_v6 ip * 2 ^ b ≡ ip.iphi * c * 2 ^ 128 + ip.iplo * c * 2 ^ 64 =
          ap (λ (t : ℕ). value_v6 ip * t) power ∙ omega arith in
        rw (long, longer, count_rest)
          (record {
            words = record { low = omega arith; high = omega arith };
            value = omega (arith, scaled');
          })

    long_rshift : HasValue (rshift_ipv6 ip b) (value_v6 ip / 2 ^ b)
    unfolding rshift_ipv6 shr64 c
    long_rshift =
        let long : ltb b 64 ≡ false = ground (arith, low) in
        let longer : ltb 64 b ≡ true = ground (arith, low) in
        let top : value_v6 ip / 2 ^ 64 ≡ ip.iphi = omega (arith, h.low) in
        let quotient : value_v6 ip / 2 ^ b ≡ ip.iphi / c =
          ap (λ (t : ℕ). value_v6 ip / t) (power ∙ mul_comm c (2 ^ 64))
          ∙ sym (div-div-eq-div-mul (value_v6 ip) (2 ^ 64) c)
          ∙ ap (λ (t : ℕ). t / c) top in
        let small : ip.iphi / c ≤ ip.iphi = div-le_self ip.iphi c in
        rw (long, longer, count_rest)
          (record {
            words = record { low = omega (arith, small, h.high); high = omega arith };
            value = omega (arith, quotient);
          })

half_shift :
    (x : IpV6)
    → Words x
    → HasValue (lshift_ipv6 x 64) (value_v6 x * 2 ^ 64 % 2 ^ 128)
      × HasValue (rshift_ipv6 x 64) (value_v6 x / 2 ^ 64)
unfolding lshift_ipv6 rshift_ipv6
half_shift x h = (
  record { words = record { low = omega arith; high = h.low }; value = omega (arith, h.low) },
  record { words = record { low = h.high; high = omega arith }; value = omega (arith, h.low) },
)

compare_64 : (b : ℕ) → (b < 64) ⊎ ((b ≡ 64) ⊎ (64 < b))
compare_64 b = ground arith

-- For 1 to 127 bits, `lshift_ipv6` leaves the word of 128 bits multiplied by a power of 2, less what
-- goes out at the top, and `rshift_ipv6` leaves the quotient; both leave two words of 64 bits.
pub shift_ipv6_lem :
    (ip : IpV6) (b : ℕ)
    → Words ip
    → 1 ≤ b
    → b < 128
    → HasValue (lshift_ipv6 ip b) (value_v6 ip * 2 ^ b % 2 ^ 128)
      × HasValue (rshift_ipv6 ip b) (value_v6 ip / 2 ^ b)
unfolding u
shift_ipv6_lem ip b h low high = elim (compare_64 b) [
  | inl less ↦ (short_lshift ip h b low less, short_rshift ip h b low less)
  | inr (inl same) ↦ rw same (half_shift ip h)
  | inr (inr more) ↦ (long_lshift ip h b more high, long_rshift ip h b more high)
]
