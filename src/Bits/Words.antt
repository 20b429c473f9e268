-- ===== src/Bits/Words.antt =====
-- The word operations of the program, as operations on binary digits.
use native.Mathlib.Decide.{dec_lt}
use native.Mathlib.Nat.{div-le_self, pow-suc, div-div-eq-div-mul, one-le-pow, pow-succ'}
use prefix_lookup_mc.Base.{
  ℕ, zero, suc, ◌+◌, ◌-◌, ◌/◌, ◌%◌, ◌^◌, ◌≤◌, ◌<◌, ◌≡◌, refl, ap, ◌∙◌, arith, bit_and, bit_or, some,
  true, ◌&&◌, if◌then◌else◌,
}
use prefix_lookup_mc.Bits.Step.{bit_or_step, bit_and_step}
use prefix_lookup_mc.Bits.{
  popcount, count_ones, count_children, test_bitmap, set_bitmap, clear_bitmap, count_inl_bitmap,
}
use prefix_lookup_mc.Bits.Digits.{bit, set_bit, clear_bit, ones_from, ones_from_step}

pub pow-lt : (p w : ℕ) → p < w → 2 ^ p < 2 ^ w
pow-lt p zero h = absurd (omega arith)
pow-lt zero (suc w) h = omega (arith, pow-suc 2 w, one-le-pow w 2)
pow-lt (suc p) (suc w) h = omega (arith, pow-suc 2 w, pow-suc 2 p, pow-lt p w (omega arith))

pow-le : (p : ℕ) → p < 6 → 2 ^ p ≤ 32
pow-le p h = elim (dec_lt p 5) [
  | yes l ↦ omega (arith, pow-lt p 5 l)
  | no l ↦ let top : p ≡ 5 = omega arith in rw top (omega arith)
]

pub div-pow-suc : (b p : ℕ) → b / 2 ^ suc p ≡ b / 2 / 2 ^ p
div-pow-suc b p = rw (div-div-eq-div-mul, pow-succ')

pub bit_or-zero : (w a : ℕ) → a ≤ w → bit_or a 0 ≡ a
bit_or-zero zero zero h = refl
bit_or-zero zero (suc a) h = absurd (omega arith)
bit_or-zero (suc w) zero h = refl
bit_or-zero (suc w) (suc a) h =
    omega (arith, bit_or_step (suc a) 0, bit_or-zero w (suc a / 2) (omega arith))

pub bit_and-zero : (w a : ℕ) → a ≤ w → bit_and a 0 ≡ 0
bit_and-zero zero zero h = refl
bit_and-zero zero (suc a) h = absurd (omega arith)
bit_and-zero (suc w) zero h = refl
bit_and-zero (suc w) (suc a) h =
    omega (arith, bit_and_step (suc a) 0, bit_and-zero w (suc a / 2) (omega arith))

half_pow : (p : ℕ) → 2 ^ suc p / 2 ≡ 2 ^ p
half_pow p = omega (arith, pow-suc 2 p)

even_pow : (p : ℕ) → 2 ^ suc p % 2 ≡ 0
even_pow p = omega (arith, pow-suc 2 p)

-- `b | (1 << p)` sets the bit at `p`.
pub bit_or-pow : (b p : ℕ) → bit_or b (2 ^ p) ≡ set_bit b p
unfolding set_bit
bit_or-pow b zero = omega (arith, bit_or_step b 1, bit_or-zero (b / 2) (b / 2) (omega arith))
bit_or-pow b (suc p) = rw (bit_or_step, half_pow, even_pow, bit_or-pow (b / 2) p) (omega arith)

-- `b & (1 << p)` is the bit at `p`, in its place.
pub bit_and-pow : (b p : ℕ) → bit_and b (2 ^ p) ≡ (if bit b p then 2 ^ p else 0)
unfolding bit
bit_and-pow b zero = ground (arith, bit_and_step b 1, bit_and-zero (b / 2) (b / 2) (omega arith))
bit_and-pow b (suc p) =
    rw (bit_and_step, half_pow, even_pow, bit_and-pow (b / 2) p) (ground (arith, pow-suc 2 p))

bit_and_ones : (w b : ℕ) → b < 2 ^ w → bit_and b (2 ^ w - 1) ≡ b
bit_and_ones zero b h = omega (arith, bit_and-zero b b (omega arith))
bit_and_ones (suc w) b h =
    let tail : (2 ^ suc w - 1) / 2 ≡ 2 ^ w - 1 = omega (arith, pow-suc 2 w) in
    let last : (2 ^ suc w - 1) % 2 ≡ 1 = omega (arith, pow-suc 2 w, one-le-pow w 2) in
    rw (bit_and_step, tail, last, bit_and_ones w (b / 2) (omega (arith, pow-suc 2 w))) (omega arith)

-- `b & ~(1 << p)` clears the bit at `p`.
bit_and_mask : (w b p : ℕ) → b < 2 ^ w → p < w → bit_and b (2 ^ w - 1 - 2 ^ p) ≡ clear_bit b p
unfolding clear_bit
bit_and_mask zero b p h k = absurd (omega arith)
bit_and_mask (suc w) b zero h k =
    let tail : (2 ^ suc w - 1 - 2 ^ 0) / 2 ≡ 2 ^ w - 1 = omega (arith, pow-suc 2 w) in
    let last : (2 ^ suc w - 1 - 2 ^ 0) % 2 ≡ 0 = omega (arith, pow-suc 2 w) in
    rw (bit_and_step, tail, last, bit_and_ones w (b / 2) (omega (arith, pow-suc 2 w))) (omega arith)
bit_and_mask (suc w) b (suc p) h k =
    let below : 2 ^ p < 2 ^ w = pow-lt p w (omega arith) in
    let tail : (2 ^ suc w - 1 - 2 ^ suc p) / 2 ≡ 2 ^ w - 1 - 2 ^ p =
      omega (arith, pow-suc 2 w, pow-suc 2 p) in
    let last : (2 ^ suc w - 1 - 2 ^ suc p) % 2 ≡ 1 = omega (arith, pow-suc 2 w, pow-suc 2 p) in
    rw
      (
        bit_and_step,
        tail,
        last,
        bit_and_mask w (b / 2) p (omega (arith, pow-suc 2 w)) (omega arith),
      )
      (omega arith)

pub bit-bit_and : (a b p : ℕ) → bit (bit_and a b) p ≡ (bit a p && bit b p)
unfolding bit
bit-bit_and a b zero = ground (arith, bit_and_step a b)
bit-bit_and a b (suc p) =
    let half : bit_and a b / 2 ≡ bit_and (a / 2) (b / 2) = omega (arith, bit_and_step a b) in
    rw half (bit-bit_and (a / 2) (b / 2) p)

pub bit_and-le : (w a b : ℕ) → b ≤ w → bit_and a b ≤ b
bit_and-le zero a b h =
    let z : b ≡ 0 = omega arith in rw (z, bit_and-zero a a (omega arith)) (omega arith)
bit_and-le (suc w) a zero h = rw (bit_and-zero a a (omega arith)) (omega arith)
bit_and-le (suc w) a (suc b) h =
    omega (arith, bit_and_step a (suc b), bit_and-le w (a / 2) (suc b / 2) (omega arith))

popcount-wider : (w v b : ℕ) → b < 2 ^ w → w ≤ v → popcount v b ≡ popcount w b
unfolding popcount
popcount-wider zero zero b h k = refl
popcount-wider zero (suc v) b h k = omega (
  arith,
  ap (λ (t : ℕ). popcount v (t / 2)) (eq-zero b h),
  popcount-wider zero v 0 (omega arith) (omega arith),
)
  where
    eq-zero : (b : ℕ) → b < 2 ^ 0 → b ≡ 0
    eq-zero b h = omega arith
popcount-wider (suc w) zero b h k = absurd (omega arith)
popcount-wider (suc w) (suc v) b h k =
    omega (arith, popcount-wider w v (b / 2) (omega (arith, pow-suc 2 w)) (omega arith))

-- A shifted word counts the bits from the shift upwards.
popcount-shift : (w b p : ℕ) → b < 2 ^ w → popcount w (b / 2 ^ p) ≡ ones_from w b p
unfolding popcount ones_from
popcount-shift zero b p h = refl
popcount-shift (suc w) b zero h = omega (
  arith,
  popcount-shift w (b / 2) zero (omega (arith, pow-suc 2 w)),
  ap (λ (t : ℕ). popcount w (t / 2)) (by_one b),
  ap (λ (t : ℕ). popcount w t) (by_one (b / 2)),
)
  where
    by_one : (b : ℕ) → b / 2 ^ 0 ≡ b
    by_one b = omega arith
popcount-shift (suc w) b (suc p) h =
    let halved : b / 2 < 2 ^ w = omega (arith, pow-suc 2 w) in
    rw (div-pow-suc b p) (
      popcount-wider w (suc w) (b / 2 / 2 ^ p) (omega (arith, div-le_self (b / 2) (2 ^ p)))
        (omega arith)
      ∙ popcount-shift w (b / 2) p halved)

-- The functions of the program at 64 bits.
pub test_bitmap_lem : (b p : ℕ) → test_bitmap b p ≡ bit b p
unfolding test_bitmap
test_bitmap_lem b p = rw bit_and-pow (ground (arith, one-le-pow p 2))

pub set_bitmap_lem : (b p : ℕ) → set_bitmap b p ≡ set_bit b p
unfolding set_bitmap
set_bitmap_lem b p = bit_or-pow b p

pub clear_bitmap_lem : (b p : ℕ) → b < 2 ^ 64 → p < 64 → clear_bitmap b p ≡ clear_bit b p
unfolding clear_bitmap
clear_bitmap_lem b p h k = bit_and_mask 64 b p h k

-- A set bit's rank is the number of bits set above it.
pub count_ones_lem :
    (b p : ℕ)
    → b < 2 ^ 64
    → p < 64
    → bit b p ≡ true
    → count_ones b p ≡ some (ones_from 64 b (suc p))
unfolding count_ones
count_ones_lem b p h k e = ground (arith, popcount-shift 64 b p h, ones_from_step 64 b p k)

pub count_children_lem : (b : ℕ) → b < 2 ^ 64 → count_children b ≡ ones_from 64 b 0
unfolding count_children
count_children_lem b h = ap (popcount 64) (omega arith) ∙ popcount-shift 64 b 0 h

pub count_inl_bitmap_lem :
    (bits cidr : ℕ)
    → cidr < 6
    → bits < 2 ^ cidr
    → suc (count_inl_bitmap bits cidr) ≡ 2 ^ cidr + bits
unfolding count_inl_bitmap
count_inl_bitmap_lem bits cidr h k = omega (arith, one-le-pow cidr 2, pow-lt cidr 6 h)

pub count_inl_bitmap-lt :
    (bits cidr : ℕ) → cidr < 6 → bits < 2 ^ cidr → count_inl_bitmap bits cidr < 63
count_inl_bitmap-lt bits cidr h k =
    omega (arith, count_inl_bitmap_lem bits cidr h k, pow-lt cidr 6 h, pow-le cidr h)
