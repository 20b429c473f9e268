-- ===== src/Bits/Shifted.antt =====
-- A word that is shifted to the left, with others bits or-ed in below it.
use native.Mathlib.Nat.{pow-suc}
use prefix_lookup_mc.Base.{
  ℕ, zero, suc, ◌+◌, ◌*◌, ◌/◌, ◌%◌, ◌^◌, ◌<◌, ◌≤◌, ◌≡◌, refl, ap, ◌∙◌, arith, bit_or,
}
use prefix_lookup_mc.Bits.Step.{bit_or_step}
use prefix_lookup_mc.Bits.Words.{bit_or-zero}

-- The bits below a shifted word are or-ed in by addition.
pub bit_or-shifted : (k x y : ℕ) → y < 2 ^ k → bit_or (x * 2 ^ k) y ≡ x * 2 ^ k + y
bit_or-shifted zero x y h =
    let none_left : y ≡ 0 = omega arith in
    rw none_left (bit_or-zero (x * 2 ^ 0) (x * 2 ^ 0) (omega arith) ∙ omega arith)
bit_or-shifted (suc k) x y h =
    let half : x * 2 ^ suc k / 2 ≡ x * 2 ^ k =
      omega (arith, pow-suc 2 k, ap (λ (t : ℕ). x * t) (pow-suc 2 k)) in
    let even : x * 2 ^ suc k % 2 ≡ 0 =
      omega (arith, pow-suc 2 k, ap (λ (t : ℕ). x * t) (pow-suc 2 k)) in
    let halved = bit_or-shifted k x (y / 2) (omega (arith, pow-suc 2 k)) in
    bit_or_step (x * 2 ^ suc k) y
    ∙ rw (half, even, halved) (omega (arith, ap (λ (t : ℕ). x * t) (pow-suc 2 k)))

zero-bit_or : (w a : ℕ) → a ≤ w → bit_or 0 a ≡ a
zero-bit_or zero a h = let none : a ≡ 0 = omega arith in rw none refl
zero-bit_or (suc w) zero h = refl
zero-bit_or (suc w) (suc a) h =
    ground (arith, bit_or_step 0 (suc a), zero-bit_or w (suc a / 2) (omega arith))

pub bit_or-below : (k x y : ℕ) → y < 2 ^ k → bit_or y (x * 2 ^ k) ≡ x * 2 ^ k + y
bit_or-below zero x y h =
    let none_left : y ≡ 0 = omega arith in
    rw none_left (zero-bit_or (x * 2 ^ 0) (x * 2 ^ 0) (omega arith) ∙ omega arith)
bit_or-below (suc k) x y h =
    let half : x * 2 ^ suc k / 2 ≡ x * 2 ^ k =
      omega (arith, pow-suc 2 k, ap (λ (t : ℕ). x * t) (pow-suc 2 k)) in
    let even : x * 2 ^ suc k % 2 ≡ 0 =
      omega (arith, pow-suc 2 k, ap (λ (t : ℕ). x * t) (pow-suc 2 k)) in
    let halved = bit_or-below k x (y / 2) (omega (arith, pow-suc 2 k)) in
    bit_or_step y (x * 2 ^ suc k)
    ∙ rw (half, even, halved) (ground (arith, ap (λ (t : ℕ). x * t) (pow-suc 2 k)))
