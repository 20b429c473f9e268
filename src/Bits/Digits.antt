-- ===== src/Bits/Digits.antt =====
-- A word as its binary digits: the bit at a position, setting and clearing it, and how many bits
-- are set from a position upwards. The words of the program are related to these in `Bits.Words`.
use prefix_lookup_mc.Base.{
  ℕ, zero, suc, ◌+◌, ◌*◌, ◌/◌, ◌%◌, ◌≤◌, ◌<◌, ◌^◌, ◌≡◌, ◌≢◌, refl, ap, ◌∙◌, arith,
}
use prefix_lookup_mc.Base.{Bool, true, false, ◌==◌, leb, if◌then◌else◌}
use native.Mathlib.Nat.{pow-suc}

unfoldable pub bit : ℕ → ℕ → Bool
bit b zero = b % 2 == 1
bit b (suc p) = bit (b / 2) p

unfoldable pub set_bit : ℕ → ℕ → ℕ
set_bit b zero = b / 2 * 2 + 1
set_bit b (suc p) = set_bit (b / 2) p * 2 + b % 2

unfoldable pub clear_bit : ℕ → ℕ → ℕ
clear_bit b zero = b / 2 * 2
clear_bit b (suc p) = clear_bit (b / 2) p * 2 + b % 2

-- The number of bits set at `p` and above, in a word of `w` bits.
unfoldable pub ones_from : ℕ → ℕ → ℕ → ℕ
ones_from zero b p = 0
ones_from (suc w) b zero = b % 2 + ones_from w (b / 2) zero
ones_from (suc w) b (suc p) = ones_from w (b / 2) p

abbrev pub one_if : Bool → ℕ
one_if c = if c then 1 else 0

half_odd : (x : ℕ) → (x * 2 + 1) / 2 ≡ x
half_odd x = omega arith

half_even : (x : ℕ) → x * 2 / 2 ≡ x
half_even x = omega arith

half_digit : (x d : ℕ) → (x * 2 + d % 2) / 2 ≡ x
half_digit x d = omega arith

pub bit-set_bit_self : (b p : ℕ) → bit (set_bit b p) p ≡ true
unfolding bit set_bit
bit-set_bit_self b zero = ground arith
bit-set_bit_self b (suc p) = ap (λ (t : ℕ). bit t p) (omega arith) ∙ bit-set_bit_self (b / 2) p

pub bit-set_bit_ne : (b p q : ℕ) → p ≢ q → bit (set_bit b p) q ≡ bit b q
unfolding bit set_bit
bit-set_bit_ne b zero zero h = absurd (h refl)
bit-set_bit_ne b zero (suc q) h = ap (λ (t : ℕ). bit t q) (omega arith)
bit-set_bit_ne b (suc p) zero h = ground arith
bit-set_bit_ne b (suc p) (suc q) h =
    ap (λ (t : ℕ). bit t q) (omega arith) ∙ bit-set_bit_ne (b / 2) p q (λ e. h (ap suc e))

pub bit-clear_bit_self : (b p : ℕ) → bit (clear_bit b p) p ≡ false
unfolding bit clear_bit
bit-clear_bit_self b zero = ground arith
bit-clear_bit_self b (suc p) = ap (λ (t : ℕ). bit t p) (omega arith) ∙ bit-clear_bit_self (b / 2) p

pub bit-clear_bit_ne : (b p q : ℕ) → p ≢ q → bit (clear_bit b p) q ≡ bit b q
unfolding bit clear_bit
bit-clear_bit_ne b zero zero h = absurd (h refl)
bit-clear_bit_ne b zero (suc q) h = ap (λ (t : ℕ). bit t q) (omega arith)
bit-clear_bit_ne b (suc p) zero h = ground arith
bit-clear_bit_ne b (suc p) (suc q) h =
    ap (λ (t : ℕ). bit t q) (omega arith) ∙ bit-clear_bit_ne (b / 2) p q (λ e. h (ap suc e))

pub zero-bit : (p : ℕ) → bit 0 p ≡ false
unfolding bit
zero-bit zero = refl
zero-bit (suc p) = zero-bit p

pub set_bit-lt : (w b p : ℕ) → b < 2 ^ w → p < w → set_bit b p < 2 ^ w
unfolding set_bit
set_bit-lt zero b p h k = absurd (omega arith)
set_bit-lt (suc w) b zero h k = omega (arith, pow-suc 2 w)
set_bit-lt (suc w) b (suc p) h k =
    let halved : b / 2 < 2 ^ w = omega (arith, pow-suc 2 w) in
    omega (arith, pow-suc 2 w, set_bit-lt w (b / 2) p halved (omega arith))

pub clear_bit-le : (b p : ℕ) → clear_bit b p ≤ b
unfolding clear_bit
clear_bit-le b zero = omega arith
clear_bit-le b (suc p) = omega (arith, clear_bit-le (b / 2) p)

pub zero-ones_from : (w p : ℕ) → ones_from w 0 p ≡ 0
unfolding ones_from
zero-ones_from zero p = refl
zero-ones_from (suc w) zero = omega (arith, zero-ones_from w zero)
zero-ones_from (suc w) (suc p) = zero-ones_from w p

-- One position further down counts that position's bit.
pub ones_from_step :
    (w b p : ℕ) → p < w → ones_from w b p ≡ one_if (bit b p) + ones_from w b (suc p)
unfolding ones_from bit
ones_from_step zero b p h = absurd (omega arith)
ones_from_step (suc w) b zero h = ground arith
ones_from_step (suc w) b (suc p) h = ones_from_step w (b / 2) p (omega arith)

pub ones_from_mono : (w b p q : ℕ) → p ≤ q → ones_from w b q ≤ ones_from w b p
unfolding ones_from
ones_from_mono zero b p q h = omega arith
ones_from_mono (suc w) b zero zero h = omega arith
ones_from_mono (suc w) b zero (suc q) h =
    omega (arith, ones_from_mono w (b / 2) zero q (omega arith))
ones_from_mono (suc w) b (suc p) zero h = absurd (omega arith)
ones_from_mono (suc w) b (suc p) (suc q) h = ones_from_mono w (b / 2) p q (omega arith)

-- Setting a clear bit adds one at every position up to it, and changes nothing above it.
pub ones_from-set_bit :
    (w b p q : ℕ)
    → p < w
    → bit b p ≡ false
    → ones_from w (set_bit b p) q ≡ one_if (leb q p) + ones_from w b q
unfolding ones_from set_bit bit
ones_from-set_bit zero b p q h c = absurd (omega arith)
ones_from-set_bit (suc w) b zero zero h c = rw half_odd (ground arith)
ones_from-set_bit (suc w) b zero (suc q) h c = rw half_odd (ground arith)
ones_from-set_bit (suc w) b (suc p) zero h c =
    rw half_digit (ground (arith, ones_from-set_bit w (b / 2) p zero (omega arith) c))
ones_from-set_bit (suc w) b (suc p) (suc q) h c =
    rw half_digit (ones_from-set_bit w (b / 2) p q (omega arith) c ∙ ground arith)

-- Clearing a set bit takes one away at every position up to it, and changes nothing above it.
pub ones_from-clear_bit :
    (w b p q : ℕ)
    → p < w
    → bit b p ≡ true
    → one_if (leb q p) + ones_from w (clear_bit b p) q ≡ ones_from w b q
unfolding ones_from clear_bit bit
ones_from-clear_bit zero b p q h c = absurd (omega arith)
ones_from-clear_bit (suc w) b zero zero h c = rw half_even (ground arith)
ones_from-clear_bit (suc w) b zero (suc q) h c = rw half_even (ground arith)
ones_from-clear_bit (suc w) b (suc p) zero h c =
    rw half_digit (ground (arith, ones_from-clear_bit w (b / 2) p zero (omega arith) c))
ones_from-clear_bit (suc w) b (suc p) (suc q) h c =
    rw half_digit (ground arith ∙ ones_from-clear_bit w (b / 2) p q (omega arith) c)

-- Words of `w` bits with the same bits are one number.
pub bit_ext : (w a b : ℕ) → a < 2 ^ w → b < 2 ^ w → ((p : ℕ) → p < w → bit a p ≡ bit b p) → a ≡ b
unfolding bit
bit_ext zero a b h k e = omega arith
bit_ext (suc w) a b h k e =
    let halves : a / 2 ≡ b / 2 =
      bit_ext w (a / 2) (b / 2) (omega (arith, pow-suc 2 w)) (omega (arith, pow-suc 2 w))
        (λ p l. e (suc p) (omega arith)) in
    ground (arith, e 0)

-- No bit is set from the width upwards.
pub bit_beyond : (w b p : ℕ) → b < 2 ^ w → w ≤ p → bit b p ≡ false
unfolding bit
bit_beyond zero b p h k = ap (λ (t : ℕ). bit t p) (omega arith) ∙ zero-bit p
bit_beyond (suc w) b zero h k = absurd (omega arith)
bit_beyond (suc w) b (suc p) h k = bit_beyond w (b / 2) p (omega (arith, pow-suc 2 w)) (omega arith)

-- A word with no bit set is zero.
pub eq-zero_of_bits : (w b : ℕ) → b < 2 ^ w → ones_from w b 0 ≡ 0 → b ≡ 0
unfolding ones_from
eq-zero_of_bits zero b h e = omega arith
eq-zero_of_bits (suc w) b h e =
    omega (arith, eq-zero_of_bits w (b / 2) (omega (arith, pow-suc 2 w)) (omega arith))
