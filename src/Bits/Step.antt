-- ===== src/Bits/Step.antt =====
-- `|` and `&` of machine words, one binary digit at a time. The native operations are a digit
-- recursion on fuel; here the fuel is gone.
use Prim.Native.Nat.{bit_or-bitwise, bit_and-bitwise, bitwise, digits, min, max}
use prefix_lookup_mc.Base.{
  ℕ, zero, suc, ◌≤◌, ◌+◌, ◌-◌, ◌*◌, ◌/◌, ◌%◌, ◌≡◌, refl, ap, ◌∙◌, arith, bit_and, bit_or,
}

module _ (rest : ℕ → ℕ) (digit : ℕ → ℕ → ℕ) where
  -- A round more than the first operand takes changes nothing, nor do many.
  one_more : (n x y : ℕ) → x ≤ n → digits rest digit (suc n) x y ≡ digits rest digit n x y
  one_more zero x y h = let none_left : x ≡ 0 = omega arith in rw none_left refl
  one_more (suc n) zero y h = refl
  one_more (suc n) (suc x) y h = rw (one_more n (suc x / 2) (y / 2) (omega arith))

  many_more : (k n x y : ℕ) → x ≤ n → digits rest digit (k + n) x y ≡ digits rest digit n x y
  many_more zero n x y h = ap (λ (t : ℕ). digits rest digit t x y) (omega arith)
  many_more (suc k) n x y h =
      let one_round : suc k + n ≡ suc (k + n) = omega arith in
      ap (λ (t : ℕ). digits rest digit t x y) one_round
      ∙ one_more (k + n) x y (omega arith)
      ∙ many_more k n x y h

  last_digit :
      (x y : ℕ)
      → bitwise rest digit (suc x) y
        ≡ bitwise rest digit (suc x / 2) (y / 2) * 2 + digit (suc x % 2) (y % 2)
  last_digit x y =
      let enough : x ≡ (x - suc x / 2) + suc x / 2 = omega arith in
      let halves : digits rest digit x (suc x / 2) (y / 2)
          ≡ digits rest digit (suc x / 2) (suc x / 2) (y / 2) =
        ap (λ (t : ℕ). digits rest digit t (suc x / 2) (y / 2)) enough
        ∙ many_more (x - suc x / 2) (suc x / 2) (suc x / 2) (y / 2) (omega arith) in
      omega (arith, halves)

pub bit_and_step : (x y : ℕ) → bit_and x y ≡ min (x % 2) (y % 2) + bit_and (x / 2) (y / 2) * 2
bit_and_step zero y = omega (arith, bit_and-bitwise 0 y, bit_and-bitwise 0 (y / 2))
bit_and_step (suc x) y = omega (
  arith,
  bit_and-bitwise (suc x) y,
  bit_and-bitwise (suc x / 2) (y / 2),
  last_digit (λ z. 0) min x y,
)

pub bit_or_step : (x y : ℕ) → bit_or x y ≡ max (x % 2) (y % 2) + bit_or (x / 2) (y / 2) * 2
bit_or_step zero y = simp bit_or-bitwise (omega arith)
bit_or_step (suc x) y = omega (
  arith,
  bit_or-bitwise (suc x) y,
  bit_or-bitwise (suc x / 2) (y / 2),
  last_digit (λ z. z) max x y,
)
