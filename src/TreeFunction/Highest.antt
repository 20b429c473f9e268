-- ===== src/TreeFunction/Highest.antt =====
-- The highest set bit of a word, as `clz` finds it.
use native.Mathlib.Nat.{div-div-eq-div-mul, pow-succ'}
use native.Mathlib.Decide.{ℕ_discrete}
use prefix_lookup_mc.Base.{
  ℕ, zero, suc, ◌-◌, ◌/◌, ◌%◌, ◌^◌, ◌<◌, ◌≡◌, ap, arith, true, false, Option, none, some, ◌==◌,
  if◌then◌else◌, Bool-cases, inl, inr,
}
use prefix_lookup_mc.Bits.Digits.{bit, bit_ext, zero-bit}
use prefix_lookup_mc.TreeFunction.{clz}

-- The test that `clz` makes is the bit.
bit_lem : (x p : ℕ) → (x / 2 ^ p % 2 == 1) ≡ bit x p
unfolding bit
bit_lem x zero = ap (λ (t : ℕ). t % 2 == 1) (omega arith)
bit_lem x (suc p) =
    let halves : x / 2 ^ suc p ≡ x / 2 / 2 ^ p = rw (div-div-eq-div-mul, pow-succ') in
    rw halves (bit_lem (x / 2) p)

clz_lem :
    (w x p : ℕ)
    → p < w
    → bit x p ≡ true
    → ((q : ℕ) → p < q → q < w → bit x q ≡ false)
    → clz w x ≡ w - 1 - p
unfolding clz
clz_lem zero x p h on above = absurd (omega arith)
clz_lem (suc w) x p h on above = rw (bit_lem x w) (elim (ℕ_discrete p w) [
  | yes e ↦ let on' : bit x w ≡ true = rw e at on in rw on' (omega arith)
  | no ne ↦
      let off : bit x w ≡ false = above w (omega arith) (omega arith) in
      rw off (omega (arith, clz_lem w x p (omega arith) on (λ q k l. above q k (omega arith))))
])

-- The highest position, `none` of the word 0.
abbrev pub highest : ℕ → Option ℕ
highest x = if x == 0 then none else some (63 - clz 64 x)

pub highest_lem :
    (x p : ℕ)
    → p < 64
    → bit x p ≡ true
    → ((q : ℕ) → p < q → q < 64 → bit x q ≡ false)
    → highest x ≡ some p
highest_lem x p h on above =
    let found : clz 64 x ≡ 63 - p = omega (arith, clz_lem 64 x p h on above) in
    elim (Bool-cases (x == 0)) [
      | inl e ↦
          let z : x ≡ 0 = ground arith in
          let off : bit x p ≡ false = rw z (zero-bit p) in absurd (ground arith)
      | inr e ↦ rw (e, found) (ap some (omega arith))
    ]

pub highest-none : (x : ℕ) → x < 2 ^ 64 → ((q : ℕ) → q < 64 → bit x q ≡ false) → highest x ≡ none
highest-none x h off =
    let z : x ≡ 0 = bit_ext 64 x 0 h (omega arith) (λ q k. rw zero-bit (off q k)) in rw z
