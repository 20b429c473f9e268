-- ===== src/Tbm/Range.antt =====
-- The entries that a prefix of at most 13 bits covers.
use native.Mathlib.Nat.{
  mod-add-div, mod-lt, mul-div_left, mul-add-div_right, div-eq_of_lt, mul-le-mul_right, mul_comm,
  mul_assoc,
}
use prefix_lookup_mc.Base.{ℕ, ◌+◌, ◌-◌, ◌*◌, ◌/◌, ◌^◌, ◌≤◌, ◌<◌, ◌≡◌, ◌≢◌, sym, ap, ◌∙◌, arith}
use prefix_lookup_mc.Address.{Address}
use prefix_lookup_mc.Address.Word.{IsWord, Masked, pow-pos, pow-split}
use prefix_lookup_mc.Trie.Place.{leading}
use prefix_lookup_mc.Tbm.{index_of}
use prefix_lookup_mc.Tbm.Laws.{IsTabled, leading-lt}

in_block : (x q i : ℕ) → 0 < q → x * q ≤ i → i < x * q + q → i / q ≡ x
in_block x q i h l l' =
    let whole : x * q + (i - x * q) ≡ i = omega arith in
    let less : i - x * q < q = omega arith in
    ap (λ (t : ℕ). t / q) (sym whole)
    ∙ mul-add-div_right h x (i - x * q)
    ∙ omega (arith, div-eq_of_lt less)

of_block : (x q i : ℕ) → 0 < q → i / q ≡ x → (x * q ≤ i) × (i < x * q + q)
of_block x q i h e =
    let product : q * (i / q) ≡ x * q = ap (λ (t : ℕ). q * t) e ∙ mul_comm q x in
    let parts = mod-add-div i q in
    (omega (arith, parts, product), omega (arith, parts, product, mod-lt i h))

module _ (a : Address) (word : IsWord a) (tabled : IsTabled a word) (ip : a.Ip) (c : ℕ)
    (masked : Masked a word ip c) (short : c ≤ 13) where
  abbrev q : ℕ
  q = 2 ^ (13 - c)

  index-covered : index_of a ip ≡ leading a word ip c * q
  index-covered =
      let w = 2 ^ (a.width - 13) in
      let power : 2 ^ (a.width - c) ≡ q * w =
        pow-split (a.width - c) (13 - c) (a.width - 13) (omega (arith, tabled.long)) in
      let whole : word.value ip ≡ leading a word ip c * q * w =
        sym (mod-add-div (word.value ip) (2 ^ (a.width - c)))
        ∙ omega (
          arith,
          masked.masked,
          mul_comm (2 ^ (a.width - c)) (leading a word ip c),
          ap (λ (t : ℕ). leading a word ip c * t) power,
          mul_assoc (leading a word ip c) q w,
        ) in
      tabled.index-value ip masked.fits
      ∙ ap (λ (t : ℕ). t / w) whole
      ∙ mul-div_left (leading a word ip c * q) (pow-pos (a.width - 13))

  pub covered-IsIn :
      (i : ℕ) → index_of a ip ≤ i → i < index_of a ip + q → i / q ≡ leading a word ip c
  covered-IsIn i l l' =
      in_block (leading a word ip c) q i (pow-pos (13 - c)) (omega (arith, index-covered, l))
        (omega (arith, index-covered, l'))

  pub before-IsOut : (i : ℕ) → i < index_of a ip → i / q ≢ leading a word ip c
  before-IsOut i l e =
      let inside = of_block (leading a word ip c) q i (pow-pos (13 - c)) e in
      absurd (omega (arith, inside.0, index-covered, l))

  pub after-IsOut : (i : ℕ) → index_of a ip + q ≤ i → i / q ≢ leading a word ip c
  after-IsOut i l e =
      let inside = of_block (leading a word ip c) q i (pow-pos (13 - c)) e in
      absurd (omega (arith, inside.1, index-covered, l))

  pub covered_room : index_of a ip + q ≤ 8192
  covered_room =
      let more : (leading a word ip c + 1) * q ≤ 2 ^ c * q =
        mul-le-mul_right q (omega (arith, leading-lt a word tabled ip c masked.fits)) in
      let power : 2 ^ 13 ≡ 2 ^ c * q = pow-split 13 c (13 - c) (omega arith) in
      omega (arith, index-covered, more, power)
