-- ===== src/Trie/Place.antt =====
-- The place of the first `k` bits of an address, masked or not: `path_of` and a position. Two addresses
-- have one place for the same bits only.
use native.Mathlib.Decide.{dec_lt}
use prefix_lookup_mc.Base.{
  ℕ, zero, suc, ◌+◌, ◌-◌, ◌*◌, ◌/◌, ◌^◌, ◌≤◌, ◌<◌, ◌≡◌, refl, sym, ap, ap₂, ◌∙◌, arith, true, false,
  List, [], ◌∷◌, ltb, if◌then◌else◌, Bool-cases, inl, inr,
}
use native.Mathlib.Nat.{mod-add-div, mod-add-div', pow-suc}
use prefix_lookup_mc.Address.{Address, IsAddress, stride_of, shift, inl_pos, enl_pos}
use prefix_lookup_mc.Address.Word.{
  IsWord, word_laws, stride_bits_of, behind, shift-top, first_stride,
}
use prefix_lookup_mc.Bits.{count_inl_bitmap}
use prefix_lookup_mc.Bits.Words.{pow-lt, count_inl_bitmap-lt, count_inl_bitmap_lem}
use prefix_lookup_mc.Trie.Path.{path_of, last_of}
use prefix_lookup_mc.Trie.Prefix.{head_bound}

module _ (a : Address) where
  -- The position of the bits that the last stride has of the `k`.
  unfoldable pub position_of : ℕ → a.Ip → ℕ → ℕ
  position_of zero ip k = 0
  position_of (suc fuel) ip k =
      if ltb k 6
      then count_inl_bitmap (stride_of a ip 6 / 2 ^ (6 - k)) k
      else position_of fuel (shift a ip) (k - 6)

module _ (a : Address) (laws : IsAddress a) where
  bits_bound : (ip : a.Ip) (k : ℕ) → laws.IsIp ip → k < 6 → stride_of a ip 6 / 2 ^ (6 - k) < 2 ^ k
  bits_bound ip k i h = head_bound (stride_of a ip 6) k (laws.stride-lt ip i) h

  pub position_of-lt :
      (fuel : ℕ) (ip : a.Ip) (k : ℕ) → laws.IsIp ip → k < fuel → position_of a fuel ip k < 63
  unfolding position_of
  position_of-lt zero ip k i h = absurd (omega arith)
  position_of-lt (suc fuel) ip k i h = elim (Bool-cases (ltb k 6)) [
    | inl short ↦ rw short (
        count_inl_bitmap-lt (stride_of a ip 6 / 2 ^ (6 - k)) k (ground arith)
          (bits_bound ip k i (ground arith)))
    | inr long ↦
        rw long (position_of-lt fuel (shift a ip) (k - 6) (laws.shift-IsIp ip i) (ground arith))
  ]

  pub inl_pos_masked :
      (ip : a.Ip) (k : ℕ)
      → laws.IsMasked ip k
      → k < 6
      → inl_pos a ip k ≡ count_inl_bitmap (stride_of a ip 6 / 2 ^ (6 - k)) k
  inl_pos_masked ip k masked h =
      let head = laws.masked_head ip k masked h in
      let low =
        count_inl_bitmap-lt (stride_of a ip 6 / 2 ^ (6 - k)) k h
          (bits_bound ip k (laws.masked-IsIp ip k masked) h) in
      rw head (omega (arith, low))

  pub enl_pos_lem : (ip : a.Ip) → laws.IsIp ip → enl_pos a ip ≡ stride_of a ip 6
  enl_pos_lem ip i = omega (arith, laws.stride-lt ip i)

  -- For a masked prefix it is where its rule stands.
  pub last_of_lem :
      (fuel : ℕ) (ip : a.Ip) (k : ℕ)
      → laws.IsMasked ip k
      → last_of a fuel ip k ≡ position_of a fuel ip k
  unfolding last_of position_of
  last_of_lem zero ip k masked = refl
  last_of_lem (suc fuel) ip k masked = elim (Bool-cases (ltb k 6)) [
    | inl short ↦ rw (short, inl_pos_masked ip k masked (ground arith))
    | inr long ↦
        rw long
          (last_of_lem fuel (shift a ip) (k - 6) (laws.shift-IsMasked ip k masked (ground arith)))
  ]

-- The parts of a path.
first_of : List ℕ → ℕ
first_of [] = 0
first_of (s ∷ path) = s

rest_of : List ℕ → List ℕ
rest_of [] = []
rest_of (s ∷ path) = path

-- A position in a node tells the length and the bits.
double_pow : (k j : ℕ) → k < j → 2 ^ k * 2 ≤ 2 ^ j
double_pow k j h = elim (dec_lt (suc k) j) [
  | yes l ↦ omega (arith, pow-suc 2 k, pow-lt (suc k) j l)
  | no l ↦ let e : suc k ≡ j = omega arith in rw (← e) (omega (arith, pow-suc 2 k))
]

shorter :
    (k j b c : ℕ)
    → j < 6
    → b < 2 ^ k
    → c < 2 ^ j
    → k < j
    → ¬ (count_inl_bitmap b k ≡ count_inl_bitmap c j)
shorter k j b c l hb hc h e = omega (
  arith,
  double_pow k j h,
  count_inl_bitmap_lem b k (omega arith) hb,
  count_inl_bitmap_lem c j l hc,
)

same_bits :
    (k j b c : ℕ)
    → k < 6
    → j < 6
    → b < 2 ^ k
    → c < 2 ^ j
    → count_inl_bitmap b k ≡ count_inl_bitmap c j
    → (k ≡ j) × (b ≡ c)
same_bits k j b c h l hb hc e = elim (dec_lt k j) [
  | yes less ↦ absurd (shorter k j b c l hb hc less e)
  | no ge ↦ elim (dec_lt j k) [
    | yes less ↦ absurd (shorter j k c b h hc hb less (sym e))
    | no ge' ↦
        let same : k ≡ j = omega arith in
        let sums : b ≡ c = omega (
          arith,
          count_inl_bitmap_lem b k h hb,
          count_inl_bitmap_lem c j l hc,
          ap (λ (t : ℕ). 2 ^ t) same,
        ) in
        (same, sums)
  ]
]

module _ (a : Address) (word : IsWord a) where
  -- The word from its first stride and the rest.
  value_split :
      (ip : a.Ip)
      → word.IsIp ip
      → word.value ip ≡ stride_of a ip 6 * 2 ^ (a.width - 6) + behind a word ip
  value_split ip h = omega (
    arith,
    mod-add-div' (word.value ip) (2 ^ (a.width - 6)),
    ap (λ (t : ℕ). t * 2 ^ (a.width - 6)) (word.stride-value ip 6 h (omega arith) (omega arith)),
  )

  -- The leading bits, as a number.
  abbrev pub leading : a.Ip → ℕ → ℕ
  leading ip k = word.value ip / 2 ^ (a.width - k)

  leading_split :
      (ip : a.Ip) (k : ℕ)
      → word.IsIp ip
      → 6 ≤ k
      → k ≤ a.width
      → leading ip k ≡ leading (shift a ip) (k - 6) + 2 ^ (k - 6) * stride_of a ip 6
  leading_split ip k h l short =
      sym (mod-add-div (leading ip k) (2 ^ (k - 6)))
      ∙ ap₂ (λ (t u : ℕ). t + 2 ^ (k - 6) * u) (sym (shift-top a word k l short ip h))
          (sym (first_stride a word ip k h l short))

  -- One place, so one number of bits, and the same bits if the address has so many.
  pub same_place :
      (f g : ℕ) (p q : a.Ip) (k j : ℕ)
      → word.IsIp p
      → word.IsIp q
      → k < f
      → j < g
      → path_of a f p k ≡ path_of a g q j
      → position_of a f p k ≡ position_of a g q j
      → (k ≡ j) × (k ≤ a.width → leading p k ≡ leading q k)
  unfolding path_of position_of word_laws first_of rest_of
  same_place zero g p q k j hp hq l l' e e' = absurd (omega arith)
  same_place (suc f) zero p q k j hp hq l l' e e' = absurd (omega arith)
  same_place (suc f) (suc g) p q k j hp hq l l' e e' = elim (Bool-cases (ltb k 6)) [
    | inl s ↦ elim (Bool-cases (ltb j 6)) [
      | inl s' ↦ ends s s'
      | inr t' ↦
          let apart : ◌≡◌ {A = List ℕ} [] (enl_pos a q ∷ path_of a g (shift a q) (j - 6)) =
            rw (s, t') at e in
          absurd (ground arith)
    ]
    | inr t ↦ elim (Bool-cases (ltb j 6)) [
      | inl s' ↦
          let apart : ◌≡◌ {A = List ℕ} (enl_pos a p ∷ path_of a f (shift a p) (k - 6)) [] =
            rw (t, s') at e in
          absurd (ground arith)
      | inr t' ↦ goes_on t t' (
          same_place f g (shift a p) (shift a q) (k - 6) (j - 6) (word.shift-IsIp p hp)
            (word.shift-IsIp q hq) (ground arith) (ground arith))
    ]
  ]
    where
      ends : ltb k 6 ≡ true → ltb j 6 ≡ true → (k ≡ j) × (k ≤ a.width → leading p k ≡ leading q k)
      ends s s' =
          let bits =
            same_bits k j (stride_of a p 6 / 2 ^ (6 - k)) (stride_of a q 6 / 2 ^ (6 - j))
              (ground arith) (ground arith) (bits_bound a (word_laws a word) p k hp (ground arith))
              (bits_bound a (word_laws a word) q j hq (ground arith)) (rw (s, s') at e') in
          (
            bits.0,
            λ short.
                sym (stride_bits_of a word p k hp (ground arith))
                ∙ bits.1
                ∙ ap (λ (t : ℕ). stride_of a q 6 / 2 ^ (6 - t)) (sym (bits.0))
                ∙ stride_bits_of a word q k hq (ground arith),
          )

      goes_on :
          ltb k 6 ≡ false
          → ltb j 6 ≡ false
          → (path_of a f (shift a p) (k - 6) ≡ path_of a g (shift a q) (j - 6)
              → position_of a f (shift a p) (k - 6) ≡ position_of a g (shift a q) (j - 6)
              → (k - 6 ≡ j - 6)
                × (k - 6 ≤ a.width → leading (shift a p) (k - 6) ≡ leading (shift a q) (k - 6)))
          → (k ≡ j) × (k ≤ a.width → leading p k ≡ leading q k)
      goes_on t t' below =
          let paths : enl_pos a p ∷ path_of a f (shift a p) (k - 6)
              ≡ enl_pos a q ∷ path_of a g (shift a q) (j - 6) =
            rw (t, t') at e in
          let strides : stride_of a p 6 ≡ stride_of a q 6 =
            sym (enl_pos_lem a (word_laws a word) p hp)
            ∙ ap (λ l. first_of l) paths
            ∙ enl_pos_lem a (word_laws a word) q hq in
          let rest = below (ap (λ l. rest_of l) paths) (rw (t, t') at e') in
          let long : 6 ≤ k = ground arith in
          (
            ground (arith, rest.0),
            λ short.
                leading_split p k hp long short
                ∙ ap₂ (λ (t u : ℕ). t + 2 ^ (k - 6) * u) (rest.1 (omega arith)) strides
                ∙ sym (leading_split q k hq long short),
          )
