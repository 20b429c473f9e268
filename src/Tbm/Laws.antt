-- ===== src/Tbm/Laws.antt =====
-- What the table asks of an address beyond a word: the 13 leading bits, and the address behind them.
use native.Mathlib.Nat.{
  mod-add-div, mod-lt, mod-eq_of_lt, mod-mod_of_dvd, dvd-mul_right, add-mul-mod_self_left,
  div-div-eq-div-mul, mul_comm, mul-div-mul_right, mul-le-mul_right, div-lt_iff_lt-mul,
}
use native.Mathlib.Decide.{dec_lt}
use prefix_lookup_mc.Bits.Words.{pow-lt}
use prefix_lookup_mc.Base.{ℕ, ◌+◌, ◌-◌, ◌*◌, ◌/◌, ◌%◌, ◌^◌, ◌≤◌, ◌<◌, ◌≡◌, sym, ap, ◌∙◌, arith}
use prefix_lookup_mc.Address.{Address}
use prefix_lookup_mc.Address.Word.{IsWord, Masked, pow-split, pow-pos, mod-div}
use prefix_lookup_mc.Trie.Place.{leading}
use prefix_lookup_mc.Tbm.{index_of, initial_bits}

pub record IsTabled (a : Address) (word : IsWord a) : Type 1 where
  pub long : 13 < a.width
  pub short : a.width ≤ 128
  pub deep : a.width < (a.levels + 1) * 6
  pub index-value : (ip : a.Ip) → word.IsIp ip → index_of a ip ≡ word.value ip / 2 ^ (a.width - 13)
  pub rest-IsIp : (ip : a.Ip) → word.IsIp ip → word.IsIp (a.shift_by ip initial_bits)
  pub rest-value :
      (ip : a.Ip)
      → word.IsIp ip
      → word.value (a.shift_by ip initial_bits) ≡ word.value ip * 2 ^ 13 % 2 ^ a.width
  pub zero-IsIp : word.IsIp a.zero_ip
  pub zero-value : word.value a.zero_ip ≡ 0
  pub at : ℕ → a.Ip
  pub at-IsIp : (x : ℕ) → x < 2 ^ a.width → word.IsIp (at x)
  pub at-value : (x : ℕ) → x < 2 ^ a.width → word.value (at x) ≡ x

-- A remainder, scaled.
scaled_by : (x m c : ℕ) → 0 < m → 0 < c → x * c % (m * c) ≡ x % m * c
scaled_by x m c h k =
    ap (λ (t : ℕ). t % (m * c)) split
    ∙ add-mul-mod_self_left (x % m * c) (m * c) (x / m)
    ∙ mod-eq_of_lt room
  where
    split : x * c ≡ x % m * c + m * c * (x / m)
    split = ap (λ (t : ℕ). t * c) (sym (mod-add-div x m)) ∙ omega (arith, mul_comm m c)

    room : x % m * c < m * c
    room =
        let more : (x % m + 1) * c ≤ m * c = mul-le-mul_right c (omega (arith, mod-lt x h)) in
        omega (arith, more, k)

module _ (a : Address) (word : IsWord a) (tabled : IsTabled a word) where
  abbrev pub rest_of_ip : a.Ip → a.Ip
  rest_of_ip ip = a.shift_by ip initial_bits

  -- The word behind the leading 13 bits, scaled.
  rest-scaled :
      (ip : a.Ip)
      → word.IsIp ip
      → word.value (rest_of_ip ip) ≡ word.value ip % 2 ^ (a.width - 13) * 2 ^ 13
  rest-scaled ip h =
      tabled.rest-value ip h
      ∙ ap (λ (t : ℕ). word.value ip * 2 ^ 13 % t)
          (pow-split a.width (a.width - 13) 13 (omega (arith, tabled.long)))
      ∙ scaled_by (word.value ip) (2 ^ (a.width - 13)) (2 ^ 13) (pow-pos (a.width - 13))
          (omega arith)

  module _ (ip : a.Ip) (k : ℕ) (h : word.IsIp ip) (l : 13 + k ≤ a.width) where
    p : ℕ
    p = 2 ^ (a.width - (13 + k))

    p-pos : 0 < p
    unfolding p
    p-pos = pow-pos (a.width - (13 + k))

    rest_power : 2 ^ (a.width - 13) ≡ p * 2 ^ k
    unfolding p
    rest_power = pow-split (a.width - 13) (a.width - (13 + k)) k (omega arith)

    lead_power : 2 ^ (a.width - k) ≡ p * 2 ^ 13
    unfolding p
    lead_power = pow-split (a.width - k) (a.width - (13 + k)) 13 (omega arith)

    -- The leading bits of the rest.
    pub rest-leading : leading a word (rest_of_ip ip) k ≡ leading a word ip (13 + k) % 2 ^ k
    unfolding p
    rest-leading =
        ap (λ (t : ℕ). t / 2 ^ (a.width - k)) (rest-scaled ip h)
        ∙ ap (λ (t : ℕ). word.value ip % 2 ^ (a.width - 13) * 2 ^ 13 / t) lead_power
        ∙ mul-div-mul_right (word.value ip % 2 ^ (a.width - 13)) p (omega arith)
        ∙ ap (λ (t : ℕ). word.value ip % t / p) rest_power
        ∙ mod-div (word.value ip) p (2 ^ k) p-pos (pow-pos k)

    pub index-leading : word.value ip / 2 ^ (a.width - 13) ≡ leading a word ip (13 + k) / 2 ^ k
    unfolding p
    index-leading =
        ap (λ (t : ℕ). word.value ip / t) rest_power
        ∙ sym (div-div-eq-div-mul (word.value ip) p (2 ^ k))

    -- The index stands above the leading bits of the rest.
    pub leading_parts :
        leading a word ip (13 + k)
        ≡ word.value ip / 2 ^ (a.width - 13) * 2 ^ k + leading a word (rest_of_ip ip) k
    leading_parts =
        sym (mod-add-div (leading a word ip (13 + k)) (2 ^ k))
        ∙ omega (
          arith,
          rest-leading,
          ap (λ (t : ℕ). t * 2 ^ k) index-leading,
          mul_comm (2 ^ k) (leading a word ip (13 + k) / 2 ^ k),
        )

    pub rest-Masked : Masked a word ip (13 + k) → Masked a word (rest_of_ip ip) k
    unfolding p
    rest-Masked masked = record {
      fits = tabled.rest-IsIp ip h;
      short = omega arith;
      masked =
          ap (λ (t : ℕ). t % 2 ^ (a.width - k)) (rest-scaled ip h)
          ∙ ap (λ (t : ℕ). word.value ip % 2 ^ (a.width - 13) * 2 ^ 13 % t) lead_power
          ∙ scaled_by (word.value ip % 2 ^ (a.width - 13)) p (2 ^ 13) p-pos (omega arith)
          ∙ ap (λ (t : ℕ). t * 2 ^ 13)
              (ap (λ (t : ℕ). word.value ip % t % p) rest_power
                ∙ mod-mod_of_dvd p (word.value ip) (dvd-mul_right p (2 ^ k))
                ∙ masked.masked);
    }

  pub index-lt : (ip : a.Ip) → word.IsIp ip → index_of a ip < 8192
  index-lt ip h =
      let whole : word.value ip < 8192 * 2 ^ (a.width - 13) = omega (
        arith,
        word.value-lt ip h,
        pow-split a.width 13 (a.width - 13) (omega (arith, tabled.long)),
      ) in
      let top : word.value ip / 2 ^ (a.width - 13) < 8192 =
        (div-lt_iff_lt-mul (pow-pos (a.width - 13))).1 whole in
      omega (arith, tabled.index-value ip h, top)

  pub leading-lt : (ip : a.Ip) (k : ℕ) → word.IsIp ip → leading a word ip k < 2 ^ k
  leading-lt ip k h = elim (dec_lt a.width k) [
    | no wide ↦
        (div-lt_iff_lt-mul (pow-pos (a.width - k))).1
          (omega (arith, word.value-lt ip h, pow-split a.width k (a.width - k) (omega arith)))
    | yes beyond ↦
        let none_left : a.width - k ≡ 0 = omega arith in
        let whole : leading a word ip k ≡ word.value ip =
          ap (λ (t : ℕ). word.value ip / 2 ^ t) none_left ∙ omega arith in
        omega (arith, whole, word.value-lt ip h, pow-lt a.width k beyond)
  ]
