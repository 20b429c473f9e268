-- ===== src/Address/Word.antt =====
-- An address as one word of `width` bits: from what its shifts do to the word, the laws that the walks
-- rely on, with the masked prefixes and the addresses under a prefix.
use native.Mathlib.Nat.{
  pow-suc, mod-add-div, add-mul-div_left, add-mul-mod_self_left, mod-lt, mod-eq_of_lt,
  div-lt_iff_lt-mul, one-le-pow, div-div-eq-div-mul, mul-div-mul_right, mod-mod_of_dvd,
  dvd-mul_right, mul_assoc, mul_comm, mul-pos,
}
use prefix_lookup_mc.Base.{
  ℕ, zero, suc, ◌+◌, ◌-◌, ◌*◌, ◌/◌, ◌%◌, ◌^◌, ◌≤◌, ◌<◌, ◌≡◌, sym, ap, ◌∙◌, arith,
}
use prefix_lookup_mc.Address.{Address, IsAddress, Covering, stride_of, shift}

pub pow-add : (a b : ℕ) → 2 ^ (a + b) ≡ 2 ^ a * 2 ^ b
pow-add zero b = let same : 0 + b ≡ b = omega arith in rw same (omega arith)
pow-add (suc a) b =
    let same : suc a + b ≡ suc (a + b) = omega arith in
    rw same (
      omega (
        arith,
        pow-suc 2 (a + b),
        ap (λ (t : ℕ). t * 2) (pow-add a b),
        pow-suc 2 a,
        ap (λ (t : ℕ). t * 2 ^ b) (pow-suc 2 a),
      ))

pub pow-split : (c a b : ℕ) → c ≡ a + b → 2 ^ c ≡ 2 ^ a * 2 ^ b
pow-split c a b e = ap (λ (t : ℕ). 2 ^ t) e ∙ pow-add a b

pub pow-pos : (k : ℕ) → 0 < 2 ^ k
pow-pos k = one-le-pow k 2 (omega arith)

pub mod-div : (x b n : ℕ) → 1 ≤ b → 1 ≤ n → x % (b * n) / b ≡ x / b % n
mod-div x b n h k = sym (ap (λ (t : ℕ). t % n) quotient ∙ small)
  where
    y : ℕ
    y = x % (b * n)

    q : ℕ
    q = x / (b * n)

    split : x ≡ y + b * (n * q)
    split = sym (mod-add-div x (b * n)) ∙ ap (λ (t : ℕ). y + t) (mul_assoc b n q)

    quotient : x / b ≡ y / b + n * q
    quotient = ap (λ (t : ℕ). t / b) split ∙ add-mul-div_left y (n * q) h

    low : y / b < n
    low =
        (div-lt_iff_lt-mul h).1 (
          omega (arith, mod-lt x (mul-pos h k), ap (λ (t : ℕ). x % t) (mul_comm b n), mul_comm b n))

    small : (y / b + n * q) % n ≡ y / b
    small = add-mul-mod_self_left (y / b) n q ∙ mod-eq_of_lt low

scaled_mod : (x m : ℕ) → 0 < m → x * 64 % (m * 64) ≡ x % m * 64
scaled_mod x m h =
    ap (λ (t : ℕ). t % (m * 64)) split
    ∙ add-mul-mod_self_left (x % m * 64) (m * 64) (x / m)
    ∙ mod-eq_of_lt (omega (arith, mod-lt x h))
  where
    split : x * 64 ≡ x % m * 64 + m * 64 * (x / m)
    split = omega (arith, ap (λ (t : ℕ). t * 64) (mod-add-div x m))

-- What the instance shows of its word.
pub record IsWord (a : Address) : Type 1 where
  pub IsIp : a.Ip → Type 0
  pub value : a.Ip → ℕ
  pub wide : 6 ≤ a.width
  pub value-lt : (ip : a.Ip) → IsIp ip → value ip < 2 ^ a.width
  pub shift-IsIp : (ip : a.Ip) → IsIp ip → IsIp (shift a ip)
  pub value-shift : (ip : a.Ip) → IsIp ip → value (shift a ip) ≡ value ip * 64 % 2 ^ a.width
  pub stride-value :
      (ip : a.Ip) (k : ℕ)
      → IsIp ip
      → 1 ≤ k
      → k ≤ 6
      → stride_of a ip k ≡ value ip / 2 ^ (a.width - k)
  pub stride_of_zero : (ip : a.Ip) → IsIp ip → value ip ≡ 0 → stride_of a ip 0 ≡ 0

module _ (a : Address) (word : IsWord a) where
  -- The host part of a prefix of `cidr` bits is zero.
  pub record Masked (ip : a.Ip) (cidr : ℕ) : Type 0 where
    pub fits : word.IsIp ip
    pub short : cidr ≤ a.width
    pub masked : word.value ip % 2 ^ (a.width - cidr) ≡ 0

  -- The `k` leading bits are those of the prefix.
  pub record Under (p : a.Ip) (k : ℕ) (ip : a.Ip) : Type 0 where
    pub p_fits : word.IsIp p
    pub ip_fits : word.IsIp ip
    pub short : k ≤ a.width
    pub same : word.value ip / 2 ^ (a.width - k) ≡ word.value p / 2 ^ (a.width - k)

  -- The first stride, and the bits of it.
  pub stride_bits_of :
      (ip : a.Ip) (k : ℕ)
      → word.IsIp ip
      → k ≤ 6
      → stride_of a ip 6 / 2 ^ (6 - k) ≡ word.value ip / 2 ^ (a.width - k)
  stride_bits_of ip k h l =
      ap (λ (t : ℕ). t / 2 ^ (6 - k)) (word.stride-value ip 6 h (omega arith) (omega arith))
      ∙ div-div-eq-div-mul (word.value ip) (2 ^ (a.width - 6)) (2 ^ (6 - k))
      ∙ ap (λ (t : ℕ). word.value ip / t)
          (sym (pow-split (a.width - k) (a.width - 6) (6 - k) (omega (arith, word.wide))))

  -- A word without bits below its width is zero.
  pub Masked-zero : (ip : a.Ip) → Masked ip 0 → word.value ip ≡ 0
  Masked-zero ip h =
      let whole : a.width ≡ a.width - 0 = omega arith in
      sym (mod-eq_of_lt (word.value-lt ip h.fits))
      ∙ ap (λ (t : ℕ). word.value ip % 2 ^ t) whole
      ∙ h.masked

  pub Masked-stride :
      (ip : a.Ip) (k : ℕ) → Masked ip k → k < 6 → stride_of a ip k ≡ stride_of a ip 6 / 2 ^ (6 - k)
  Masked-stride ip zero h l =
      let none_set = Masked-zero ip h in
      word.stride_of_zero ip h.fits none_set
      ∙ omega (
        arith,
        ap (λ (t : ℕ). t / 2 ^ a.width) none_set,
        stride_bits_of ip 0 h.fits (omega arith),
      )
  Masked-stride ip (suc k) h l =
      word.stride-value ip (suc k) h.fits (omega arith) (omega arith)
      ∙ sym (stride_bits_of ip (suc k) h.fits (omega arith))

  -- The bits behind the first stride, which the shift brings forward.
  abbrev pub behind : a.Ip → ℕ
  behind ip = word.value ip % 2 ^ (a.width - 6)

  pub value-shift-behind : (ip : a.Ip) → word.IsIp ip → word.value (shift a ip) ≡ behind ip * 64
  value-shift-behind ip h =
      word.value-shift ip h
      ∙ ap (λ (t : ℕ). word.value ip * 64 % t)
          (pow-split a.width (a.width - 6) 6 (omega (arith, word.wide)))
      ∙ scaled_mod (word.value ip) (2 ^ (a.width - 6)) (pow-pos (a.width - 6))

  module _ (k : ℕ) (low : 6 ≤ k) (short : k ≤ a.width) where
    shifted_power : 2 ^ (a.width - (k - 6)) ≡ 2 ^ (a.width - k) * 64
    shifted_power = pow-split (a.width - (k - 6)) (a.width - k) 6 (omega arith)

    behind_power : 2 ^ (a.width - 6) ≡ 2 ^ (a.width - k) * 2 ^ (k - 6)
    behind_power = pow-split (a.width - 6) (a.width - k) (k - 6) (omega arith)

    pub shift-top :
        (ip : a.Ip)
        → word.IsIp ip
        → word.value (shift a ip) / 2 ^ (a.width - (k - 6))
          ≡ word.value ip / 2 ^ (a.width - k) % 2 ^ (k - 6)
    shift-top ip h =
        ap (λ (t : ℕ). t / 2 ^ (a.width - (k - 6))) (value-shift-behind ip h)
        ∙ ap (λ (t : ℕ). behind ip * 64 / t) shifted_power
        ∙ mul-div-mul_right (behind ip) (2 ^ (a.width - k)) (omega arith)
        ∙ ap (λ (t : ℕ). word.value ip % t / 2 ^ (a.width - k)) behind_power
        ∙ mod-div (word.value ip) (2 ^ (a.width - k)) (2 ^ (k - 6)) (pow-pos (a.width - k))
            (pow-pos (k - 6))

    shift-host :
        (ip : a.Ip)
        → word.IsIp ip
        → word.value (shift a ip) % 2 ^ (a.width - (k - 6)) ≡ word.value ip % 2 ^ (a.width - k) * 64
    shift-host ip h =
        ap (λ (t : ℕ). t % 2 ^ (a.width - (k - 6))) (value-shift-behind ip h)
        ∙ ap (λ (t : ℕ). behind ip * 64 % t) shifted_power
        ∙ scaled_mod (behind ip) (2 ^ (a.width - k)) (pow-pos (a.width - k))
        ∙ ap (λ (t : ℕ). t * 64)
            (ap (λ (t : ℕ). word.value ip % t % 2 ^ (a.width - k)) behind_power
              ∙ mod-mod_of_dvd (2 ^ (a.width - k)) (word.value ip)
                  (dvd-mul_right (2 ^ (a.width - k)) (2 ^ (k - 6))))

  pub shift-Masked : (ip : a.Ip) (k : ℕ) → Masked ip k → 6 ≤ k → Masked (shift a ip) (k - 6)
  shift-Masked ip k h l = record {
    fits = word.shift-IsIp ip h.fits;
    short = omega (arith, h.short);
    masked = shift-host k l h.short ip h.fits ∙ ap (λ (t : ℕ). t * 64) h.masked;
  }

  pub stride-lt : (ip : a.Ip) → word.IsIp ip → stride_of a ip 6 < 64
  stride-lt ip h =
      let whole : word.value ip < 64 * 2 ^ (a.width - 6) =
        omega (
          arith,
          word.value-lt ip h,
          pow-split a.width 6 (a.width - 6) (omega (arith, word.wide)),
        ) in
      let top : word.value ip / 2 ^ (a.width - 6) < 64 =
        (div-lt_iff_lt-mul (pow-pos (a.width - 6))).1 whole in
      omega (arith, word.stride-value ip 6 h (omega arith) (omega arith), top)

  unfoldable pub word_laws : IsAddress a
  word_laws = record {
    IsIp = word.IsIp;
    IsMasked = Masked;
    shift-IsIp = word.shift-IsIp;
    shift-IsMasked = shift-Masked;
    masked-IsIp = λ ip cidr h. h.fits;
    stride-lt = stride-lt;
    masked_head = Masked-stride;
  }

  pub Under-head :
      (p : a.Ip) (k : ℕ) (ip : a.Ip)
      → Under p k ip
      → k < 6
      → stride_of a ip 6 / 2 ^ (6 - k) ≡ stride_of a p 6 / 2 ^ (6 - k)
  Under-head p k ip h l =
      stride_bits_of ip k h.ip_fits (omega arith)
      ∙ h.same
      ∙ sym (stride_bits_of p k h.p_fits (omega arith))

  -- The first stride stands above the other leading bits.
  pub first_stride :
      (ip : a.Ip) (k : ℕ)
      → word.IsIp ip
      → 6 ≤ k
      → k ≤ a.width
      → stride_of a ip 6 ≡ word.value ip / 2 ^ (a.width - k) / 2 ^ (k - 6)
  first_stride ip k h l short =
      word.stride-value ip 6 h (omega arith) (omega arith)
      ∙ ap (λ (t : ℕ). word.value ip / t) (behind_power k l short)
      ∙ sym (div-div-eq-div-mul (word.value ip) (2 ^ (a.width - k)) (2 ^ (k - 6)))

  pub Under-stride :
      (p : a.Ip) (k : ℕ) (ip : a.Ip) → Under p k ip → 6 ≤ k → stride_of a ip 6 ≡ stride_of a p 6
  Under-stride p k ip h l =
      first_stride ip k h.ip_fits l h.short
      ∙ ap (λ (t : ℕ). t / 2 ^ (k - 6)) h.same
      ∙ sym (first_stride p k h.p_fits l h.short)

  pub Under-shift :
      (p : a.Ip) (k : ℕ) (ip : a.Ip) → Under p k ip → 6 ≤ k → Under (shift a p) (k - 6) (shift a ip)
  Under-shift p k ip h l = record {
    p_fits = word.shift-IsIp p h.p_fits;
    ip_fits = word.shift-IsIp ip h.ip_fits;
    short = omega (arith, h.short);
    same =
        shift-top k l h.short ip h.ip_fits
        ∙ ap (λ (t : ℕ). t % 2 ^ (k - 6)) h.same
        ∙ sym (shift-top k l h.short p h.p_fits);
  }

  unfoldable pub word_covering : Covering a
  word_covering = record {
    Covers = Under;
    covers-head = Under-head;
    covers-stride = Under-stride;
    covers-shift = Under-shift;
  }
