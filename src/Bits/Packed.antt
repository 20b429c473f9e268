-- ===== src/Bits/Packed.antt =====
-- A packed array: one entry for each set bit of a bitmap, the highest bit's first. This is how a node
-- keeps its rules and its children; here it is read as a partial map from positions.
use prefix_lookup_mc.Base.{
  ℕ, suc, ◌^◌, ◌<◌, ◌≤◌, ◌≡◌, ◌≢◌, ap, ◌∙◌, arith, true, false, Option, none, some, List, length,
  get_elem?, set, insert_at, remove_at, if◌then◌else◌, leb, Bool-cases, inl, inr,
}
use prefix_lookup_mc.Base.{
  length-insert_at, length-remove_at, get_elem?-insert_at_lt, get_elem?-insert_at_self,
  get_elem?-insert_at_gt, get_elem?-remove_at_lt, get_elem?-remove_at_ge, length-set, get_elem?_lem,
  get_elem?-set_self, get_elem?-set_ne,
}
use prefix_lookup_mc.Bits.Digits.{
  bit, set_bit, clear_bit, ones_from, bit-set_bit_self, bit-set_bit_ne, bit-clear_bit_self,
  bit-clear_bit_ne, set_bit-lt, clear_bit-le, ones_from_step, ones_from_mono, ones_from-set_bit,
  ones_from-clear_bit,
}

module _ {ℓ} {A : Type ℓ} where
  pub record IsPacked (b : ℕ) (xs : List A) : Type 0 where
    pub fits : b < 2 ^ 64
    pub counted : length xs ≡ ones_from 64 b 0

  abbrev pub entry_at : ℕ → List A → ℕ → Option A
  entry_at b xs p = if bit b p then get_elem? xs (ones_from 64 b (suc p)) else none

module _ {ℓ} {A : Type ℓ} (b : ℕ) (xs : List A) (packed : IsPacked b xs) where
  abbrev rank : ℕ → ℕ
  rank p = ones_from 64 b (suc p)

  pub rank-le : (p : ℕ) → rank p ≤ length xs
  rank-le p = omega (arith, packed.counted, ones_from_mono 64 b 0 (suc p) (omega arith))

  pub rank-lt : (p : ℕ) → p < 64 → bit b p ≡ true → rank p < length xs
  rank-lt p h e =
      ground (arith, packed.counted, ones_from_mono 64 b 0 p (omega arith), ones_from_step 64 b p h)

  -- A set bit has its entry.
  pub entry_at_lem : (p : ℕ) → p < 64 → bit b p ≡ true → (a : A) × (entry_at b xs p ≡ some a)
  entry_at_lem p h e = let (a, found) = get_elem?_lem xs (rank p) (rank-lt p h e) in (a, rw e found)

  -- Of two set bits the lower has the greater index.
  pub rank-anti : (p q : ℕ) → p < q → q < 64 → bit b q ≡ true → rank q < ones_from 64 b (suc p)
  rank-anti p q h k e = ground (arith, ones_from_mono 64 b (suc p) q h, ones_from_step 64 b q k)

  module _ (p : ℕ) (low : p < 64) (v : A) (free : bit b p ≡ false) where
    pub insert-IsPacked : IsPacked (set_bit b p) (insert_at (rank p) v xs)
    insert-IsPacked = record {
      fits = set_bit-lt 64 b p packed.fits low;
      counted = ground (
        arith,
        length-insert_at (rank p) v xs,
        packed.counted,
        ones_from-set_bit 64 b p 0 low free,
      );
    }

    rank-set_bit : (q : ℕ) → p ≤ q → ones_from 64 (set_bit b p) (suc q) ≡ rank q
    rank-set_bit q h = ground (arith, ones_from-set_bit 64 b p (suc q) low free)

    rank-set_bit_below : (q : ℕ) → q < p → ones_from 64 (set_bit b p) (suc q) ≡ suc (rank q)
    rank-set_bit_below q h = ground (arith, ones_from-set_bit 64 b p (suc q) low free)

    pub entry_at-insert_self : entry_at (set_bit b p) (insert_at (rank p) v xs) p ≡ some v
    entry_at-insert_self =
        rw (bit-set_bit_self b p, rank-set_bit p (omega arith))
          (get_elem?-insert_at_self (rank p) v xs (rank-le p))

    pub entry_at-insert_ne :
        (q : ℕ)
        → q < 64
        → p ≢ q
        → entry_at (set_bit b p) (insert_at (rank p) v xs) q ≡ entry_at b xs q
    entry_at-insert_ne q k ne = rw (bit-set_bit_ne b p q ne) (elim (Bool-cases (bit b q)) [
      | inr off ↦ rw off
      | inl on ↦ rw on (elim (Bool-cases (leb q p)) [
        | inl below ↦ rw (rank-set_bit_below q (ground arith)) (
            get_elem?-insert_at_gt (rank p) (rank q) v xs
              (ones_from_mono 64 b (suc q) (suc p) (ground arith)))
        | inr above ↦ rw (rank-set_bit q (ground arith)) (
            get_elem?-insert_at_lt (rank p) (rank q) v xs (rank-anti p q (ground arith) k on)
              (rank-le p))
      ])
    ])

  module _ (p : ℕ) (low : p < 64) (on : bit b p ≡ true) where
    pub remove-IsPacked : IsPacked (clear_bit b p) (remove_at (rank p) xs)
    remove-IsPacked = record {
      fits = omega (arith, clear_bit-le b p, packed.fits);
      counted = ground (
        arith,
        length-remove_at (rank p) xs (rank-lt p low on),
        packed.counted,
        ones_from-clear_bit 64 b p 0 low on,
      );
    }

    rank-clear_bit : (q : ℕ) → p ≤ q → ones_from 64 (clear_bit b p) (suc q) ≡ rank q
    rank-clear_bit q h = ground (arith, ones_from-clear_bit 64 b p (suc q) low on)

    rank-clear_bit_below : (q : ℕ) → q < p → suc (ones_from 64 (clear_bit b p) (suc q)) ≡ rank q
    rank-clear_bit_below q h = ground (arith, ones_from-clear_bit 64 b p (suc q) low on)

    pub entry_at-remove_self : entry_at (clear_bit b p) (remove_at (rank p) xs) p ≡ none
    entry_at-remove_self = rw (bit-clear_bit_self b p)

    pub entry_at-remove_ne :
        (q : ℕ)
        → q < 64
        → p ≢ q
        → entry_at (clear_bit b p) (remove_at (rank p) xs) q ≡ entry_at b xs q
    entry_at-remove_ne q k ne = rw (bit-clear_bit_ne b p q ne) (elim (Bool-cases (bit b q)) [
      | inr off ↦ rw off
      | inl set ↦ rw set (elim (Bool-cases (leb q p)) [
        | inl below ↦
            get_elem?-remove_at_ge (rank p) (ones_from 64 (clear_bit b p) (suc q)) xs (
              omega
                (arith, rank-clear_bit_below q (ground arith), rank-anti q p (ground arith) low on))
            ∙ ap (λ i. get_elem? xs i) (rank-clear_bit_below q (ground arith))
        | inr above ↦
            rw (rank-clear_bit q (ground arith))
              (get_elem?-remove_at_lt (rank p) (rank q) xs (rank-anti p q (ground arith) k set))
      ])
    ])

    module _ (v : A) where
      pub set-IsPacked : IsPacked b (set xs (rank p) v)
      set-IsPacked = record {
        fits = packed.fits;
        counted = length-set xs (rank p) v ∙ packed.counted;
      }

      pub entry_at-set_self : entry_at b (set xs (rank p) v) p ≡ some v
      entry_at-set_self = rw on (get_elem?-set_self xs (rank p) v (rank-lt p low on))

      pub entry_at-set_ne :
          (q : ℕ) → q < 64 → p ≢ q → entry_at b (set xs (rank p) v) q ≡ entry_at b xs q
      entry_at-set_ne q k ne = elim (Bool-cases (bit b q)) [
        | inr off ↦ rw off
        | inl on' ↦ rw on' (get_elem?-set_ne xs (rank p) (rank q) v (apart on'))
      ]
        where
          apart : bit b q ≡ true → rank p ≢ rank q
          apart on' = elim (Bool-cases (leb q p)) [
            | inl below ↦ omega (arith, rank-anti q p (ground arith) low on)
            | inr above ↦ omega (arith, rank-anti p q (ground arith) k on')
          ]
