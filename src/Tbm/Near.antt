-- ===== src/Tbm/Near.antt =====
-- The nearest route of a word: the longest one of fewer than `m` bits, with its length. This is what the
-- entries of the table keep in `flags` and in their rule.
use native.Mathlib.Decide.{ℕ_discrete}
use native.Mathlib.Nat.{div-div-eq-div-mul}
use prefix_lookup_mc.Base.{
  ℕ, zero, suc, ◌-◌, ◌/◌, ◌^◌, ◌≤◌, ◌<◌, ◌≡◌, ◌≢◌, refl, sym, ap, ap₂, ◌∙◌, arith, Option, none,
  some, ltb, true, false, if◌then◌else◌, Option-cases, inl, inr,
}
use prefix_lookup_mc.Address.Word.{pow-split}
use prefix_lookup_mc.Node.Nodes.{Nhi}
use prefix_lookup_mc.Routes.{Routes, update, longest_prefix}

abbrev pub Near : Type 0
Near = Option (ℕ × Nhi)

abbrev pub with_length : ℕ → Option Nhi → Near → Near
with_length k none rest = rest
with_length k (some v) rest = some (k, v)

unfoldable pub near_below : Routes → ℕ → ℕ → ℕ → Near
near_below f x w zero = none
near_below f x w (suc k) = with_length k (f (x / 2 ^ (w - k)) k) (near_below f x w k)

-- Its length, 0 for none, and its rule.
abbrev pub hi_of : Near → ℕ
hi_of none = 0
hi_of (some (k, v)) = k

abbrev pub nhi_of : Near → Nhi
nhi_of none = 0
nhi_of (some (k, v)) = v

abbrev pub rule_of : Near → Option Nhi
rule_of none = none
rule_of (some (k, v)) = some v

module _ (f : Routes) (x w : ℕ) where
  pub near_below-lt : (m : ℕ) → 1 ≤ m → hi_of (near_below f x w m) < m
  unfolding near_below
  near_below-lt zero l = absurd (omega arith)
  near_below-lt (suc zero) l = elim (Option-cases (f (x / 2 ^ (w - 0)) 0)) [
    | inl e ↦ rw e (omega arith)
    | inr (v, e) ↦ rw e (omega arith)
  ]
  near_below-lt (suc (suc k)) l = elim (Option-cases (f (x / 2 ^ (w - suc k)) (suc k))) [
    | inl e ↦ rw e (omega (arith, near_below-lt (suc k) (omega arith)))
    | inr (v, e) ↦ rw e (omega arith)
  ]

  -- Without a route of no bits, a length of 0 is that of no route.
  pub near_below-none :
      (m : ℕ)
      → ((bits : ℕ) → f bits 0 ≡ none)
      → hi_of (near_below f x w m) ≡ 0
      → near_below f x w m ≡ none
  unfolding near_below
  near_below-none zero h e = refl
  near_below-none (suc zero) h e = rw (h (x / 2 ^ (w - 0))) refl
  near_below-none (suc (suc k)) h e = elim (Option-cases (f (x / 2 ^ (w - suc k)) (suc k))) [
    | inl e' ↦ rw e' (near_below-none (suc k) h (rw e' at e))
    | inr (v, e') ↦ let zero_length = rw e' at e in absurd (omega (arith, zero_length))
  ]

  -- The longest match is its rule.
  pub longest_prefix-near_below : (m : ℕ) → longest_prefix f w x m ≡ rule_of (near_below f x w m)
  unfolding near_below longest_prefix
  longest_prefix-near_below zero = refl
  longest_prefix-near_below (suc k) = elim (Option-cases (f (x / 2 ^ (w - k)) k)) [
    | inl e ↦ rw e (longest_prefix-near_below k)
    | inr (v, e) ↦ rw e refl
  ]

  -- Its rule is that of the route of its length.
  pub near_below-route :
      (m k : ℕ) (v : Nhi) → near_below f x w m ≡ some (k, v) → f (x / 2 ^ (w - k)) k ≡ some v
  unfolding near_below
  near_below-route zero k v e = absurd (ground (arith, e))
  near_below-route (suc j) k v e = elim (Option-cases (f (x / 2 ^ (w - j)) j)) [
    | inl e' ↦ near_below-route j k v (rw e' at e)
    | inr (u, e') ↦
        let parts : ◌≡◌ {A = Near} (some (j, u)) (some (k, v)) = rw e' at e in
        let length : j ≡ k = ap hi_of parts in
        let rule : u ≡ v = ap nhi_of parts in rw (← length, ← rule) e'
  ]

  -- A route that is there is not longer than the nearest one.
  pub near_below-le :
      (m k : ℕ) {v : Nhi} → k < m → f (x / 2 ^ (w - k)) k ≡ some v → k ≤ hi_of (near_below f x w m)
  unfolding near_below
  near_below-le zero k l e = absurd (omega arith)
  near_below-le (suc j) k l e = elim (Option-cases (f (x / 2 ^ (w - j)) j)) [
    | inr (v', e') ↦ rw e' (omega arith)
    | inl e' ↦ elim (ℕ_discrete k j) [
      | no ne ↦ rw e' (near_below-le j k (omega arith) e)
      | yes same ↦ absurd (ground (arith, e, e', same))
    ]
  ]

  -- Fewer bits of the word are enough for shorter routes.
  pub near_below_short :
      (c m : ℕ) → c ≤ w → m ≤ suc c → near_below f x w m ≡ near_below f (x / 2 ^ (w - c)) c m
  unfolding near_below
  near_below_short c zero l l' = refl
  near_below_short c (suc k) l l' =
      let bits : x / 2 ^ (w - k) ≡ x / 2 ^ (w - c) / 2 ^ (c - k) =
        ap (λ (t : ℕ). x / t) (pow-split (w - k) (w - c) (c - k) (omega arith))
        ∙ sym (div-div-eq-div-mul x (2 ^ (w - c)) (2 ^ (c - k))) in
      ap₂ (with_length k) (ap (λ (t : ℕ). f t k) bits) (near_below_short c k l (omega arith))

  module _ (bits c : ℕ) (o : Option Nhi) where
    update_at_ne : (k : ℕ) → k ≢ c → update f bits c o (x / 2 ^ (w - k)) k ≡ f (x / 2 ^ (w - k)) k
    unfolding update
    update_at_ne k ne = ground (arith, ne)

    update_at : x / 2 ^ (w - c) ≡ bits → (k : ℕ) → k ≡ c → update f bits c o (x / 2 ^ (w - k)) k ≡ o
    unfolding update
    update_at e k same =
        let there : x / 2 ^ (w - k) ≡ bits = ap (λ (t : ℕ). x / 2 ^ (w - t)) same ∙ e in
        ground (arith, there, same)

    -- A route changes nothing for shorter ones.
    pub near_below-update_short :
        (m : ℕ) → m ≤ c → near_below (update f bits c o) x w m ≡ near_below f x w m
    unfolding near_below
    near_below-update_short zero l = refl
    near_below-update_short (suc k) l =
        ap₂ (with_length k) (update_at_ne k (λ e. absurd (omega (arith, e, l))))
          (near_below-update_short k (omega arith))

    -- Nor for other words.
    pub near_below-update_ne :
        (m : ℕ) → x / 2 ^ (w - c) ≢ bits → near_below (update f bits c o) x w m ≡ near_below f x w m
    unfolding near_below update
    near_below-update_ne zero ne = refl
    near_below-update_ne (suc k) ne =
        let same : update f bits c o (x / 2 ^ (w - k)) k ≡ f (x / 2 ^ (w - k)) k =
          elim (ℕ_discrete k c) [
            | no apart ↦ ground (arith, apart)
            | yes e ↦
                let other : x / 2 ^ (w - k) ≢ bits =
                  λ q. ne (ap (λ (t : ℕ). x / 2 ^ (w - t)) (sym e) ∙ q) in
                ground (arith, other)
          ] in
        ap₂ (with_length k) same (near_below-update_ne k ne)

    -- It is the nearest one, or the one below it is, where there was no longer one.
    pub near_below-update :
        (m : ℕ)
        → x / 2 ^ (w - c) ≡ bits
        → c < m
        → near_below (update f bits c o) x w m ≡ (
            if ltb c (hi_of (near_below f x w m))
            then near_below f x w m
            else with_length c o (near_below f x w c))
    unfolding near_below
    near_below-update zero e l = absurd (omega arith)
    near_below-update (suc k) e l = elim (ℕ_discrete k c) [
      | yes same ↦
          let there : update f bits c o (x / 2 ^ (w - k)) k ≡ o = update_at e k same in
          let low = near_below-lt (suc k) (omega arith) in
          let not_longer : ltb c (hi_of (near_below f x w (suc k))) ≡ false =
            ground (arith, low, same) in
          rw (there, not_longer, near_below-update_short k (omega (arith, same)))
            (ap₂ (λ i j. with_length i o (near_below f x w j)) same same)
      | no ne ↦
          let later : c < k = omega (arith, ne) in
          elim (Option-cases (f (x / 2 ^ (w - k)) k)) [
            | inl e' ↦ rw (update_at_ne k ne, e') (near_below-update k e later)
            | inr (v, e') ↦
                let longer : ltb c k ≡ true = ground (arith, later) in
                rw (update_at_ne k ne, e', longer) refl
          ]
    ]
