-- ===== src/Visit/Loops.antt =====
-- The loops of the visits: every rule and every child of a node has its round.
use native.Mathlib.Decide.{ℕ_discrete, dec_lt}
use prefix_lookup_mc.Base.{
  ℕ, zero, suc, ◌+◌, ◌-◌, ◌^◌, ◌≤◌, ◌<◌, ◌≡◌, ◌∙◌, arith, Option, some, inl, inr, if◌then◌else◌,
  ◌>>=◌, Bool-cases, Gives, gives, Gives-bind, Gives-map,
}
use prefix_lookup_mc.Bits.{count_inl_bitmap, test_bitmap}
use prefix_lookup_mc.Bits.Digits.{bit}
use prefix_lookup_mc.Bits.Words.{test_bitmap_lem, count_inl_bitmap_lem, count_inl_bitmap-lt}
use prefix_lookup_mc.Bits.Packed.{entry_at_lem}
use prefix_lookup_mc.Node.Nodes.{Node, Nhi, external, internal, rules, children}
use prefix_lookup_mc.Node.{load_nhi, next_child}
use prefix_lookup_mc.Node.Layout.{IsNode, rule_at, child_at, load_nhi_lem, next_child_lem}
use prefix_lookup_mc.Visit.{count_from, for_each, for_rules, for_children}

module _ {S : Type 0} (R : S → S → Type 0) (R-refl : (s : S) → R s s)
    (R-trans : (s t u : S) → R s t → R t u → R s u) where
  pub for_counts :
      (Done : ℕ → S → Type 0)
      → ((x : ℕ) (s t : S) → R s t → Done x s → Done x t)
      → (rounds start : ℕ) (s : S) (round : ℕ → S → Option S)
      → ((x : ℕ) (s : S)
          → start ≤ x
          → x < start + rounds
          → Gives (λ t. R s t × Done x t) (round x s))
      → Gives
          (λ t. R s t × ((x : ℕ) → start ≤ x → x < start + rounds → Done x t))
          (for_each (count_from start rounds) s round)
  unfolding for_each
  for_counts Done mono zero start s round step =
      gives (R-refl s, λ x l l'. absurd (omega (arith, l, l')))
  for_counts Done mono (suc rounds) start s round step =
      Gives-bind (step start s (omega arith) (omega arith)) λ t first.
        Gives-map
          (for_counts Done mono rounds (suc start) t round
            (λ x s' l l'. step x s' (omega (arith, l)) (omega (arith, l'))))
          λ u rest. (
            R-trans s t u first.0 rest.0,
            λ x l l'. elim (ℕ_discrete start x) [
              | yes same ↦ rw (← same) (mono start t u rest.0 first.1)
              | no ne ↦ rest.1 x (omega (arith, l, ne)) (omega (arith, l'))
            ],
          )

  module _ (n : Node) (h : IsNode n) (D : ℕ → Nhi → S → Type 0)
      (mono : (p : ℕ) (v : Nhi) (s t : S) → R s t → D p v s → D p v t)
      (round : ℕ → ℕ → Nhi → S → Option S)
      (step : (cidr bits : ℕ) (v : Nhi) (s : S)
        → cidr < 6
        → bits < 2 ^ cidr
        → rule_at n (count_inl_bitmap bits cidr) ≡ some v
        → Gives (λ t. R s t × D (count_inl_bitmap bits cidr) v t) (round cidr bits v s)) where
    abbrev Ruled : ℕ → S → Type 0
    Ruled p s = (v : Nhi) → rule_at n p ≡ some v → D p v s

    rule_round :
        (cidr bits : ℕ) (s : S)
        → cidr < 6
        → bits < 2 ^ cidr
        → Gives
            (λ t. R s t × Ruled (count_inl_bitmap bits cidr) t)
            (if test_bitmap (internal n) (count_inl_bitmap bits cidr)
              then (load_nhi n (count_inl_bitmap bits cidr) >>= λ nhi. round cidr bits nhi s)
              else some s)
    rule_round cidr bits s l l' =
        let pos = count_inl_bitmap bits cidr in
        let low : pos < 64 = omega (arith, count_inl_bitmap-lt bits cidr l l') in
        elim (Bool-cases (bit (internal n) pos)) [
          | inr off ↦
              rw (test_bitmap_lem, off)
                (gives (R-refl s, λ v there. absurd (ground (arith, there))))
          | inl on ↦
              let (w, found) = entry_at_lem (internal n) (rules n) h.has_rules pos low on in
              rw (test_bitmap_lem, on, load_nhi_lem n pos h low on ∙ found)
                (Gives-map (step cidr bits w s l l' found) λ t r. (
                  r.0,
                  λ v there.
                      let found' = rw on at found in
                      let same : w ≡ v = ground (arith, found', there) in rw (← same) r.1,
                ))
        ]

    -- Every position below 63 is that of some bits of a length.
    position_of_bits :
        (p : ℕ)
        → p < 63
        → (cidr : ℕ) × (bits : ℕ) × (cidr < 6)
          × (bits < 2 ^ cidr)
          × (count_inl_bitmap bits cidr ≡ p)
    position_of_bits p l = elim (dec_lt p 1) [
      | yes l' ↦ at 0 (omega arith) (omega arith) (omega (arith, l'))
      | no g0 ↦ elim (dec_lt p 3) [
        | yes l' ↦ at 1 (omega arith) (omega (arith, g0)) (omega (arith, l'))
        | no g1 ↦ elim (dec_lt p 7) [
          | yes l' ↦ at 2 (omega arith) (omega (arith, g1)) (omega (arith, l'))
          | no g2 ↦ elim (dec_lt p 15) [
            | yes l' ↦ at 3 (omega arith) (omega (arith, g2)) (omega (arith, l'))
            | no g3 ↦ elim (dec_lt p 31) [
              | yes l' ↦ at 4 (omega arith) (omega (arith, g3)) (omega (arith, l'))
              | no g4 ↦ at 5 (omega arith) (omega (arith, g4)) (omega (arith, l))
            ]
          ]
        ]
      ]
    ]
      where
        at :
            (cidr : ℕ)
            → cidr < 6
            → 2 ^ cidr ≤ p + 1
            → p + 1 < 2 ^ cidr + 2 ^ cidr
            → (cidr : ℕ) × (bits : ℕ) × (cidr < 6)
              × (bits < 2 ^ cidr)
              × (count_inl_bitmap bits cidr ≡ p)
        at cidr small low high =
            let bits = p + 1 - 2 ^ cidr in
            (
              cidr,
              bits,
              small,
              omega (arith, low, high),
              omega (arith, count_inl_bitmap_lem bits cidr small (omega (arith, low, high)), low),
            )

    pub for_rules_lem :
        (s : S)
        → Gives
            (λ t. R s t × ((p : ℕ) (v : Nhi) → p < 63 → rule_at n p ≡ some v → D p v t))
            (for_rules n s round)
    unfolding for_rules
    for_rules_lem s =
        Gives-map
          (for_counts
            (λ cidr t. (bits : ℕ) → bits < 2 ^ cidr → Ruled (count_inl_bitmap bits cidr) t)
            (λ cidr t u r done bits l v there.
              mono (count_inl_bitmap bits cidr) v t u r (done bits l v there))
            6 0 s _
            (λ cidr t l l'.
              Gives-map
                (for_counts (λ bits u. Ruled (count_inl_bitmap bits cidr) u)
                  (λ bits u w r done v there.
                    mono (count_inl_bitmap bits cidr) v u w r (done v there))
                  (2 ^ cidr) 0 t _
                  (λ bits u k k'. rule_round cidr bits u (omega (arith, l')) (omega (arith, k'))))
                λ u r. (r.0, λ bits k. r.1 bits (omega arith) (omega (arith, k)))))
          λ t r. (
            r.0,
            λ p v l there.
                let (cidr, bits, small, low, same) = position_of_bits p l in
                rw (← same)
                  (r.1 cidr (omega arith) (omega (arith, small)) bits low v (rw (← same) at there)),
          )

  module _ (n : Node) (h : IsNode n) (D : ℕ → Node → S → Type 0)
      (mono : (stride : ℕ) (c : Node) (s t : S) → R s t → D stride c s → D stride c t)
      (round : ℕ → Node → S → Option S)
      (step : (stride : ℕ) (c : Node) (s : S)
        → stride < 64
        → child_at n stride ≡ some c
        → Gives (λ t. R s t × D stride c t) (round stride c s)) where
    abbrev Visited : ℕ → S → Type 0
    Visited stride s = (c : Node) → child_at n stride ≡ some c → D stride c s

    child_round :
        (stride : ℕ) (s : S)
        → stride < 64
        → Gives
            (λ t. R s t × Visited stride t)
            (if test_bitmap (external n) stride
              then (next_child n stride >>= λ c. round stride c s)
              else some s)
    child_round stride s low = elim (Bool-cases (bit (external n) stride)) [
      | inr off ↦
          rw (test_bitmap_lem, off) (gives (R-refl s, λ c there. absurd (ground (arith, there))))
      | inl on ↦
          let (w, found) = entry_at_lem (external n) (children n) h.has_children stride low on in
          rw (test_bitmap_lem, on, next_child_lem n stride h low on ∙ found)
            (Gives-map (step stride w s low found) λ t r. (
              r.0,
              λ c there.
                  let found' = rw on at found in
                  let same : w ≡ c = ground (arith, found', there) in rw (← same) r.1,
            ))
    ]

    pub for_children_lem :
        (s : S)
        → Gives
            (λ t.
              R s t
              × ((stride : ℕ) (c : Node) → stride < 64 → child_at n stride ≡ some c → D stride c t))
            (for_children n s round)
    unfolding for_children
    for_children_lem s =
        Gives-map
          (for_counts Visited (λ stride t u r done c there. mono stride c t u r (done c there)) 64 0
            s _ (λ stride t l l'. child_round stride t (omega (arith, l'))))
          λ t r. (r.0, λ stride c l there. r.1 stride (omega arith) (omega (arith, l)) c there)
