-- ===== src/Tbm/Overlap.antt =====
-- `detect_overlap_generic` of lib/bitmap_v4.c, which the deletions from the table ask for the prefix that
-- takes the deleted one's place.
use native.Mathlib.Decide.{dec_lt}
use prefix_lookup_mc.Base.{
  ℕ, zero, suc, ◌+◌, ◌-◌, ◌*◌, ◌%◌, ◌≤◌, ◌<◌, ◌≡◌, refl, sym, ap, ap₂, ◌∙◌, arith, true, false,
  Option, none, some, ltb, ◌==◌, if◌then◌else◌, ◌>>=◌, inl, inr, Bool-cases, u8_mod,
}
use prefix_lookup_mc.Address.{Address, IsAddress, stride_of, shift}
use prefix_lookup_mc.Bits.Digits.{bit, zero-bit}
use prefix_lookup_mc.Bits.Words.{test_bitmap_lem}
use prefix_lookup_mc.Node.{load_nhi}
use prefix_lookup_mc.Node.Nodes.{Node, Nhi, internal, external}
use prefix_lookup_mc.Node.Layout.{next_child_lem}
use prefix_lookup_mc.TreeFunction.{find_overlap_in_node}
use prefix_lookup_mc.Trie.Shape.{IsTrie, IsTrieNode}
use prefix_lookup_mc.Trie.Child.{child_lem}
use prefix_lookup_mc.Address.Word.{IsWord, word_laws}
use prefix_lookup_mc.Routes.{Routes, Holds}
use prefix_lookup_mc.Lookup.{overlap_search, detect_overlap_generic}
use prefix_lookup_mc.Tbm.Nearest.{
  or_near, deeper_by, as_found, near_for, near-Here, near_without, near_with,
}
use prefix_lookup_mc.Tbm.Near.{Near, with_length, near_below, near_below-none, hi_of, rule_of}

-- The node's part of a round of the search.
take_found : Node → Option (ℕ × ℕ) → ℕ → ℕ → ℕ × Nhi → Option (ℕ × Nhi)
take_found n result step org_limit found = elim result [
  | none ↦ some found
  | some (pos, mask) ↦
      let curr_mask = (step * 6 + mask) % u8_mod in
      if ltb curr_mask org_limit then (load_nhi n pos >>= λ v. some (curr_mask, v)) else some found
]

module _ (a : Address) (laws : IsAddress a) where
  take_found_lem :
      (d : ℕ) (n : Node) (ip : a.Ip) (limit step org : ℕ) (fo : Near)
      → IsTrieNode n
      → laws.IsIp ip
      → limit ≤ 6
      → step * 6 + limit ≤ org
      → org ≤ 128
      → take_found n
          (find_overlap_in_node (internal n) (stride_of a ip 6) limit)
          step
          org
          (as_found fo)
        ≡ some (as_found (or_near (deeper_by step (near_for a d n ip limit)) fo))
  unfolding take_found
  take_found_lem d n ip limit step org fo h i l room small =
      elim (near-Here a d n ip h (laws.stride-lt ip i) limit l) [
        | inl (e, e') ↦ rw (e, e') refl
        | inr (pos, mask, v, e, low, loaded, e') ↦
            let whole : (step * 6 + mask) % u8_mod ≡ step * 6 + mask = omega arith in
            let below : ltb (step * 6 + mask) org ≡ true = ground (arith, low, room) in
            rw (e, e', whole, below, loaded) refl
      ]

  or_near_assoc : (x y z : Near) → or_near (or_near x y) z ≡ or_near x (or_near y z)
  or_near_assoc none y z = refl
  or_near_assoc (some x) y z = refl

  deeper_by_or :
      (step : ℕ) (x y : Near)
      → deeper_by step (or_near (deeper_by 1 x) y)
        ≡ or_near (deeper_by (step + 1) x) (deeper_by step y)
  deeper_by_or step none y = refl
  deeper_by_or step (some (k, v)) y =
      let same : step * 6 + (1 * 6 + k) ≡ (step + 1) * 6 + k = omega arith in
      ap (λ (t : ℕ). some (t, v)) same

  overlap_search_lem :
      (d fuel : ℕ) (n : Node) (ip : a.Ip) (limit step org : ℕ) (fo : Near)
      → IsTrie d n
      → laws.IsIp ip
      → 0 < limit
      → limit ≤ fuel
      → limit ≤ (d + 1) * 6
      → step * 6 + limit ≡ org
      → org ≤ 128
      → overlap_search a fuel n ip limit step org (as_found fo)
        ≡ some (as_found (or_near (deeper_by step (near_for a d n ip limit)) fo))
  unfolding overlap_search take_found
  overlap_search_lem d zero n ip limit step org fo h i pos enough deep total small =
      absurd (omega arith)
  overlap_search_lem zero (suc fuel) n ip limit step org fo h i pos enough deep total small =
      let here : ltb 6 limit ≡ false = ground arith in
      rw
        (
          here,
          take_found_lem zero n ip limit step org fo h.0 i (omega arith) (omega (arith, total))
              small,
          test_bitmap_lem,
          h.1,
          zero-bit,
        )
        refl
  overlap_search_lem (suc d) (suc fuel) n ip limit step org fo h i pos enough deep total small =
      elim (dec_lt 6 limit) [
        | no within ↦
            let here : ltb 6 limit ≡ false = ground (arith, within) in
            let found =
              take_found_lem (suc d) n ip limit step org fo h.0 i (omega (arith, within))
                (omega (arith, total)) small in
            elim (Bool-cases (bit (external n) (stride_of a ip 6))) [
              | inl on ↦ rw (here, found, test_bitmap_lem, on) refl
              | inr off ↦ rw (here, found, test_bitmap_lem, off) refl
            ]
        | yes beyond ↦
            let long : ltb 6 limit ≡ true = ground (arith, beyond) in
            let low = laws.stride-lt ip i in
            let parts : limit ≡ limit - 6 + 6 = omega arith in
            let fo' = or_near (deeper_by step (near_for a (suc d) n ip 6)) fo in
            let found =
              take_found_lem (suc d) n ip 6 step org fo h.0 i (omega arith) (omega (arith, total))
                small in
            elim (Bool-cases (bit (external n) (stride_of a ip 6))) [
              | inr off ↦
                  let whole : near_for a (suc d) n ip limit ≡ near_for a (suc d) n ip 6 =
                    ap (near_for a (suc d) n ip) parts
                    ∙ near_without a n ip d (limit - 6) (rw off refl) in
                  rw (long, found, test_bitmap_lem, off, whole) refl
              | inl on ↦
                  let (c, there, child, hc) = child_lem d n h (stride_of a ip 6) low on in
                  let whole : near_for a (suc d) n ip limit
                      ≡ or_near (deeper_by 1 (near_for a d c (shift a ip) (limit - 6)))
                          (near_for a (suc d) n ip 6) =
                    ap (near_for a (suc d) n ip) parts ∙ near_with a n ip d (limit - 6) c child in
                  rw
                    (
                      long,
                      found,
                      test_bitmap_lem,
                      on,
                      next_child_lem n (stride_of a ip 6) h.0.is_node low on ∙ child,
                      whole,
                    )
                    (overlap_search_lem d fuel c (shift a ip) (limit - 6) (step + 1) org fo' hc
                        (laws.shift-IsIp ip i) (omega arith) (omega arith) (omega arith)
                        (omega (arith, total)) small
                      ∙ ap (λ t. some (as_found t))
                          (sym (
                              or_near_assoc
                                (deeper_by (step + 1) (near_for a d c (shift a ip) (limit - 6)))
                                (deeper_by step (near_for a (suc d) n ip 6)) fo)
                            ∙ ap (λ t. or_near t fo)
                                (sym (
                                  deeper_by_or step (near_for a d c (shift a ip) (limit - 6))
                                    (near_for a (suc d) n ip 6)))))
            ]
      ]

deeper_by-zero : (x : Near) → or_near (deeper_by 0 x) none ≡ x
deeper_by-zero none = refl
deeper_by-zero (some (k, v)) = ap (λ (t : ℕ). some (t, v)) (omega arith)

report :
    (o : Near)
    → (hi_of o ≡ 0 → o ≡ none)
    → ◌≡◌ {A = Option (ℕ × Option Nhi)}
        (some ((as_found o).0, (if (as_found o).0 == 0 then none else some ((as_found o).1))))
        (some (hi_of o, rule_of o))
report none h = refl
report (some (zero, v)) h = let missing = h refl in absurd (ground (arith, missing))
report (some (suc k, v)) h = let longer : (suc k == 0) ≡ false = ground arith in rw longer refl

-- The number of bits that the search looks below.
abbrev pub limit_of : ℕ → ℕ → ℕ
limit_of cidr bits_limit = if ltb bits_limit cidr then bits_limit else cidr

module _ (a : Address) (word : IsWord a) (d : ℕ) (n : Node) (f : Routes) (ip : a.Ip)
    (cidr bits_limit : ℕ) (holds : Holds a word d n f) (i : word.IsIp ip)
    (deep : limit_of cidr bits_limit ≤ (d + 1) * 6) where
  near_for-near_below :
      (m : ℕ) → m ≤ (d + 1) * 6 → near_for a d n ip m ≡ near_below f (word.value ip) a.width m
  unfolding near_for near_below
  near_for-near_below zero l = refl
  near_for-near_below (suc m) l =
      ap₂ (with_length m) (holds ip m i (omega arith)) (near_for-near_below m (omega arith))

  -- In a trie that holds a table of routes with no default route, detect_overlap_generic for an address in
  -- range returns without a fault, with the length of the longest route of the address that has fewer bits
  -- than the prefix and than the limit, and with its rule; with 0 and nothing if there is none. The
  -- smaller of the two bounds is at most 128 and no more than the trie is deep.
  pub detect_overlap_generic_lem :
      IsTrie d n
      → ((bits : ℕ) → f bits 0 ≡ none)
      → limit_of cidr bits_limit ≤ 128
      → detect_overlap_generic a n ip cidr bits_limit
        ≡ some (
          hi_of (near_below f (word.value ip) a.width (limit_of cidr bits_limit)),
          rule_of (near_below f (word.value ip) a.width (limit_of cidr bits_limit)),
        )
  unfolding detect_overlap_generic word_laws near_below
  detect_overlap_generic_lem h no_default small =
      elim (Bool-cases (limit_of cidr bits_limit == 0)) [
        | inl no_bits ↦
            let zero_limit : limit_of cidr bits_limit ≡ 0 = ground (arith, no_bits) in
            rw (no_bits, zero_limit) refl
        | inr some_bits ↦
            let limit = limit_of cidr bits_limit in
            let found = near_below f (word.value ip) a.width limit in
            let search =
              overlap_search_lem a (word_laws a word) d limit n ip limit 0 limit none h i
                (ground (arith, some_bits)) (omega arith) deep (omega arith) small
              ∙ ap (λ t. some (as_found t))
                  (deeper_by-zero (near_for a d n ip limit) ∙ near_for-near_below limit deep) in
            rw (some_bits, search)
              (report found (near_below-none f (word.value ip) a.width limit no_default))
      ]
