-- ===== src/Tbm/Nearest.antt =====
-- The nearest rule that a trie has for an address, by levels: a node's own part, or one below it.
use native.Mathlib.Decide.{ℕ_discrete}
use prefix_lookup_mc.Base.{
  ℕ, zero, suc, ◌+◌, ◌-◌, ◌*◌, ◌/◌, ◌^◌, ◌≤◌, ◌<◌, ◌≡◌, refl, sym, ap, ◌∙◌, arith, true, false,
  Option, none, some, ltb, inl, inr, ◌⊎◌, Option-cases,
}
use prefix_lookup_mc.Address.{Address, stride_of, shift}
use prefix_lookup_mc.Bits.{test_bitmap}
use prefix_lookup_mc.Bits.Digits.{bit}
use prefix_lookup_mc.Bits.Words.{test_bitmap_lem, count_inl_bitmap-lt}
use prefix_lookup_mc.Bits.Packed.{entry_at_lem}
use prefix_lookup_mc.Node.{load_nhi}
use prefix_lookup_mc.Node.Nodes.{Node, Nhi, internal, rules}
use prefix_lookup_mc.Node.Layout.{rule_at, child_at, load_nhi_lem}
use prefix_lookup_mc.TreeFunction.{find_overlap_in_node}
use prefix_lookup_mc.TreeFunction.Overlap.{head_pos, find_overlap_in_node_lem}
use prefix_lookup_mc.Trie.Shape.{IsTrieNode}
use prefix_lookup_mc.Trie.Prefix.{head_bound}
use prefix_lookup_mc.Lookup.Best.{rule_for, rule_for_short, one_more}
use prefix_lookup_mc.Tbm.Near.{Near, with_length}

abbrev pub or_near : Near → Near → Near
or_near none o = o
or_near (some x) o = some x

abbrev pub deeper_by : ℕ → Near → Near
deeper_by step none = none
deeper_by step (some (k, v)) = some (step * 6 + k, v)

-- As `nhi_over` and the mask.
abbrev pub as_found : Near → ℕ × Nhi
as_found none = (0, 0)
as_found (some r) = r

-- The nearest of the rules that a trie has for an address.
unfoldable pub near_for : (a : Address) → ℕ → Node → a.Ip → ℕ → Near
near_for a d n ip zero = none
near_for a d n ip (suc k) = with_length k (rule_for a d n ip k) (near_for a d n ip k)

module _ (a : Address) (d : ℕ) (n : Node) (ip : a.Ip) where
  -- Lengths without a rule do not count.
  near_for_skip :
      (j m : ℕ)
      → j ≤ m
      → ((k : ℕ) → j ≤ k → k < m → rule_for a d n ip k ≡ none)
      → near_for a d n ip m ≡ near_for a d n ip j
  unfolding near_for
  near_for_skip j zero l h = let same : j ≡ 0 = omega arith in rw same refl
  near_for_skip j (suc m) l h = elim (ℕ_discrete j (suc m)) [
    | yes same ↦ rw same refl
    | no ne ↦
        let before : j ≤ m = omega arith in
        rw (h m before (omega arith)) (near_for_skip j m before (λ k l' l''. h k l' (omega arith)))
  ]

  module _ (h : IsTrieNode n) (stride_low : stride_of a ip 6 < 64) (limit : ℕ) (l : limit ≤ 6) where
    -- What a node's part of the search finds.
    abbrev Here : Option (ℕ × ℕ) → Type 0
    Here result =
        ((result ≡ none) × (near_for a d n ip limit ≡ none))
        ⊎ ((pos : ℕ) × (mask : ℕ) × (v : Nhi) × (result ≡ some (pos, mask))
            × (mask < limit)
            × (load_nhi n pos ≡ some v)
            × (near_for a d n ip limit ≡ some (mask, v)))

    unset_rule :
        (k : ℕ)
        → k < 6
        → test_bitmap (internal n) (head_pos 6 (stride_of a ip 6) k) ≡ false
        → rule_for a d n ip k ≡ none
    unset_rule k l' off =
        rule_for_short a n ip d k l'
        ∙ rw (sym (test_bitmap_lem (internal n) (head_pos 6 (stride_of a ip 6) k)) ∙ off) refl

    pub near-Here : Here (find_overlap_in_node (internal n) (stride_of a ip 6) limit)
    unfolding near_for
    near-Here =
        let found = find_overlap_in_node_lem (internal n) (stride_of a ip 6) limit l in
        elim (Option-cases (find_overlap_in_node (internal n) (stride_of a ip 6) limit)) [
          | inl e ↦ inl (
            e,
            near_for_skip 0 limit (omega arith)
                (λ k l' l''. unset_rule k (omega arith) (found.none_set e k l'')),
          )
          | inr ((pos, mask), e) ↦
              let (low, place, on, above) = found.position pos mask e in
              let mask_low : mask < 6 = omega (arith, low, l) in
              let pos_low : pos < 64 = omega (
                arith,
                place,
                count_inl_bitmap-lt (stride_of a ip 6 / 2 ^ (6 - mask)) mask mask_low
                    (head_bound (stride_of a ip 6) mask stride_low mask_low),
              ) in
              let on' : bit (internal n) pos ≡ true = sym (test_bitmap_lem (internal n) pos) ∙ on in
              let (v, there) =
                entry_at_lem (internal n) (rules n) h.is_node.has_rules pos pos_low on' in
              let rule : rule_for a d n ip mask ≡ some v =
                rule_for_short a n ip d mask mask_low ∙ ap (rule_at n) (sym place) ∙ there in
              inr (
                pos,
                mask,
                v,
                e,
                low,
                load_nhi_lem n pos h.is_node pos_low on' ∙ there,
                near_for_skip (suc mask) limit low
                      (λ k l' l''. unset_rule k (omega arith) (above k l' l''))
                    ∙ rw rule refl,
              )
        ]

module _ (a : Address) (n : Node) (ip : a.Ip) where
  pub near_without :
      (d j : ℕ)
      → child_at n (stride_of a ip 6) ≡ none
      → near_for a (suc d) n ip (j + 6) ≡ near_for a (suc d) n ip 6
  unfolding near_for rule_for
  near_without d zero h = refl
  near_without d (suc j) h =
      let long : ltb (j + 6) 6 ≡ false = ground arith in
      rw (one_more j, long, h) (near_without d j h)

  pub near_with :
      (d j : ℕ) (c : Node)
      → child_at n (stride_of a ip 6) ≡ some c
      → near_for a (suc d) n ip (j + 6)
        ≡ or_near (deeper_by 1 (near_for a d c (shift a ip) j)) (near_for a (suc d) n ip 6)
  unfolding near_for rule_for
  near_with d zero c h = refl
  near_with d (suc j) c h =
      let long : ltb (j + 6) 6 ≡ false = ground arith in
      let less : j + 6 - 6 ≡ j = omega arith in
      let more : 1 * 6 + j ≡ j + 6 = omega arith in
      elim (Option-cases (rule_for a d c (shift a ip) j)) [
        | inl e ↦ rw (one_more j, long, h, less, e) (near_with d j c h)
        | inr (v, e) ↦ rw (one_more j, long, h, less, e, more) refl
      ]
