-- ===== src/Tbm/Found.antt =====
-- `tbm_search` finds the longest match of the table of routes.
use native.Mathlib.Decide.{ℕ_discrete}
use prefix_lookup_mc.Base.{
  ℕ, zero, suc, ◌+◌, ◌-◌, ◌*◌, ◌/◌, ◌^◌, ◌≤◌, ◌<◌, ◌≡◌, refl, sym, ap, ap₂, ◌∙◌, arith, true, false,
  Option, none, some, inl, inr,
}
use prefix_lookup_mc.Address.{Address}
use prefix_lookup_mc.Address.Word.{IsWord, word_laws}
use prefix_lookup_mc.Node.Nodes.{Nhi}
use prefix_lookup_mc.Trie.Place.{leading}
use prefix_lookup_mc.Lookup.{deref, or_else}
use prefix_lookup_mc.Lookup.Longest.{do_search_lazy_lem, or_else-none}
use prefix_lookup_mc.Routes.{Routes, longest_prefix, best-longest_prefix}
use prefix_lookup_mc.Routes.Narrow.{Narrow}
use prefix_lookup_mc.Tbm.{TbmTrie, index_of, has_child}
use prefix_lookup_mc.Tbm.Search.{tbm_search}
use prefix_lookup_mc.Tbm.Laws.{IsTabled, rest_of_ip, leading_parts, leading-lt, index-lt}
use prefix_lookup_mc.Tbm.Near.{
  near_below, near_below_short, longest_prefix-near_below, hi_of, rule_of,
}
use prefix_lookup_mc.Tbm.Entry.{
  near, under, under_long_routes, IsPtr, IsChild, has_child_of_ptr, has_child_of_child,
}
use prefix_lookup_mc.Tbm.Remove.{deref-rule_of}
use prefix_lookup_mc.Tbm.Table.{IsTbm}

-- Lengths without a route do not count.
longest_prefix_skip :
    (g : Routes) (w x j m : ℕ)
    → j ≤ m
    → ((k : ℕ) → j ≤ k → k < m → g (x / 2 ^ (w - k)) k ≡ none)
    → longest_prefix g w x m ≡ longest_prefix g w x j
unfolding longest_prefix
longest_prefix_skip g w x j zero l h = let same : j ≡ 0 = omega arith in rw same refl
longest_prefix_skip g w x j (suc m) l h = elim (ℕ_discrete j (suc m)) [
  | yes same ↦ rw same refl
  | no ne ↦
      let before : j ≤ m = omega arith in
      rw (h m before (omega arith))
        (longest_prefix_skip g w x j m before (λ k l' l''. h k l' (omega arith)))
]

module _ (a : Address) (word : IsWord a) (tabled : IsTabled a word) (t : TbmTrie) (f : Routes)
    (ip : a.Ip) (h : IsTbm a word t f) (fits : word.IsIp ip) where
  abbrev j : ℕ
  j = index_of a ip

  abbrev rest : a.Ip
  rest = rest_of_ip a word tabled ip

  abbrev longest : ℕ → Option Nhi
  longest m = longest_prefix f a.width (word.value ip) m

  longest-near : longest 14 ≡ rule_of (near f j)
  longest-near =
      longest_prefix-near_below f (word.value ip) a.width 14
      ∙ ap rule_of (
          near_below_short f (word.value ip) a.width 13 14 (omega (arith, tabled.long))
            (omega arith)
          ∙ ap (λ (s : ℕ). near_below f s 13 14) (sym (tabled.index-value ip fits)))

  -- A route of the address, as one under its index.
  at_rest :
      (k : ℕ)
      → 0 < k
      → 13 + k ≤ a.width
      → under f j (leading a word rest k) k ≡ f (leading a word ip (13 + k)) (13 + k)
  at_rest k l l' =
      under_long_routes f j (leading a word rest k) k l
      ∙ ap (λ (s : ℕ). f s (13 + k))
          (sym (
            leading_parts a word tabled ip k fits l'
            ∙ ap (λ (s : ℕ). s * 2 ^ k + leading a word rest k) (sym (tabled.index-value ip fits))))

  longest-under :
      (k : ℕ)
      → 13 + k ≤ a.width
      → longest_prefix (under f j) a.width (word.value rest) (suc k) ≡ longest (14 + k)
  unfolding longest_prefix under
  longest-under zero l = or_else-none a (word_laws a word) (rule_of (near f j)) ∙ sym longest-near
  longest-under (suc k) l =
      let more : 14 + suc k ≡ suc (13 + suc k) = omega arith in
      let less : 13 + suc k ≡ 14 + k = omega arith in
      ap₂ or_else (at_rest (suc k) (omega arith) l)
        (longest-under k (omega arith) ∙ ap longest (sym less))
      ∙ ap longest (sym more)

  under-Narrow : (bits k : ℕ) → a.width < 13 + k → 0 < k → under f j bits k ≡ none
  unfolding Narrow
  under-Narrow bits k l l' =
      under_long_routes f j bits k l' ∙ h.narrow (j * 2 ^ k + bits) (13 + k) l

  abbrev Found : Type 0
  Found = tbm_search a t ip ≡ some (deref (longest (suc a.width)))

  none_long :
      IsPtr a word f j (t.init j)
      → (k : ℕ) → 0 < k
      → 13 + k ≤ a.width
      → f (leading a word ip (13 + k)) (13 + k) ≡ none
  none_long p k l l' =
      let bits = leading a word rest k in
      let low : bits < 2 ^ k = leading-lt a word tabled rest k (tabled.rest-IsIp ip fits) in
      sym (at_rest k l l') ∙ under_long_routes f j bits k l ∙ p.none_under bits k l low

  found_ptr : IsPtr a word f j (t.init j) → Found
  unfolding tbm_search
  found_ptr p =
      let no_child : has_child (t.init j) ≡ false =
        has_child_of_ptr (t.init j) (hi_of (near f j)) p.flags in
      let no_longer : longest (suc a.width) ≡ longest 14 =
        longest_prefix_skip f a.width (word.value ip) 14 (suc a.width) (omega (arith, tabled.long))
          (λ k l l'.
            let same : k ≡ 13 + (k - 13) = omega (arith, l) in
            rw same (none_long p (k - 13) (omega (arith, l)) (omega (arith, l, l')))) in
      rw (no_child, no_longer, longest-near, deref-rule_of (near f j)) (ap some p.rule)

  found_child : IsChild a word f j (t.init j) → Found
  unfolding tbm_search word_laws
  found_child e =
      let child : has_child (t.init j) ≡ true =
        has_child_of_child (t.init j) (hi_of (near f j)) e.flags in
      let rest_fits = tabled.rest-IsIp ip fits in
      let m = (a.levels + 1) * 6 in
      let k = a.width - 13 in
      let last : 14 + k ≡ suc a.width = omega (arith, tabled.long) in
      rw child (
        do_search_lazy_lem a (word_laws a word) a.levels (t.init j).e rest e.shape rest_fits
          (omega arith)
        ∙ ap (λ o. some (deref o))
            (best-longest_prefix a word a.levels (t.init j).e (under f j) rest m e.holds rest_fits
                (omega arith)
              ∙ longest_prefix_skip (under f j) a.width (word.value rest) (suc k) m
                  (omega (arith, tabled.deep))
                  (λ i l l'.
                    under-Narrow (word.value rest / 2 ^ (a.width - i)) i (omega arith)
                      (omega arith))
              ∙ longest-under k (omega (arith, tabled.long))
              ∙ ap longest last))

  -- For a table that stands for a table of routes, tbm_search for an address in range returns without a
  -- fault, with the information of the longest route of the address, and NULL if it has none.
  pub tbm_search_lem : Found
  tbm_search_lem = elim (h.entries j (index-lt a word tabled ip fits)) [
    | inl p ↦ found_ptr p
    | inr e ↦ found_child e
  ]
