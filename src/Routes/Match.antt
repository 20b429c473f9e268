-- ===== src/Routes/Match.antt =====
-- What the searches of lib/bitmap_v4.c and lib/bitmap_v6.c return, said by the prefixes that the trie holds.
use native.Mathlib.Decide.{ℕ_discrete}
use prefix_lookup_mc.Base.{
  ℕ, zero, suc, ◌+◌, ◌*◌, ◌<◌, ◌≤◌, ◌≡◌, refl, sym, ap, ◌∙◌, arith, none, some, ◌⊎◌, inl, inr,
  Option-cases,
}
use prefix_lookup_mc.Address.{Address}
use prefix_lookup_mc.Address.Word.{IsWord, Masked, Under, word_laws, word_covering}
use prefix_lookup_mc.Node.Nodes.{Node, Nhi}
use prefix_lookup_mc.Trie.Path.{path_of}
use prefix_lookup_mc.Trie.Place.{leading, position_of, position_of-lt, last_of_lem, same_place}
use prefix_lookup_mc.Trie.Prefix.{path-AreStrides, find_prefix}
use prefix_lookup_mc.Trie.Shape.{IsTrie}
use prefix_lookup_mc.Lookup.{null_nhi, deref, do_search, do_search_lazy}
use prefix_lookup_mc.Lookup.Best.{rule_for, best}
use prefix_lookup_mc.Lookup.Longest.{do_search_lem, do_search_lazy_lem}
use prefix_lookup_mc.Lookup.Prefixes.{rule_for_place, rule_for-find_prefix}
use prefix_lookup_mc.Routes.Places.{OnlyPrefixes}

-- The greatest length below `m` that has a rule.
record TopRule (a : Address) (d : ℕ) (n : Node) (ip : a.Ip) (m : ℕ) (v : Nhi) : Type 0 where
  pub length : ℕ
  pub shorter : length < m
  pub there : rule_for a d n ip length ≡ some v
  pub above : (k : ℕ) → length < k → k < m → rule_for a d n ip k ≡ none

below_suc : (Q : ℕ → Type 0) (m : ℕ) → Q m → ((k : ℕ) → k < m → Q k) → (k : ℕ) → k < suc m → Q k
below_suc Q m here below k l = elim (ℕ_discrete m k) [
  | yes same ↦ rw (← same) here
  | no other ↦ below k (ground (arith, l, other))
]

best-TopRule :
    (a : Address) (d : ℕ) (n : Node) (ip : a.Ip) (m : ℕ)
    → ((best a d n ip m ≡ none) × ((k : ℕ) → k < m → rule_for a d n ip k ≡ none))
      ⊎ ((v : Nhi) × (best a d n ip m ≡ some v) × TopRule a d n ip m v)
unfolding best
best-TopRule a d n ip zero = inl (refl, λ k l. absurd (omega (arith, l)))
best-TopRule a d n ip (suc m) = elim (Option-cases (rule_for a d n ip m)) [
  | inr (v, here) ↦ inr (
    v,
    rw here refl,
    record {
      length = m;
      shorter = omega arith;
      there = here;
      above = λ k l l'. absurd (omega (arith, l, l'));
    },
  )
  | inl off ↦ elim (best-TopRule a d n ip m) [
    | inl (no_best, no_rule) ↦
        inl (rw (off, no_best) refl, below_suc (λ k. rule_for a d n ip k ≡ none) m off no_rule)
    | inr (v, found, top) ↦ inr (
      v,
      rw (off, found) refl,
      record {
        length = top.length;
        shorter = omega (arith, top.shorter);
        there = top.there;
        above = λ k l l'.
            below_suc (λ j. top.length < j → rule_for a d n ip j ≡ none) m (λ s. off)
              (λ j s s'. top.above j s' s) k l' l;
      },
    )
  ]
]

module _ (a : Address) (word : IsWord a) where
  -- A masked prefix of the address that the trie holds with `v`, and no longer one of the address is there.
  pub record LongestHeld (n : Node) (ip : a.Ip) (v : Nhi) : Type 0 where
    pub prefix : a.Ip
    pub cidr : ℕ
    pub masked : Masked a word prefix cidr
    pub under : Under a word prefix cidr ip
    pub held : find_prefix a n prefix cidr ≡ some v
    pub longest :
        (q : a.Ip) (j : ℕ)
        → Masked a word q j
        → Under a word q j ip
        → cidr < j
        → find_prefix a n q j ≡ none

  -- The trie holds no prefix of the address.
  abbrev pub NoneHeld : Node → a.Ip → Type 0
  NoneHeld n ip =
      (q : a.Ip) (j : ℕ) → Masked a word q j → Under a word q j ip → find_prefix a n q j ≡ none

  module _ (d : ℕ) (room : a.width < (d + 1) * 6) (n : Node) (ip : a.Ip) where
    rule_of_prefix :
        (q : a.Ip) (j : ℕ)
        → Masked a word q j
        → Under a word q j ip
        → rule_for a d n ip j ≡ find_prefix a n q j
    unfolding word_laws word_covering
    rule_of_prefix q j masked under =
        rule_for-find_prefix a (word_laws a word) (word_covering a word) d n q j ip masked under
          (omega (arith, masked.short))

    -- A rule that the walk passes stands at the place of a masked prefix of the address.
    prefix_of_rule :
        (j : ℕ) (v : Nhi)
        → OnlyPrefixes a word n
        → word.IsIp ip
        → j < (d + 1) * 6
        → rule_for a d n ip j ≡ some v
        → (q : a.Ip) × Masked a word q j × Under a word q j ip
    unfolding OnlyPrefixes word_laws
    prefix_of_rule j v prefixes i h there =
        let laws = word_laws a word in
        let place = rule_for_place a laws d (suc j) n ip j i (omega arith) h in
        elim (prefixes (path_of a (suc j) ip j) (position_of a (suc j) ip j)
          (path-AreStrides a laws (suc j) ip j i)
          (position_of-lt a laws (suc j) ip j i (omega arith))) [
            | inl none_there ↦
                let missing : none ≡ some v = sym none_there ∙ sym place ∙ there in
                absurd (ground (arith, missing))
            | inr (q, c, masked, e, e') ↦
                let same =
                  same_place a word (suc c) (suc j) q ip c j masked.fits i (omega arith)
                    (omega arith) e (sym (last_of_lem a laws (suc c) q c masked) ∙ e') in
                at_length q c j same.0 masked i (same.1 masked.short)
          ]
      where
        at_length :
            (q : a.Ip) (c k : ℕ)
            → c ≡ k
            → Masked a word q c
            → word.IsIp ip
            → leading a word q c ≡ leading a word ip c
            → (q' : a.Ip) × Masked a word q' k × Under a word q' k ip
        at_length q c k e masked i bits = (
          q,
          rw (← e) masked,
          record {
            p_fits = masked.fits;
            ip_fits = i;
            short = omega (arith, e, masked.short);
            same = sym (rw e at bits);
          },
        )

    -- In a trie that holds nothing but masked prefixes, has at most LEVEL levels below its root and enough of
    -- them for every length, both searches for an address in range return the same information without a
    -- fault. It is that of a masked prefix of the address that the trie holds, while it holds no longer one
    -- of the address; or it is NULL, and the trie holds no prefix of the address.
    pub do_search-find_prefix :
        IsTrie d n
        → OnlyPrefixes a word n
        → word.IsIp ip
        → d ≤ a.levels
        → (v : Nhi) × (do_search a n ip ≡ some v)
          × (do_search_lazy a n ip ≡ some v)
          × (LongestHeld n ip v ⊎ ((v ≡ null_nhi) × NoneHeld n ip))
    unfolding word_laws
    do_search-find_prefix h prefixes i shallow =
        let laws = word_laws a word in
        let found = do_search_lem a laws d n ip h i shallow in
        let found_lazy = do_search_lazy_lem a laws d n ip h i shallow in
        elim (best-TopRule a d n ip ((d + 1) * 6)) [
          | inl (no_best, no_rule) ↦ (
            null_nhi,
            found ∙ ap (λ o. some (deref o)) no_best,
            found_lazy ∙ ap (λ o. some (deref o)) no_best,
            inr (
              refl,
              λ q j masked under.
                  sym (rule_of_prefix q j masked under) ∙ no_rule j (omega (arith, masked.short)),
            ),
          )
          | inr (v, best_found, top) ↦
              let (p, masked, under) =
                prefix_of_rule top.length v prefixes i top.shorter top.there in
              (
                v,
                found ∙ ap (λ o. some (deref o)) best_found,
                found_lazy ∙ ap (λ o. some (deref o)) best_found,
                inl (record {
                  prefix = p;
                  cidr = top.length;
                  masked = masked;
                  under = under;
                  held = sym (rule_of_prefix p top.length masked under) ∙ top.there;
                  longest = λ q j masked' under' l.
                      sym (rule_of_prefix q j masked' under')
                      ∙ top.above j l (omega (arith, masked'.short));
                }),
              )
        ]
