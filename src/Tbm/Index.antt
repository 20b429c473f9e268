-- ===== src/Tbm/Index.antt =====
-- What `tbmv6_search` of tbm/tbmv6.c reads of an address.
use prefix_lookup_mc.Base.{
  ℕ, zero, suc, ◌+◌, ◌-◌, ◌*◌, ◌/◌, ◌^◌, ◌<◌, ◌≡◌, refl, sym, ap, ◌∙◌, arith, Option, none, some,
  true, false, inl, inr,
}
use prefix_lookup_mc.Address.Word.{word_laws}
use prefix_lookup_mc.Lookup.{deref, do_search_lazy}
use prefix_lookup_mc.Lookup.Longest.{do_search_lazy_lem}
use prefix_lookup_mc.Node.Nodes.{Nhi}
use prefix_lookup_mc.Routes.{Routes, longest_prefix, best-longest_prefix}
use prefix_lookup_mc.V6.Laws.{Words, value_v6, v6_word}
use prefix_lookup_mc.V6.Tabled.{v6_tabled, rest_v6-fits}
use prefix_lookup_mc.Tbm.Search.{tbm_search}
use prefix_lookup_mc.Tbm.Laws.{index-lt}
use prefix_lookup_mc.Tbm.Near.{hi_of, rule_of}
use prefix_lookup_mc.Tbm.Entry.{
  near, under, under_long_routes, IsChild, has_child_of_ptr, has_child_of_child,
}
use prefix_lookup_mc.Tbm.Table.{IsTbm}
use prefix_lookup_mc.Tbm.Found.{tbm_search_lem}
use prefix_lookup_mc.V6.{v6, IpV6, rshift_ipv6, lshift_ipv6, shr64}
use prefix_lookup_mc.Tbm.{TbmTrie, index_of, has_child}
use prefix_lookup_mc.Tbm.V6.{tbmv6_search}

-- The 13 leading bits are all that the shift leaves.
shifted_lem : (ip : IpV6) → rshift_ipv6 ip 115 ≡ record { iplo = ip.iphi / 2 ^ 51; iphi = 0 }
unfolding rshift_ipv6 shr64
shifted_lem ip = refl

-- For any table, tbmv6_search does the same for two addresses whose 13 leading bits are the same: the bits
-- behind them, by which the routes of more than 13 bits differ, have no influence on what it returns.
pub tbmv6_search_of_index :
    (t : TbmTrie) (ip other : IpV6)
    → ip.iphi / 2 ^ 51 ≡ other.iphi / 2 ^ 51
    → tbmv6_search t ip ≡ tbmv6_search t other
unfolding tbmv6_search
tbmv6_search_of_index t ip other e = rw (shifted_lem ip, shifted_lem other, e) refl

-- Without longer routes than the index, every address under it has the same match.
longest_prefix_flat :
    (g : Routes) (o : Option Nhi) (w x m : ℕ)
    → ((bits : ℕ) → g bits 0 ≡ o)
    → ((bits k : ℕ) → 0 < k → g bits k ≡ none)
    → longest_prefix g w x (suc m) ≡ o
unfolding longest_prefix
longest_prefix_flat g none w x zero h h' = rw (h (x / 2 ^ (w - 0))) refl
longest_prefix_flat g (some v) w x zero h h' = rw (h (x / 2 ^ (w - 0))) refl
longest_prefix_flat g o w x (suc m) h h' =
    rw (h' (x / 2 ^ (w - suc m)) (suc m) (omega arith)) (longest_prefix_flat g o w x m h h')

module _ (t : TbmTrie) (f : Routes) (ip : IpV6) (h : IsTbm v6 v6_word t f) (fits : Words ip)
    (no_long : (bits k : ℕ) → 13 < k → f bits k ≡ none) where
  abbrev j : ℕ
  j = index_of v6 ip

  index_lem : j ≡ ip.iphi / 2 ^ 51
  index_lem = rw (shifted_lem ip) (omega (arith, fits.high))

  -- What the search of the entry's trie finds, whatever it is asked for.
  under_index :
      (x : IpV6)
      → Words x
      → IsChild v6 v6_word f j (t.init j)
      → do_search_lazy v6 (t.init j).e x ≡ some (deref (rule_of (near f j)))
  unfolding v6_word word_laws under
  under_index x x_fits e =
      do_search_lazy_lem v6 (word_laws v6 v6_word) 22 (t.init j).e x e.shape x_fits (omega arith)
      ∙ ap (λ o. some (deref o))
          (best-longest_prefix v6 v6_word 22 (t.init j).e (under f j) x 138 e.holds x_fits
              (omega arith)
            ∙ longest_prefix_flat (under f j) (rule_of (near f j)) 128 (value_v6 x) 137
                (λ bits. refl)
                (λ bits k l.
                  under_long_routes f j bits k l
                  ∙ no_long (j * 2 ^ k + bits) (13 + k) (omega (arith, l))))

  -- On a table that stands for a table of routes of at most 13 bits, tbmv6_search for an address in range
  -- returns without a fault, with the information of the longest route of the address, and NULL if it has
  -- none.
  pub tbmv6_search_of_short :
      tbmv6_search t ip ≡ some (deref (longest_prefix f 128 (value_v6 ip) 129))
  unfolding tbmv6_search tbm_search v6_word
  tbmv6_search_of_short =
      let at_index : IpV6 = record { iplo = j; iphi = 0 } in
      let shifted : rshift_ipv6 ip 115 ≡ at_index =
        shifted_lem ip ∙ ap (λ (s : ℕ). record { iplo = s; iphi = 0 }) (sym index_lem) in
      let low : j < 8192 = index-lt v6 v6_word v6_tabled ip fits in
      let x_fits : Words (lshift_ipv6 at_index 13) =
        rest_v6-fits at_index (record { low = omega (arith, low); high = omega arith }) in
      let found = tbm_search_lem v6 v6_word v6_tabled t f ip h fits in
      elim (h.entries j low) [
        | inl p ↦
            let no_child : has_child (t.init j) ≡ false =
              has_child_of_ptr (t.init j) (hi_of (near f j)) p.flags in
            rw (shifted, no_child) (rw no_child at found)
        | inr e ↦
            let child : has_child (t.init j) ≡ true =
              has_child_of_child (t.init j) (hi_of (near f j)) e.flags in
            rw (shifted, child)
              (under_index (lshift_ipv6 at_index 13) x_fits e
                ∙ sym (under_index (lshift_ipv6 ip 13) (rest_v6-fits ip fits) e)
                ∙ rw child at found)
      ]
