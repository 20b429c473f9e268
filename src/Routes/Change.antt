-- ===== src/Routes/Change.antt =====
-- A change of the trie at one masked prefix is an update of the table.
use prefix_lookup_mc.Base.{
  ℕ, suc, ◌+◌, ◌*◌, ◌<◌, ◌≡◌, sym, ap, ◌∙◌, Option, ◌==◌, ◌&&◌, arith, List, Bool-cases, inl, inr,
}
use prefix_lookup_mc.Address.{Address}
use prefix_lookup_mc.Address.Word.{IsWord, Masked, word_laws, word_covering}
use prefix_lookup_mc.Node.Nodes.{Node, Nhi}
use prefix_lookup_mc.Trie.Path.{find, AreStrides, path_of}
use prefix_lookup_mc.Trie.Place.{leading, position_of, position_of-lt, last_of_lem, same_place}
use prefix_lookup_mc.Trie.Prefix.{path, last, path-AreStrides}
use prefix_lookup_mc.Trie.Shape.{find-zero_node, find-no_bits}
use prefix_lookup_mc.Node.Nodes.{zero_node, external, internal}
use prefix_lookup_mc.Lookup.Best.{rule_for}
use prefix_lookup_mc.Lookup.Prefixes.{rule_for_place, rule_for-find_prefix}
use prefix_lookup_mc.Routes.{Routes, no_routes, update, Holds}

module _ (a : Address) (word : IsWord a) (d : ℕ) where
  -- The empty trie holds no route.
  pub zero_node-Holds : Holds a word d zero_node no_routes
  unfolding word_laws
  zero_node-Holds ip k i h =
      rule_for_place a (word_laws a word) d (suc k) zero_node ip k i (omega arith) h
      ∙ find-zero_node (path_of a (suc k) ip k) (position_of a (suc k) ip k)

  pub no_bits-Holds : (n : Node) → external n ≡ 0 → internal n ≡ 0 → Holds a word d n no_routes
  unfolding word_laws
  no_bits-Holds n e j ip k i h =
      rule_for_place a (word_laws a word) d (suc k) n ip k i (omega arith) h
      ∙ find-no_bits n (path_of a (suc k) ip k) (position_of a (suc k) ip k) e j

  module _ (n n' : Node) (p : a.Ip) (c : ℕ) (o : Option Nhi) (f : Routes)
      (masked : Masked a word p c) (shallow : c < (d + 1) * 6) (holds : Holds a word d n f)
      (here : find n' (path a p c) (last a p c) ≡ o)
      (others : (path' : List ℕ) (p' : ℕ)
        → AreStrides path'
        → p' < 63
        → ¬ ((path a p c ≡ path') × (last a p c ≡ p'))
        → find n' path' p' ≡ find n path' p') where
    at_prefix :
        (ip : a.Ip)
        → word.IsIp ip
        → leading a word ip c ≡ leading a word p c
        → rule_for a d n' ip c ≡ o
    unfolding word_laws word_covering
    at_prefix ip i e =
        rule_for-find_prefix a (word_laws a word) (word_covering a word) d n' p c ip masked
          (record { p_fits = masked.fits; ip_fits = i; short = masked.short; same = e }) shallow
        ∙ here

    elsewhere :
        (ip : a.Ip) (k : ℕ)
        → word.IsIp ip
        → k < (d + 1) * 6
        → ¬ ((leading a word ip k ≡ leading a word p c) × (k ≡ c))
        → rule_for a d n' ip k ≡ f (leading a word ip k) k
    unfolding word_laws
    elsewhere ip k i h ne =
        let laws = word_laws a word in
        rule_for_place a laws d (suc k) n' ip k i (omega arith) h
        ∙ others (path_of a (suc k) ip k) (position_of a (suc k) ip k)
            (path-AreStrides a laws (suc k) ip k i)
            (position_of-lt a laws (suc k) ip k i (omega arith))
            (λ e.
              let place =
                same_place a word (suc c) (suc k) p ip c k masked.fits i (omega arith) (omega arith)
                  (e.0) (sym (last_of_lem a laws (suc c) p c masked) ∙ e.1) in
              ne (
                ap (leading a word ip) (sym (place.0)) ∙ sym (place.1 masked.short),
                sym (place.0),
              ))
        ∙ sym (rule_for_place a laws d (suc k) n ip k i (omega arith) h)
        ∙ holds ip k i h

    pub change-Holds : Holds a word d n' (update f (leading a word p c) c o)
    unfolding update
    change-Holds ip k i h =
        elim (Bool-cases (leading a word ip k == leading a word p c && k == c)) [
          | inl same ↦
              let length : k ≡ c = ground arith in
              let bits : leading a word ip k ≡ leading a word p c = ground arith in
              rw same (
                ap (rule_for a d n' ip) length
                ∙ at_prefix ip i (ap (leading a word ip) (sym length) ∙ bits))
          | inr apart ↦ rw apart (elsewhere ip k i h (λ e. absurd (ground (arith, e.0, e.1))))
        ]
