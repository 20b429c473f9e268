-- ===== src/Lookup/Prefixes.antt =====
-- The rules that the longest match is taken from are the prefixes that the trie holds.
use prefix_lookup_mc.Base.{
  ℕ, zero, suc, ◌+◌, ◌-◌, ◌*◌, ◌<◌, ◌≡◌, sym, ap, ◌∙◌, arith, true, ltb, Bool-cases, inl, inr,
}
use prefix_lookup_mc.Address.{Address, IsAddress, Covering, shift}
use prefix_lookup_mc.Node.Nodes.{Node}
use prefix_lookup_mc.Trie.Path.{find, path_of}
use prefix_lookup_mc.Trie.Place.{position_of, last_of_lem, enl_pos_lem}
use prefix_lookup_mc.Trie.Prefix.{path, find_prefix}
use prefix_lookup_mc.Lookup.Best.{rule_for}

module _ (a : Address) (laws : IsAddress a) where
  -- For an address, the rule stands at the place of its first `k` bits.
  pub rule_for_place :
      (d fuel : ℕ) (n : Node) (ip : a.Ip) (k : ℕ)
      → laws.IsIp ip
      → k < fuel
      → k < (d + 1) * 6
      → rule_for a d n ip k ≡ find n (path_of a fuel ip k) (position_of a fuel ip k)
  unfolding rule_for find path_of position_of
  rule_for_place d zero n ip k i h l = absurd (omega arith)
  rule_for_place zero (suc fuel) n ip k i h l =
      let short : ltb k 6 ≡ true = ground arith in rw short
  rule_for_place (suc d) (suc fuel) n ip k i h l = elim (Bool-cases (ltb k 6)) [
    | inl short ↦ rw short
    | inr long ↦
        let below : (c : Node)
            → rule_for a d c (shift a ip) (k - 6)
              ≡ find c (path_of a fuel (shift a ip) (k - 6))
                  (position_of a fuel (shift a ip) (k - 6)) =
          λ c.
            rule_for_place d fuel c (shift a ip) (k - 6) (laws.shift-IsIp ip i) (ground arith)
              (ground arith) in
        simp (long, enl_pos_lem a laws ip i, below)
  ]

  module _ (covering : Covering a) where
    rule_for-Covers :
        (d : ℕ) (n : Node) (p : a.Ip) (k : ℕ) (ip : a.Ip)
        → covering.Covers p k ip
        → rule_for a d n ip k ≡ rule_for a d n p k
    unfolding rule_for
    rule_for-Covers zero n p k ip h = elim (Bool-cases (ltb k 6)) [
      | inl short ↦ rw (short, covering.covers-head p k ip h (ground arith))
      | inr long ↦ rw long
    ]
    rule_for-Covers (suc d) n p k ip h = elim (Bool-cases (ltb k 6)) [
      | inl short ↦ rw (short, covering.covers-head p k ip h (ground arith))
      | inr long ↦
          let below : (c : Node)
              → rule_for a d c (shift a ip) (k - 6) ≡ rule_for a d c (shift a p) (k - 6) =
            λ c.
              rule_for-Covers d c (shift a p) (k - 6) (shift a ip)
                (covering.covers-shift p k ip h (ground arith)) in
          simp (long, covering.covers-stride p k ip h (ground arith), below)
    ]

    -- The rule that the longest match considers for the first `k` bits of an address is what the trie
    -- holds for the masked prefix of `k` bits that the address is under, where the trie may be deep
    -- enough for it.
    pub rule_for-find_prefix :
        (d : ℕ) (n : Node) (p : a.Ip) (k : ℕ) (ip : a.Ip)
        → laws.IsMasked p k
        → covering.Covers p k ip
        → k < (d + 1) * 6
        → rule_for a d n ip k ≡ find_prefix a n p k
    rule_for-find_prefix d n p k ip masked h l =
        rule_for-Covers d n p k ip h
        ∙ rule_for_place d (suc k) n p k (laws.masked-IsIp p k masked) (omega arith) l
        ∙ ap (find n (path a p k)) (sym (last_of_lem a laws (suc k) p k masked))
