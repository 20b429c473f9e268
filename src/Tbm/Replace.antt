-- ===== src/Tbm/Replace.antt =====
-- `overlap_nhi`: the rule of the empty prefix of an entry's trie is replaced, by a traversal.
use prefix_lookup_mc.Base.{
  ℕ, ◌≡◌, refl, ap, ◌∙◌, arith, Bool, true, some, [], ◌∷◌, if◌then◌else◌, inl, inr, Bool-cases,
  >>=-eq-some,
}
use prefix_lookup_mc.Address.{Address}
use prefix_lookup_mc.Address.Word.{IsWord, Masked, word_laws}
use prefix_lookup_mc.Bits.Digits.{bit}
use prefix_lookup_mc.Bits.Words.{test_bitmap_lem}
use prefix_lookup_mc.Mm.{Mm}
use prefix_lookup_mc.Node.{load_nhi, store_nhi}
use prefix_lookup_mc.Node.Nodes.{Node, Nhi, internal}
use prefix_lookup_mc.Node.Layout.{rule_at, load_nhi_lem}
use prefix_lookup_mc.Trie.{insert_prefix, insert_loop, put_rule, traverse_branch, traverse_loop}
use prefix_lookup_mc.Trie.Path.{find, path_of, last_of}
use prefix_lookup_mc.Trie.Place.{leading}
use prefix_lookup_mc.Trie.Prefix.{last, last-lt}
use prefix_lookup_mc.Trie.Shape.{IsTrie, IsTrie-node}
use prefix_lookup_mc.Routes.{Routes, update, Holds}
use prefix_lookup_mc.Routes.Updates.{Inserts, inserts, find-Holds}
use prefix_lookup_mc.Tbm.Delete.{overlap_nhi}

module _ (a : Address) (word : IsWord a) (d : ℕ) (m : Mm) (n : Node) (p : a.Ip) (f : Routes)
    (h : IsTrie d n) (masked : Masked a word p 0) (held : Holds a word d n f) (v : Nhi)
    (there : f (leading a word p 0) 0 ≡ some v) (w : Nhi) where
  pub record Replaces (func : Bool) : Type 0 where
    pub after : Node
    pub returns :
        traverse_branch a n p 0 overlap_nhi (record { func = func; nhi_near = w; destroyed = [] })
        ≡ some (
          1,
          after,
          record { func = func; nhi_near = w; destroyed = if func then v ∷ [] else [] },
        )
    pub shape : IsTrie d after
    pub holds : Holds a word d after (update f (leading a word p 0) 0 (some w))

  rule_there : rule_at n (last a p 0) ≡ some v
  unfolding find path_of last_of
  rule_there = find-Holds a word d m n p 0 f h masked (omega arith) held ∙ there

  rule_on : bit (internal n) (last a p 0) ≡ true
  rule_on = elim (Bool-cases (bit (internal n) (last a p 0))) [
    | inl on ↦ on
    | inr off ↦ let missing = rw off at rule_there in absurd (ground (arith, missing))
  ]

  loads : load_nhi n (last a p 0) ≡ some v
  unfolding word_laws
  loads =
      load_nhi_lem n (last a p 0) ((IsTrie-node d n h).is_node)
        (omega (arith, last-lt a (word_laws a word) 1 p 0 masked (omega arith))) rule_on
      ∙ rule_there

  stores : (ins : Inserts a word d m n p 0 w f) → store_nhi n (last a p 0) w ≡ some (ins.after)
  unfolding insert_prefix insert_loop put_rule last_of
  stores ins =
      let put = rw (test_bitmap_lem, rule_on) at ins.returns in
      let (n', stored, e) = >>=-eq-some (store_nhi n (last a p 0) w) (λ n'. some (1, n', m)) put in
      stored ∙ ap some (ground (arith, e))

  pub replaces : (func : Bool) → Replaces func
  unfolding traverse_branch traverse_loop overlap_nhi last_of
  replaces func =
      let ins = inserts a word d m n p 0 f h masked (omega arith) held w in
      record {
        after = ins.after;
        returns =
            rw (loads, stores ins)
              (elim (Bool-cases func) [ inl on ↦ rw on refl | inr off ↦ rw off refl ]);
        shape = ins.shape;
        holds = ins.holds;
      }
