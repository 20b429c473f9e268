-- ===== src/Tbm/Destroyed.antt =====
-- `tbm_destroy_trie` of tbm/tbmv4.c: it goes through, and no route's info is forgotten.
use mathlib.Core.List.{Memᴰ}
use mathlib.Core.List.Memᴰ
use prefix_lookup_mc.Base.{
  ℕ, suc, ◌+◌, ◌*◌, ◌^◌, ◌≤◌, ◌<◌, ◌≡◌, ◌≢◌, refl, sym, ap, ◌∙◌, arith, true, false, not, Option,
  some, List, [], inl, inr, if◌then◌else◌, ◌>>=◌, Gives, gives, Gives-bind, Gives-value,
}
use prefix_lookup_mc.Address.{Address}
use prefix_lookup_mc.Address.Word.{IsWord, word_laws}
use prefix_lookup_mc.Mm.{Mm}
use prefix_lookup_mc.Node.Nodes.{Nhi, zero_node}
use prefix_lookup_mc.Trie.Path.{path_of}
use prefix_lookup_mc.Trie.Place.{position_of, position_of-lt}
use prefix_lookup_mc.Trie.Prefix.{path-AreStrides}
use prefix_lookup_mc.Lookup.Prefixes.{rule_for_place}
use prefix_lookup_mc.Routes.{Routes}
use prefix_lookup_mc.Visit.{destroy_subtrie}
use prefix_lookup_mc.Visit.Loops.{for_counts}
use prefix_lookup_mc.Visit.Destroyed.{
  Held, Handed, Extends, Extends-refl, Extends-trans, Extends-wider,
}
use prefix_lookup_mc.Visit.Subtrie.{destroy_subtrie_lem}
use prefix_lookup_mc.Tbm.{TbmTrie, has_child, table_size}
use prefix_lookup_mc.Tbm.Search.{destroy_trie, tbm_destroy_trie}
use prefix_lookup_mc.Tbm.Laws.{IsTabled}
use prefix_lookup_mc.Tbm.Near.{hi_of}
use prefix_lookup_mc.Tbm.Entry.{near, has_child_of_ptr, has_child_of_child}
use prefix_lookup_mc.Tbm.Emptied.{some_leading}
use prefix_lookup_mc.Tbm.Table.{IsTbm}

module _ (a : Address) (word : IsWord a) (tabled : IsTabled a word) (t : TbmTrie) (f : Routes)
    (h : IsTbm a word t f) where
  -- A route's info is held by the trie of all prefixes.
  route-Held :
      (bits k : ℕ) (v : Nhi)
      → bits < 2 ^ k
      → k ≤ a.width
      → f bits k ≡ some v
      → v ≢ 0
      → Held t.up_aux v
  unfolding word_laws
  route-Held bits k v l l' there v_some =
      let laws = word_laws a word in
      let (ip, fits, e) = some_leading a word tabled bits k l l' in
      let room : k < (a.levels + 1) * 6 = omega (arith, l', tabled.deep) in
      record {
        path = path_of a (suc k) ip k;
        pos = position_of a (suc k) ip k;
        strides = path-AreStrides a laws (suc k) ip k fits;
        low = position_of-lt a laws (suc k) ip k fits (omega arith);
        found =
            sym (rule_for_place a laws a.levels (suc k) t.up_aux ip k fits (omega arith) room)
            ∙ h.up_holds ip k fits room
            ∙ ap (λ (s : ℕ). f s k) e
            ∙ there;
        not_null = v_some;
      }

  -- One round of the loop over the entries: it hands nothing over.
  destroy_entry : ℕ → Mm × List Nhi → Option (Mm × List Nhi)
  destroy_entry i s =
      if not (has_child (t.init i))
      then some s
      else (destroy_subtrie (suc a.levels) s.0 (t.init i).e false 0 s.1 >>= λ r. some r.0)

  abbrev Nothing : Nhi → Type 0
  Nothing v = false ≡ true

  abbrev Keeps : Mm × List Nhi → Mm × List Nhi → Type 0
  Keeps s s' = Extends Nothing s.1 s'.1

  destroy_entry-Gives :
      (i : ℕ) (s : Mm × List Nhi)
      → i < 8192
      → Gives (λ s'. Keeps s s' × (Unit {0})) (destroy_entry i s)
  unfolding destroy_entry
  destroy_entry-Gives i s l = elim (h.entries i l) [
    | inl p ↦
        let no_child : has_child (t.init i) ≡ false =
          has_child_of_ptr (t.init i) (hi_of (near f i)) p.flags in
        rw no_child (gives (Extends-refl Nothing s.1, tt))
    | inr e ↦
        let child : has_child (t.init i) ≡ true =
          has_child_of_child (t.init i) (hi_of (near f i)) e.flags in
        rw child (
          Gives-bind
            (destroy_subtrie_lem a.levels (suc a.levels) (t.init i).e s.0 false 0 s.1 e.shape
              (omega arith))
            λ r d. gives (
              Extends-wider (Handed (t.init i).e false) Nothing s.1 r.0.1 (λ v x. x.0) d.0.extends,
              tt,
            ))
  ]

  pub record Destroyed : Type 0 where
    pub m : Mm
    pub up_m : Mm
    pub gone : List Nhi
    pub returns : tbm_destroy_trie a t true ≡ some (m, up_m, gone)
    pub routes :
        (bits k : ℕ) (v : Nhi)
        → bits < 2 ^ k
        → k ≤ a.width
        → f bits k ≡ some v
        → v ≢ 0
        → Memᴰ v gone
    pub of_up_aux :
        destroy_subtrie (suc a.levels) t.up_m t.up_aux true 0 [] ≡ some ((up_m, gone), zero_node)
    pub only : (v : Nhi) → Memᴰ v gone → Held t.up_aux v

  -- On a table that stands for a table of routes, tbm_destroy_trie with a destroy_nhi returns without a fault;
  -- destroy_nhi is called with the information of every route that is not NULL, and with no other information
  -- than what up_aux holds. These calls, in their order, are those of destroy_subtrie for up_aux, which it
  -- leaves all zero: the tries of the entries add none.
  pub tbm_destroy_trie_lem : Destroyed
  unfolding tbm_destroy_trie destroy_trie destroy_entry
  tbm_destroy_trie_lem =
      let (up, d, up_returns) = Gives-value (
        destroy_subtrie_lem a.levels (suc a.levels) t.up_aux t.up_m true 0 [] h.up_shape
          (omega arith)) in
      let (last, done, returns) = Gives-value (
        for_counts {S = Mm × List Nhi} Keeps (λ s. Extends-refl Nothing s.1)
          (λ s s' s''. Extends-trans Nothing s.1 s'.1 s''.1) (λ x s. Unit {0}) (λ x s s' r done. tt)
          table_size 0 (t.m, up.0.1) destroy_entry
          (λ x s l l'. destroy_entry-Gives x s (omega (arith, l')))) in
      record {
        m = last.0;
        up_m = up.0.0;
        gone = last.1;
        returns = rw (up_returns, returns) refl;
        routes = λ bits k v l l' there v_some.
            done.0.kept v (d.0.all refl v (route-Held bits k v l l' there v_some));
        of_up_aux =
            rw (done.0.same (λ v nothing. absurd (ground (arith, nothing))), ← d.1) up_returns;
        only = λ v held. elim (done.0.new v held) [
          | inr nothing ↦ absurd (ground (arith, nothing))
          | inl handed ↦ elim (d.0.extends.new v handed) [
            | inl none_before ↦ absurd (Memᴰ.not-nil none_before)
            | inr x ↦ x.1
          ]
        ];
      }
