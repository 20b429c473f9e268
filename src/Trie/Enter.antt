-- ===== src/Trie/Enter.antt =====
-- `enter_child`: the child is there afterwards, and the trie holds what it held.
use prefix_lookup_mc.Base.{
  ℕ, suc, ◌+◌, ◌<◌, ◌≡◌, refl, sym, ◌∙◌, arith, true, false, some, List, [], ◌∷◌, Bool-cases, inl,
  inr, ◌==◌, All-insert_at, insert_at, length, length-insert_at,
}
use prefix_lookup_mc.Bits.Digits.{bit, ones_from, set_bit, bit-set_bit_self, ones_from-set_bit}
use prefix_lookup_mc.Bits.Words.{test_bitmap_lem, count_ones_lem}
use prefix_lookup_mc.Bits.Packed.{insert-IsPacked, entry_at-insert_self, entry_at-insert_ne}
use prefix_lookup_mc.Mm.{Mm}
use prefix_lookup_mc.Node.Nodes.{
  Node, external, internal, rules, children, zero_node, list_of-nodes_of,
}
use prefix_lookup_mc.Node.Layout.{build, build-IsNode, child_at-build, child_at}
use prefix_lookup_mc.Node.Rules.{resize}
use prefix_lookup_mc.Node.Account.{
  IsBalanced, refl-IsBalanced, resize-IsBalanced, total-insert_at_zero,
}
use prefix_lookup_mc.Node.Children.{extend_child_lem}
use prefix_lookup_mc.Trie.{enter_child}
use prefix_lookup_mc.Trie.Path.{find, AreStrides}
use prefix_lookup_mc.Trie.Pruned.{IsPruned, ArePruned, zero_node-IsPruned, same_node}
use prefix_lookup_mc.Trie.Shape.{IsTrie, zero_node-IsTrie, find-zero_node}

pub record Entered (d : ℕ) (m : Mm) (n : Node) (level s : ℕ) : Type 0 where
  pub parent : Node
  pub stats : Mm
  pub returns :
      enter_child m n level s ≡ some (parent, ones_from 64 (external parent) (suc s), stats)
  pub shape : IsTrie (suc d) parent
  pub balanced : IsBalanced m n stats parent
  pub on : bit (external parent) s ≡ true
  pub pruned :
      IsPruned (suc d) n
      → ArePruned d parent s × ((c : Node) → child_at parent s ≡ some c → IsPruned d c)
  pub same : (path : List ℕ) (p : ℕ) → AreStrides path → find parent path p ≡ find n path p

module _ (d : ℕ) (m : Mm) (n : Node) (level s : ℕ) (h : IsTrie (suc d) n) (low : s < 64) where
  -- A child that is there already.
  enter_old : bit (external n) s ≡ true → Entered d m n level s
  enter_old on = record {
    parent = n;
    stats = m;
    returns =
        unfold enter_child in
        rw
          (test_bitmap_lem, on, count_ones_lem (external n) s h.0.is_node.has_children.fits low on);
    shape = h;
    balanced = refl-IsBalanced m n n refl;
    on = on;
    pruned = λ all. (λ t l ne c e. all t l c e, λ c e. (all s low c e).1);
    same = λ path p k. refl;
  }

  module _ (off : bit (external n) s ≡ false) where
    grown : Node
    grown =
        build (set_bit (external n) s) (internal n) (rules n)
          (insert_at (ones_from 64 (external n) (suc s)) zero_node (children n))

    find-grown : (path : List ℕ) (p : ℕ) → AreStrides path → find grown path p ≡ find n path p
    unfolding find grown
    find-grown [] p k = refl
    find-grown (t ∷ path) p k = elim (Bool-cases (s == t)) [
      | inl same ↦
          let e : t ≡ s = ground arith in
          rw
            (
              e,
              child_at-build (set_bit (external n) s) (internal n) (rules n)
                  (insert_at (ones_from 64 (external n) (suc s)) zero_node (children n)) s,
              entry_at-insert_self (external n) (children n) h.0.is_node.has_children s low
                  zero_node off,
              off,
            )
            (find-zero_node path p)
      | inr apart ↦ rw (
        child_at-build (set_bit (external n) s) (internal n) (rules n)
            (insert_at (ones_from 64 (external n) (suc s)) zero_node (children n)) t,
        entry_at-insert_ne (external n) (children n) h.0.is_node.has_children s low zero_node off t
            k.0 (ground arith),
      )
    ]

    grown-IsTrie : IsTrie (suc d) grown
    unfolding grown
    grown-IsTrie = (
      record {
        is_node =
            build-IsNode (set_bit (external n) s) (internal n) (rules n)
              (insert_at (ones_from 64 (external n) (suc s)) zero_node (children n))
              h.0.is_node.has_rules
              (insert-IsPacked (external n) (children n) h.0.is_node.has_children s low zero_node
                off);
        no_last = h.0.no_last;
      },
      rw (list_of-nodes_of (insert_at (ones_from 64 (external n) (suc s)) zero_node (children n))) (
          All-insert_at (IsTrie d) (ones_from 64 (external n) (suc s)) zero_node (children n) h.1
            (zero_node-IsTrie d)),
    )

    grown-ArePruned : IsPruned (suc d) n → ArePruned d grown s
    unfolding grown
    grown-ArePruned all t l ne c e =
        let cs = insert_at (ones_from 64 (external n) (suc s)) zero_node (children n) in
        all t l c (
          sym (
            entry_at-insert_ne (external n) (children n) h.0.is_node.has_children s low zero_node
              off t l ne)
          ∙ sym (child_at-build (set_bit (external n) s) (internal n) (rules n) cs t)
          ∙ e)

    grown_child : (c : Node) → child_at grown s ≡ some c → IsPruned d c
    unfolding grown
    grown_child c e =
        let cs = insert_at (ones_from 64 (external n) (suc s)) zero_node (children n) in
        let is_c : zero_node ≡ c = same_node (
          sym (
            entry_at-insert_self (external n) (children n) h.0.is_node.has_children s low zero_node
              off)
          ∙ sym (child_at-build (set_bit (external n) s) (internal n) (rules n) cs s)
          ∙ e) in
        rw (← is_c) (zero_node-IsPruned d)

    rank_kept : ones_from 64 (set_bit (external n) s) (suc s) ≡ ones_from 64 (external n) (suc s)
    rank_kept = ground (arith, ones_from-set_bit 64 (external n) s (suc s) low off)

    enter_new : Entered d m n level s
    unfolding grown
    enter_new =
        let k = ones_from 64 (external n) (suc s) in
        record {
          parent = grown;
          stats = resize m n (length (children n) + 1) (length (rules n)) level;
          returns =
              unfold enter_child in
              rw
                (test_bitmap_lem, off, extend_child_lem m n level s h.0.is_node low off, rank_kept);
          shape = grown-IsTrie;
          balanced =
              resize-IsBalanced m n (set_bit (external n) s) (internal n) (rules n)
                (insert_at k zero_node (children n)) (length (children n) + 1) (length (rules n))
                level (omega (arith, length-insert_at k zero_node (children n))) refl
                (total-insert_at_zero k (children n));
          on = bit-set_bit_self (external n) s;
          pruned = λ all. (grown-ArePruned all, grown_child);
          same = find-grown;
        }

  pub enter_child_lem : Entered d m n level s
  enter_child_lem = elim (Bool-cases (bit (external n) s)) [
    | inl on ↦ enter_old on
    | inr off ↦ enter_new off
  ]
