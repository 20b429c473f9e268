-- ===== src/Trie/Drop.antt =====
-- `reduce_child` on an empty child: the trie holds what it held.
use prefix_lookup_mc.Base.{
  ℕ, suc, ◌<◌, ◌≡◌, refl, sym, arith, true, none, some, List, [], ◌∷◌, Bool-cases, inl, inr, ◌==◌,
  All-remove_at, remove_at,
}
use prefix_lookup_mc.Bits.Digits.{bit, ones_from, clear_bit, zero-bit}
use prefix_lookup_mc.Bits.Packed.{remove-IsPacked, entry_at-remove_self, entry_at-remove_ne}
use prefix_lookup_mc.Node.Nodes.{Node, external, internal, rules, children, list_of-nodes_of}
use prefix_lookup_mc.Node.Layout.{build, build-IsNode, child_at, child_at-build}
use prefix_lookup_mc.Trie.{is_empty}
use prefix_lookup_mc.Trie.Path.{find, AreStrides}
use prefix_lookup_mc.Trie.Shape.{IsTrie}

-- An empty node holds nothing.
pub find-is_empty : (n : Node) (path : List ℕ) (p : ℕ) → is_empty n ≡ true → find n path p ≡ none
unfolding find
find-is_empty n [] p h = let e : internal n ≡ 0 = ground arith in rw (e, zero-bit)
find-is_empty n (s ∷ path) p h = let e : external n ≡ 0 = ground arith in rw (e, zero-bit)

-- A node without one of its children.
abbrev pub drop_child : Node → ℕ → Node
drop_child n s =
    build (clear_bit (external n) s) (internal n) (rules n)
      (remove_at (ones_from 64 (external n) (suc s)) (children n))

module _ (d : ℕ) (n : Node) (h : IsTrie (suc d) n) (s : ℕ) (low : s < 64)
    (on : bit (external n) s ≡ true) where
  pub drop_child-IsTrie : IsTrie (suc d) (drop_child n s)
  drop_child-IsTrie = (
    record {
      is_node =
          build-IsNode (clear_bit (external n) s) (internal n) (rules n)
            (remove_at (ones_from 64 (external n) (suc s)) (children n)) h.0.is_node.has_rules
            (remove-IsPacked (external n) (children n) h.0.is_node.has_children s low on);
      no_last = h.0.no_last;
    },
    rw (list_of-nodes_of (remove_at (ones_from 64 (external n) (suc s)) (children n)))
        (All-remove_at (IsTrie d) (ones_from 64 (external n) (suc s)) (children n) h.1),
  )

  pub find-drop_child :
      (c : Node)
      → child_at n s ≡ some c
      → is_empty c ≡ true
      → (path : List ℕ) (p : ℕ) → AreStrides path
      → find (drop_child n s) path p ≡ find n path p
  unfolding find
  find-drop_child c there empty [] p k = refl
  find-drop_child c there empty (t ∷ path) p k = elim (Bool-cases (s == t)) [
    | inl same ↦
        let e : t ≡ s = ground arith in
        rw
          (
            e,
            there,
            child_at-build (clear_bit (external n) s) (internal n) (rules n)
                (remove_at (ones_from 64 (external n) (suc s)) (children n)) s,
            entry_at-remove_self (external n) (children n) h.0.is_node.has_children s low on,
          )
          (sym (find-is_empty c path p empty))
    | inr apart ↦ rw (
      child_at-build (clear_bit (external n) s) (internal n) (rules n)
          (remove_at (ones_from 64 (external n) (suc s)) (children n)) t,
      entry_at-remove_ne (external n) (children n) h.0.is_node.has_children s low on t k.0
          (ground arith),
    )
  ]
