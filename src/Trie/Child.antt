-- ===== src/Trie/Child.antt =====
-- Entering a child and putting it back: what a trie holds afterwards, below that child and elsewhere.
use prefix_lookup_mc.Base.{
  ℕ, suc, ◌<◌, ◌≡◌, ◌≢◌, true, some, List, ◌∷◌, get_elem?, set, All-set, All-get_elem?, store_lem,
}
use prefix_lookup_mc.Bits.Digits.{bit, ones_from}
use prefix_lookup_mc.Bits.Packed.{
  entry_at_lem, rank-lt, set-IsPacked, entry_at-set_self, entry_at-set_ne,
}
use prefix_lookup_mc.Node.Nodes.{Node, external, internal, rules, children, list_of-nodes_of}
use prefix_lookup_mc.Node.Layout.{child_at, build, build-IsNode, child_at-build}
use prefix_lookup_mc.Trie.{put_child}
use prefix_lookup_mc.Trie.Path.{find}
use prefix_lookup_mc.Trie.Shape.{IsTrie}

-- A node with one child replaced.
abbrev pub set_child : Node → ℕ → Node → Node
set_child n s c =
    build (external n) (internal n) (rules n)
      (set (children n) (ones_from 64 (external n) (suc s)) c)

module _ (d : ℕ) (n : Node) (h : IsTrie (suc d) n) (s : ℕ) (low : s < 64) where
  module _ (on : bit (external n) s ≡ true) where
    -- The child at a set bit is there, and is a trie one level lower.
    pub child_lem :
        (c : Node) × (get_elem? (children n) (ones_from 64 (external n) (suc s)) ≡ some c)
        × (child_at n s ≡ some c)
        × IsTrie d c
    child_lem =
        let (c, found) = entry_at_lem (external n) (children n) h.0.is_node.has_children s low on in
        let there : get_elem? (children n) (ones_from 64 (external n) (suc s)) ≡ some c =
          rw on at found in
        (
          c,
          there,
          found,
          All-get_elem? (IsTrie d) (children n) (ones_from 64 (external n) (suc s)) h.1 there,
        )

    module _ (c : Node) where
      pub put_child_lem : put_child n (ones_from 64 (external n) (suc s)) c ≡ some (set_child n s c)
      unfolding put_child
      put_child_lem = rw (
          store_lem (children n) (ones_from 64 (external n) (suc s)) c
            (rank-lt (external n) (children n) h.0.is_node.has_children s low on))

      pub set_child-IsTrie : IsTrie d c → IsTrie (suc d) (set_child n s c)
      set_child-IsTrie hc = (
        record {
          is_node =
              build-IsNode (external n) (internal n) (rules n)
                (set (children n) (ones_from 64 (external n) (suc s)) c) h.0.is_node.has_rules
                (set-IsPacked (external n) (children n) h.0.is_node.has_children s low on c);
          no_last = h.0.no_last;
        },
        rw (list_of-nodes_of (set (children n) (ones_from 64 (external n) (suc s)) c))
            (All-set (IsTrie d) (children n) (ones_from 64 (external n) (suc s)) c h.1 hc),
      )

      -- Below the child the trie holds what the child holds.
      pub find-set_child_self :
          (path : List ℕ) (p : ℕ) → find (set_child n s c) (s ∷ path) p ≡ find c path p
      unfolding find
      find-set_child_self path p = rw (
        child_at-build (external n) (internal n) (rules n)
            (set (children n) (ones_from 64 (external n) (suc s)) c) s,
        entry_at-set_self (external n) (children n) h.0.is_node.has_children s low on c,
      )

      -- Elsewhere it holds what it held.
      pub find-set_child_ne :
          (t : ℕ) (path : List ℕ) (p : ℕ)
          → t < 64
          → s ≢ t
          → find (set_child n s c) (t ∷ path) p ≡ find n (t ∷ path) p
      unfolding find
      find-set_child_ne t path p k ne = rw (
        child_at-build (external n) (internal n) (rules n)
            (set (children n) (ones_from 64 (external n) (suc s)) c) t,
        entry_at-set_ne (external n) (children n) h.0.is_node.has_children s low on c t k ne,
      )
