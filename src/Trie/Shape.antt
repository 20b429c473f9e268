-- ===== src/Trie/Shape.antt =====
-- The invariant of a trie of bounded depth, and the empty trie.
use prefix_lookup_mc.Base.{ℕ, zero, suc, ◌^◌, ◌<◌, ◌≡◌, refl, arith, sym, none, List, [], ◌∷◌, All}
use prefix_lookup_mc.Bits.Digits.{zero-bit, zero-ones_from}
use prefix_lookup_mc.Bits.Packed.{IsPacked}
use prefix_lookup_mc.Node.Nodes.{Node, Nhi, external, internal, children, zero_node}
use prefix_lookup_mc.Node.Layout.{IsNode}
use prefix_lookup_mc.Trie.Path.{find}

-- A node of a trie uses the 63 rule positions of the prefixes shorter than a stride.
pub record IsTrieNode (n : Node) : Type 0 where
  pub is_node : IsNode n
  pub no_last : internal n < 2 ^ 63

-- A trie with at most `d` levels below its root.
abbrev pub IsTrie : ℕ → Node → Type 0
IsTrie zero n = IsTrieNode n × (external n ≡ 0)
IsTrie (suc d) n = IsTrieNode n × All (IsTrie d) (children n)

empty-IsPacked {ℓ} : (A : Type ℓ) → IsPacked {A = A} 0 []
empty-IsPacked A = record { fits = omega arith; counted = sym (zero-ones_from 64 0) }

zero_node-IsTrieNode : IsTrieNode zero_node
zero_node-IsTrieNode = record {
  is_node = record { has_rules = empty-IsPacked Nhi; has_children = empty-IsPacked Node };
  no_last = omega arith;
}

pub zero_node-IsTrie : (d : ℕ) → IsTrie d zero_node
zero_node-IsTrie zero = (zero_node-IsTrieNode, refl)
zero_node-IsTrie (suc d) = (zero_node-IsTrieNode, tt)

pub IsTrie-node : (d : ℕ) (n : Node) → IsTrie d n → IsTrieNode n
IsTrie-node zero n h = h.0
IsTrie-node (suc d) n h = h.0

-- The empty trie holds nothing.
pub find-zero_node : (path : List ℕ) (p : ℕ) → find zero_node path p ≡ none
unfolding find
find-zero_node [] p = rw zero-bit
find-zero_node (s ∷ path) p = rw zero-bit

-- Nor does a node whose bitmaps are empty.
pub find-no_bits :
    (n : Node) (path : List ℕ) (p : ℕ) → external n ≡ 0 → internal n ≡ 0 → find n path p ≡ none
unfolding find
find-no_bits n [] p e i = rw (i, zero-bit) refl
find-no_bits n (s ∷ path) p e i = rw (e, zero-bit) refl
