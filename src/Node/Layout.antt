-- ===== src/Node/Layout.antt =====
-- The shape of a node and its block, and the abstract view of a block: a rule for each set bit of
-- the internal bitmap, a child for each set bit of the external one.
use prefix_lookup_mc.Base.{
  ℕ, suc, ◌<◌, ◌≡◌, sym, ◌∙◌, Option, some, true, List, length, set, store_lem,
}
use prefix_lookup_mc.Bits.{count_children}
use prefix_lookup_mc.Bits.Digits.{bit, ones_from}
use prefix_lookup_mc.Bits.Words.{count_ones_lem, count_children_lem}
use prefix_lookup_mc.Bits.Packed.{IsPacked, entry_at, rank-lt}
use prefix_lookup_mc.Node.Nodes.{
  Node, node, Nhi, external, internal, rules, children, block, list_of-nodes_of,
}
use prefix_lookup_mc.Node.{load_nhi, next_child, store_nhi}

-- Both bitmaps are 64-bit words, and the block has an entry for each of their bits.
pub record IsNode (n : Node) : Type 0 where
  pub has_rules : IsPacked (internal n) (rules n)
  pub has_children : IsPacked (external n) (children n)

-- What a node holds at a position: a rule, a child.
abbrev pub rule_at : Node → ℕ → Option Nhi
rule_at n p = entry_at (internal n) (rules n) p

abbrev pub child_at : Node → ℕ → Option Node
child_at n p = entry_at (external n) (children n) p

-- The counts of a node are the lengths of its lists.
pub count_rules : (n : Node) → IsNode n → count_children (internal n) ≡ length (rules n)
count_rules n h = count_children_lem (internal n) h.has_rules.fits ∙ sym h.has_rules.counted

pub count_nodes : (n : Node) → IsNode n → count_children (external n) ≡ length (children n)
count_nodes n h = count_children_lem (external n) h.has_children.fits ∙ sym h.has_children.counted

-- A node with a block of its own: what it holds is what was put there.
abbrev pub build : ℕ → ℕ → List Nhi → List Node → Node
build ext int rs cs = node ext int (block rs cs)

pub build-IsNode :
    (ext int : ℕ) (rs : List Nhi) (cs : List Node)
    → IsPacked int rs
    → IsPacked ext cs
    → IsNode (build ext int rs cs)
build-IsNode ext int rs cs r c = record { has_rules = r; has_children = rw (list_of-nodes_of cs) c }

pub child_at-build :
    (ext int : ℕ) (rs : List Nhi) (cs : List Node) (q : ℕ)
    → child_at (build ext int rs cs) q ≡ entry_at ext cs q
child_at-build ext int rs cs q = rw (list_of-nodes_of cs)

-- The reads of the program give what the node holds at a set bit.
pub load_nhi_lem :
    (n : Node) (p : ℕ) → IsNode n → p < 64 → bit (internal n) p ≡ true → load_nhi n p ≡ rule_at n p
unfolding load_nhi
load_nhi_lem n p h low on = rw (count_ones_lem (internal n) p h.has_rules.fits low on, on)

pub next_child_lem :
    (n : Node) (p : ℕ)
    → IsNode n
    → p < 64
    → bit (external n) p ≡ true
    → next_child n p ≡ child_at n p
unfolding next_child
next_child_lem n p h low on = rw (count_ones_lem (external n) p h.has_children.fits low on, on)

pub store_nhi_lem :
    (n : Node) (p : ℕ) (v : Nhi)
    → IsNode n
    → p < 64
    → bit (internal n) p ≡ true
    → store_nhi n p v
      ≡ some (
          build
            (external n)
            (internal n)
            (set (rules n) (ones_from 64 (internal n) (suc p)) v)
            (children n))
unfolding store_nhi
store_nhi_lem n p v h low on = rw (
  count_ones_lem (internal n) p h.has_rules.fits low on,
  store_lem (rules n) (ones_from 64 (internal n) (suc p)) v
      (rank-lt (internal n) (rules n) h.has_rules p low on),
)
