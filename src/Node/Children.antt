-- ===== src/Node/Children.antt =====
-- `extend_child` and `reduce_child` insert and remove one child, and keep the rules.
use prefix_lookup_mc.Base.{
  ℕ, suc, ◌+◌, ◌-◌, ◌<◌, ◌≤◌, ◌≡◌, ap, ◌∙◌, arith, some, true, false, length, insert_at, remove_at,
}
use prefix_lookup_mc.Bits.{count_ones}
use prefix_lookup_mc.Bits.Digits.{
  bit, ones_from, set_bit, clear_bit, bit-set_bit_self, ones_from-set_bit, set_bit-lt,
}
use prefix_lookup_mc.Bits.Words.{count_ones_lem, set_bitmap_lem, clear_bitmap_lem}
use prefix_lookup_mc.Bits.Packed.{rank-le, rank-lt}
use prefix_lookup_mc.Mm.{Mm}
use prefix_lookup_mc.Node.{extend_child, reduce_child, new_node}
use prefix_lookup_mc.Node.Copies.{copy_rules_lem, open_child_lem, close_child_lem}
use prefix_lookup_mc.Node.Nodes.{Node, node, external, internal, rules, children, block, zero_node}
use prefix_lookup_mc.Node.Layout.{IsNode, count_rules, count_nodes}
use prefix_lookup_mc.Node.Rules.{resize}

-- At a free position below 64 of a well-formed node, `extend_child` returns: it sets the position's bit,
-- inserts an all-zero child behind those of higher positions, returns its index, keeps the rules, and
-- counts the new block and the release of the old one.
pub extend_child_lem :
    (m : Mm) (n : Node) (level p : ℕ)
    → IsNode n
    → p < 64
    → bit (external n) p ≡ false
    → extend_child m n level p
      ≡ some (
        node (set_bit (external n) p) (internal n) (
            block (rules n) (insert_at (ones_from 64 (external n) (suc p)) zero_node (children n))),
        ones_from 64 (external n) (suc p),
        resize m n (length (children n) + 1) (length (rules n)) level,
      )
unfolding extend_child new_node
extend_child_lem m n level p h low free = rw (
  count_rules n h,
  count_nodes n h,
  set_bitmap_lem (external n) p,
  rank_of_new,
  copy_rules_lem n,
  open_child_lem n k room,
)
  where
    k : ℕ
    k = ones_from 64 (external n) (suc p)

    room : k ≤ length (children n)
    room = rank-le (external n) (children n) h.has_children p

    rank_of_new : count_ones (set_bit (external n) p) p ≡ some k
    rank_of_new =
        count_ones_lem (set_bit (external n) p) p
          (set_bit-lt 64 (external n) p h.has_children.fits low) low
          (bit-set_bit_self (external n) p)
        ∙ ap some (ground (arith, ones_from-set_bit 64 (external n) p (suc p) low free))

-- At a taken position below 64 of a well-formed node, `reduce_child` returns: it clears the position's
-- bit, removes its child, keeps the rules, and counts the new block and the release of the old one.
pub reduce_child_lem :
    (m : Mm) (n : Node) (p level : ℕ)
    → IsNode n
    → p < 64
    → bit (external n) p ≡ true
    → reduce_child m n p level
      ≡ some (
        node
            (clear_bit (external n) p)
            (internal n)
            (block (rules n) (remove_at (ones_from 64 (external n) (suc p)) (children n))),
        resize m n (length (children n) - 1) (length (rules n)) level,
      )
unfolding reduce_child new_node
reduce_child_lem m n p level h low on = rw (
  count_rules n h,
  count_nodes n h,
  clear_bitmap_lem (external n) p h.has_children.fits low,
  count_ones_lem (external n) p h.has_children.fits low on,
  copy_rules_lem n,
  close_child_lem n (ones_from 64 (external n) (suc p))
      (rank-lt (external n) (children n) h.has_children p low on),
)
