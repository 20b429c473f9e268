-- ===== src/Node/Rules.antt =====
-- `extend_rule` and `reduce_rule` insert and remove one rule, and keep the children.
use prefix_lookup_mc.Base.{
  ℕ, suc, ◌+◌, ◌<◌, ◌≡◌, ap, ◌∙◌, arith, some, true, false, length, insert_at, remove_at,
  store-insert_at, ltb, ◌≤◌, ◌-◌,
}
use prefix_lookup_mc.Bits.{count_ones}
use prefix_lookup_mc.Bits.Digits.{
  bit, ones_from, set_bit, clear_bit, bit-set_bit_self, ones_from-set_bit, set_bit-lt,
}
use prefix_lookup_mc.Bits.Words.{count_ones_lem, set_bitmap_lem, clear_bitmap_lem}
use prefix_lookup_mc.Bits.Packed.{rank-le, rank-lt}
use prefix_lookup_mc.Node.Copies.{copy_children_lem, open_slot_lem, close_slot_lem}
use prefix_lookup_mc.Mm.{Mm, alloc_node}
use prefix_lookup_mc.Node.{extend_rule, reduce_rule, new_node, free_node, block_cnt}
use prefix_lookup_mc.Node.Nodes.{
  Node, node, Nhi, external, internal, child_ptr, rules, children, block,
}
use prefix_lookup_mc.Node.Layout.{IsNode, count_rules, count_nodes}

-- The statistics after a block has been replaced by one of other sizes.
abbrev pub resize : Mm → Node → ℕ → ℕ → ℕ → Mm
resize m n child_num rule_num level =
    free_node (alloc_node m (block_cnt child_num rule_num) level) (child_ptr n)
      (block_cnt (length (children n)) (length (rules n))) level

-- At a free position below 64 of a well-formed node, `extend_rule` returns: it sets the position's bit,
-- inserts the rule behind those of higher positions, keeps the children, and counts the new block
-- and the release of the old one.
pub extend_rule_lem :
    (m : Mm) (n : Node) (p level : ℕ) (v : Nhi)
    → IsNode n
    → p < 64
    → bit (internal n) p ≡ false
    → extend_rule m n p level v
      ≡ some (
        node
            (external n)
            (set_bit (internal n) p)
            (block (insert_at (ones_from 64 (internal n) (suc p)) v (rules n)) (children n)),
        resize m n (length (children n)) (length (rules n) + 1) level,
      )
unfolding extend_rule new_node
extend_rule_lem m n p level v h low free = rw (
  count_rules n h,
  count_nodes n h,
  set_bitmap_lem (internal n) p,
  rank_of_new,
  copy_children_lem n,
  open_slot_lem n k room,
  store-insert_at k 0 v (rules n) room,
)
  where
    k : ℕ
    k = ones_from 64 (internal n) (suc p)

    room : k ≤ length (rules n)
    room = rank-le (internal n) (rules n) h.has_rules p

    rank_of_new : count_ones (set_bit (internal n) p) p ≡ some k
    rank_of_new =
        count_ones_lem (set_bit (internal n) p) p
          (set_bit-lt 64 (internal n) p h.has_rules.fits low) low (bit-set_bit_self (internal n) p)
        ∙ ap some (ground (arith, ones_from-set_bit 64 (internal n) p (suc p) low free))

-- At a taken position below 64 of a well-formed node, `reduce_rule` returns: it clears the position's
-- bit, removes its rule, keeps the children, and counts the new block and the release of the old one.
pub reduce_rule_lem :
    (m : Mm) (n : Node) (p level : ℕ)
    → IsNode n
    → p < 64
    → bit (internal n) p ≡ true
    → reduce_rule m n p level
      ≡ some (
        node
            (external n)
            (clear_bit (internal n) p)
            (block (remove_at (ones_from 64 (internal n) (suc p)) (rules n)) (children n)),
        resize m n (length (children n)) (length (rules n) - 1) level,
      )
unfolding reduce_rule new_node
reduce_rule_lem m n p level h low on = rw (
  count_rules n h,
  count_nodes n h,
  clear_bitmap_lem (internal n) p h.has_rules.fits low,
  some_rule,
  count_ones_lem (internal n) p h.has_rules.fits low on,
  copy_children_lem n,
  close_slot_lem n (ones_from 64 (internal n) (suc p)) room,
)
  where
    room : ones_from 64 (internal n) (suc p) < length (rules n)
    room = rank-lt (internal n) (rules n) h.has_rules p low on

    some_rule : ltb (length (rules n)) 1 ≡ false
    some_rule = ground (arith, room)
