-- ===== src/Tests/Nodes.antt =====
-- Single nodes.
use prefix_lookup_mc.Base.{◌≡◌, refl, arith, some, [], ◌∷◌, insert_at, remove_at}
use prefix_lookup_mc.Bits.Digits.{bit, set_bit, clear_bit, ones_from}
use prefix_lookup_mc.Node.{extend_rule, reduce_rule, extend_child, reduce_child}
use prefix_lookup_mc.Node.Nodes.{Node, node, block, zero_node}
use prefix_lookup_mc.Node.Layout.{IsNode, build, build-IsNode}
use prefix_lookup_mc.Node.Rules.{resize, extend_rule_lem, reduce_rule_lem}
use prefix_lookup_mc.Node.Children.{extend_child_lem, reduce_child_lem}
use prefix_lookup_mc.TreeFunction.{tree_function, tree_function_slow}
use prefix_lookup_mc.TreeFunction.Equal.{tree_function-slow}
use prefix_lookup_mc.Tests.{simple}

tree_function-slow_example : tree_function 37 40 ≡ tree_function_slow 37 40
tree_function-slow_example = tree_function-slow 37 40 (omega arith) (omega arith)

-- A node with the rules 9 at position 2 and 8 at position 0, and a child at position 3.
abbrev small : Node
small = build 8 5 (9 ∷ (8 ∷ [])) (zero_node ∷ [])

small-IsNode : IsNode small
unfolding ones_from
small-IsNode =
    build-IsNode 8 5 (9 ∷ (8 ∷ [])) (zero_node ∷ []) (record { fits = omega arith; counted = refl })
      (record { fits = omega arith; counted = refl })

extend_rule_lem_example :
    extend_rule simple small 1 0 4
    ≡ some (
      node 8 (set_bit 5 1) (block (insert_at (ones_from 64 5 2) 4 (9 ∷ (8 ∷ []))) (zero_node ∷ [])),
      resize simple small 1 3 0,
    )
unfolding bit
extend_rule_lem_example = extend_rule_lem simple small 1 0 4 small-IsNode (omega arith) refl

reduce_rule_lem_example :
    reduce_rule simple small 2 0
    ≡ some (
      node 8 (clear_bit 5 2) (block (remove_at (ones_from 64 5 3) (9 ∷ (8 ∷ []))) (zero_node ∷ [])),
      resize simple small 1 1 0,
    )
unfolding bit
reduce_rule_lem_example = reduce_rule_lem simple small 2 0 small-IsNode (omega arith) refl

extend_child_lem_example :
    extend_child simple small 0 5
    ≡ some (
      node
          (set_bit 8 5)
          5
          (block (9 ∷ (8 ∷ [])) (insert_at (ones_from 64 8 6) zero_node (zero_node ∷ []))),
      ones_from 64 8 6,
      resize simple small 2 2 0,
    )
unfolding bit
extend_child_lem_example = extend_child_lem simple small 0 5 small-IsNode (omega arith) refl

reduce_child_lem_example :
    reduce_child simple small 3 0
    ≡ some (
      node (clear_bit 8 3) 5 (block (9 ∷ (8 ∷ [])) (remove_at (ones_from 64 8 4) (zero_node ∷ []))),
      resize simple small 0 2 0,
    )
unfolding bit
reduce_child_lem_example = reduce_child_lem simple small 3 0 small-IsNode (omega arith) refl
