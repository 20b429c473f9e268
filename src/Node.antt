-- ===== src/Node.antt =====
-- lib/mb_node.h and lib/mb_node.c: a multi-bit node and the block that its child_ptr points into.
-- The block holds the rules below the pointer and the children from it upwards:
-- `rules` lists the rules from the pointer downwards (slot 1 first), `children` the nodes upwards.
-- A node is stored in its parent's block and a block has one owner, so nodes are values, and an
-- operation on `*node` returns the new node. COMPRESS_NHI is not defined. calloc is taken to succeed.
pub mod Nodes
mod Copies
pub mod Layout
pub mod Rules
pub mod Children
pub mod Account
use prefix_lookup_mc.Base.{
  ℕ, ◌+◌, ◌-◌, ◌*◌, ◌/◌, Option, none, some, List, [], ◌∷◌, length, get_elem?, replicate, ◌==◌, ltb,
  if◌then◌else◌, ◌>>=◌, memcpy, store, copy_below, Bool,
}
use prefix_lookup_mc.Bits.{count_ones, count_children, set_bitmap, clear_bitmap}
use prefix_lookup_mc.Mm.{Mm, node_size, alloc_node, dealloc_node}
use Nodes.{
  Nhi, Node, Block, node, null, mem, external, internal, child_ptr, rules, children, block,
  zero_node,
}

-- How many nodes' room `x` rule pointers take.
unfoldable pub up_rule : ℕ → ℕ
up_rule x = (x * 8 + node_size - 1) / node_size

abbrev pub up_child : ℕ → ℕ
up_child x = x

-- The room of a block, in nodes.
abbrev pub block_cnt : ℕ → ℕ → ℕ
block_cnt child_num rule_num = up_child child_num + up_rule rule_num

-- A fresh block, all zero: its rules, its children and the statistics.
unfoldable pub new_node : Mm → ℕ → ℕ → ℕ → List Nhi × List Node × Mm
new_node m mb_cnt nh_cnt level =
    (replicate nh_cnt 0, replicate mb_cnt zero_node, alloc_node m (block_cnt mb_cnt nh_cnt) level)

unfoldable pub free_node : Mm → Block → ℕ → ℕ → Mm
free_node m null cnt level = m
free_node m (mem rs cs) cnt level = dealloc_node m cnt level

-- `next_child`: the node at an index of the block.
unfoldable pub next_child : Node → ℕ → Option Node
next_child n pos = do i ← count_ones (external n) pos; get_elem? (children n) i

-- The rule that `pointer_to_nhi` points to, and a write through that pointer.
unfoldable pub load_nhi : Node → ℕ → Option Nhi
load_nhi n pos = do i ← count_ones (internal n) pos; get_elem? (rules n) i

unfoldable pub store_nhi : Node → ℕ → Nhi → Option Node
store_nhi n pos v = do
  i ← count_ones (internal n) pos
  rs ← store (rules n) i v
  some (node (external n) (internal n) (block rs (children n)))

-- The copies of the functions below, from the old block into the fresh one. All children, all rules:
unfoldable pub copy_children : List Node → Node → ℕ → Option (List Node)
copy_children cs n child_num =
    if child_num == 0 then some cs else memcpy cs 0 (children n) 0 child_num

unfoldable pub copy_rules : List Nhi → Node → ℕ → Option (List Nhi)
copy_rules rs n rule_num =
    if rule_num == 0 then some rs else copy_below rs rule_num (rules n) rule_num rule_num

-- The rules of the slots 1 to `k`, and those from slot `k + 1` on one slot further.
unfoldable pub open_slot : List Nhi → Node → ℕ → ℕ → Option (List Nhi)
open_slot rs n k rule_num =
    if rule_num == 0
    then some rs
    else (copy_below rs k (rules n) k k >>= λ d.
        copy_below d (rule_num + 1) (rules n) rule_num (rule_num - k))

-- The rules of the slots 1 to `k`, and those from slot `k + 2` on one slot nearer.
unfoldable pub close_slot : List Nhi → Node → ℕ → ℕ → Option (List Nhi)
close_slot rs n k rule_num =
    if ltb 1 rule_num
    then (copy_below rs k (rules n) k k >>= λ d.
        copy_below d (rule_num - 1) (rules n) rule_num (rule_num - (k + 1)))
    else some rs

-- The children below index `k`, and those from `k` on one further.
unfoldable pub open_child : List Node → Node → ℕ → ℕ → Option (List Node)
open_child cs n k child_num =
    if child_num == 0
    then some cs
    else (memcpy cs 0 (children n) 0 k >>= λ d. memcpy d (k + 1) (children n) k (child_num - k))

-- The children below index `k`, and those from `k + 1` on one nearer.
unfoldable pub close_child : List Node → Node → ℕ → ℕ → Option (List Node)
close_child cs n k child_num =
    if ltb 1 child_num
    then (memcpy cs 0 (children n) 0 k >>= λ d. memcpy d k (children n) (k + 1) (child_num - k - 1))
    else some cs

-- Inserts a rule, into slot `k + 1`.
unfoldable pub extend_rule : Mm → Node → ℕ → ℕ → Nhi → Option (Node × Mm)
extend_rule m n pos level nhi = do
  let child_num = count_children (external n)
  let rule_num = count_children (internal n)
  let inl = set_bitmap (internal n) pos
  k ← count_ones inl pos
  let (rs, cs, m') = new_node m child_num (rule_num + 1) level
  cs' ← copy_children cs n child_num
  rs' ← open_slot rs n k rule_num
  rs'' ← store rs' k nhi
  some (
    node (external n) inl (block rs'' cs'),
    free_node m' (child_ptr n) (block_cnt child_num rule_num) level,
  )

-- Inserts a child, which is all zero, and returns its index too.
unfoldable pub extend_child : Mm → Node → ℕ → ℕ → Option (Node × ℕ × Mm)
extend_child m n level pos = do
  let child_num = count_children (external n)
  let rule_num = count_children (internal n)
  let enl = set_bitmap (external n) pos
  k ← count_ones enl pos
  let (rs, cs, m') = new_node m (child_num + 1) rule_num level
  rs' ← copy_rules rs n rule_num
  cs' ← open_child cs n k child_num
  some (
    node enl (internal n) (block rs' cs'),
    k,
    free_node m' (child_ptr n) (block_cnt child_num rule_num) level,
  )

-- Removes a child.
unfoldable pub reduce_child : Mm → Node → ℕ → ℕ → Option (Node × Mm)
reduce_child m n pos level = do
  let child_num = count_children (external n)
  let rule_num = count_children (internal n)
  k ← count_ones (external n) pos
  let enl = clear_bitmap (external n) pos
  let (rs, cs, m') = new_node m (child_num - 1) rule_num level
  rs' ← copy_rules rs n rule_num
  cs' ← close_child cs n k child_num
  some (
    node enl (internal n) (block rs' cs'),
    free_node m' (child_ptr n) (block_cnt child_num rule_num) level,
  )

-- Removes a rule; with no rule there is only the bit to clear.
unfoldable pub reduce_rule : Mm → Node → ℕ → ℕ → Option (Node × Mm)
reduce_rule m n pos level =
    let child_num = count_children (external n) in
    let rule_num = count_children (internal n) in
    let inl = clear_bitmap (internal n) pos in
    if ltb rule_num 1 then some (node (external n) inl (child_ptr n), m) else do
      k ← count_ones (internal n) pos
      let (rs, cs, m') = new_node m child_num (rule_num - 1) level
      cs' ← copy_children cs n child_num
      rs' ← close_slot rs n k rule_num
      some (
        node (external n) inl (block rs' cs'),
        free_node m' (child_ptr n) (block_cnt child_num rule_num) level,
      )
