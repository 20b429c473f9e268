-- ===== src/Trie.antt =====
-- lib/bitmap_v4.c, lib/bitmap_v6.c and lib/bitmap.c: the operations on a trie of multi-bit nodes, over
-- the addresses of an `Address`. A loop takes the number of its rounds as fuel.
pub mod Path
pub mod Shape
pub mod Child
pub mod Enter
pub mod Insert
pub mod Prefix
pub mod Place
pub mod Exist
pub mod Drop
pub mod Pruned
pub mod Delete
pub mod Remove
pub mod RoundTrip
pub mod Guarded
use prefix_lookup_mc.Base.{
  ℕ, zero, suc, ◌+◌, ◌-◌, Bool, true, false, ◌&&◌, Option, none, some, List, [], ◌∷◌, ◌++◌,
  get_elem?, ltb, ◌==◌, if◌then◌else◌, ◌>>=◌, store,
}
use prefix_lookup_mc.Address.{Address, stride_of, shift, inl_pos, enl_pos}
use prefix_lookup_mc.Bits.{count_ones, test_bitmap}
use prefix_lookup_mc.Mm.{Mm}
use prefix_lookup_mc.Node.{
  next_child, load_nhi, store_nhi, extend_rule, extend_child, reduce_child, reduce_rule,
}
use prefix_lookup_mc.Node.Nodes.{Node, node, Nhi, external, internal, rules, children, block}

-- A child's place in its parent's block, written through a pointer to the child.
unfoldable pub put_child : Node → ℕ → Node → Option Node
put_child n k c = do
  cs ← store (children n) k c
  some (node (external n) (internal n) (block (rules n) cs))

-- `test_bitmap`, then `next_child` or `extend_child`: the index of the child at `pos`.
unfoldable pub enter_child : Mm → Node → ℕ → ℕ → Option (Node × ℕ × Mm)
enter_child m n level pos =
    if test_bitmap (external n) pos
    then (count_ones (external n) pos >>= λ k. some (n, k, m))
    else extend_child m n level pos

-- The rule at the last node: 1 if it was there and is replaced, 0 if it is new.
unfoldable pub put_rule : Mm → Node → ℕ → ℕ → Nhi → Option (ℕ × Node × Mm)
put_rule m n level pos nhi =
    if test_bitmap (internal n) pos
    then (store_nhi n pos nhi >>= λ n'. some (1, n', m))
    else (extend_rule m n pos level nhi >>= λ r. some (0, r.0, r.1))

module _ (a : Address) where
  unfoldable pub insert_loop : ℕ → Mm → Node → a.Ip → ℕ → ℕ → Nhi → Option (ℕ × Node × Mm)
  insert_loop zero m n ip cidr level nhi = none
  insert_loop (suc fuel) m n ip cidr level nhi =
      if ltb cidr 6 then put_rule m n level (inl_pos a ip cidr) nhi else do
        entered ← enter_child m n level (enl_pos a ip)
        c ← get_elem? (children entered.0) entered.1
        below ← insert_loop fuel entered.2 c (shift a ip) (cidr - 6) (level + 1) nhi
        n' ← put_child entered.0 entered.1 below.1
        some (below.0, n', below.2)

  -- A prefix of `cidr` bits takes at most `cidr` rounds and one.
  unfoldable pub insert_prefix : Mm → Node → a.Ip → ℕ → Nhi → Option (ℕ × Node × Mm)
  insert_prefix m n ip cidr nhi = insert_loop (suc cidr) m n ip cidr 0 nhi

  -- `bitmap_delete_prefix` keeps the nodes of the branch and the positions taken in `trace_node`.
  unfoldable pub trace_loop : ℕ → Node → a.Ip → ℕ → Option (List (Node × ℕ))
  trace_loop zero n ip cidr = none
  trace_loop (suc fuel) n ip cidr = if ltb cidr 6 then some ((n, inl_pos a ip cidr) ∷ []) else do
    c ← next_child n (enl_pos a ip)
    rest ← trace_loop fuel c (shift a ip) (cidr - 6)
    some ((n, enl_pos a ip) ∷ rest)

-- A node with neither rule nor child.
abbrev pub is_empty : Node → Bool
is_empty n = internal n == 0 && external n == 0

-- `update_nodes`, from the last entry of the trace up: the trace's nodes lie in their parents' blocks,
-- so the changed node is first written to its place there. The Boolean is `node_need_to_del`.
unfoldable pub update_nodes : Mm → List (Node × ℕ) → ℕ → Option (Bool × Node × Mm)
update_nodes m [] level = none
update_nodes m ((n, pos) ∷ []) level = do
  reduced ← reduce_rule m n pos level
  some (is_empty reduced.0, reduced.0, reduced.1)
update_nodes m ((n, pos) ∷ (below ∷ rest)) level = do
  updated ← update_nodes m (below ∷ rest) (level + 1)
  k ← count_ones (external n) pos
  n' ← put_child n k updated.1
  reduced ← if updated.0 then reduce_child updated.2 n' pos level else some (n', updated.2)
  some (is_empty reduced.0, reduced.0, reduced.1)

-- `destroy_nhi(*nhi)` for the rule at the end of the trace, where there is a `destroy_nhi`: the calls
-- are returned as a list.
unfoldable pub destroy_last : Bool → List (Node × ℕ) → Option (List Nhi)
destroy_last destroy [] = none
destroy_last destroy ((n, pos) ∷ []) =
    if destroy then (load_nhi n pos >>= λ v. some (v ∷ [])) else some []
destroy_last destroy (n ∷ (below ∷ rest)) = destroy_last destroy (below ∷ rest)

pub record Deleted : Type 0 where
  pub root_empty : Bool
  pub root : Node
  pub mm : Mm
  pub destroyed : List Nhi

-- `func` of a traversal: at a node, with the stride, the position and the node's type, over the
-- caller's data. It returns its code, the node and the data.
pub data NodeType : Type 0 where
  leaf_node mid_node : NodeType

abbrev pub TraverseFunc : Type 0 → Type 0
TraverseFunc S = Node → ℕ → ℕ → NodeType → S → Option (ℕ × Node × S)

abbrev pub traverse_cont : ℕ
traverse_cont = 1

unfoldable pub prefix_exist_func : TraverseFunc (Unit {0})
prefix_exist_func n stride pos leaf_node s =
    some (if test_bitmap (internal n) pos then traverse_cont else 0, n, s)
prefix_exist_func n stride pos mid_node s =
    some (if test_bitmap (external n) pos then traverse_cont else 0, n, s)

module _ (a : Address) where
  unfoldable pub delete_prefix : Mm → Node → a.Ip → ℕ → Bool → Option Deleted
  delete_prefix m n ip cidr destroy = do
    trace ← trace_loop a (suc cidr) n ip cidr
    gone ← destroy_last destroy trace
    updated ← update_nodes m trace 0
    some (record { root_empty = updated.0; root = updated.1; mm = updated.2; destroyed = gone })

  unfoldable pub traverse_loop :
      {S : Type 0} → ℕ → Node → a.Ip → ℕ → TraverseFunc S → S → Option (ℕ × Node × S)
  traverse_loop zero n ip cidr func s = none
  traverse_loop (suc fuel) n ip cidr func s =
      if ltb cidr 6 then func n (stride_of a ip cidr) (inl_pos a ip cidr) leaf_node s else do
        here ← func n (stride_of a ip 6) (enl_pos a ip) mid_node s
        let deeper = do
          k ← count_ones (external here.1) (enl_pos a ip)
          c ← get_elem? (children here.1) k
          below ← traverse_loop fuel c (shift a ip) (cidr - 6) func here.2
          n' ← put_child here.1 k below.1
          some (below.0, n', below.2)
        if here.0 == traverse_cont then deeper else some here

  unfoldable pub traverse_branch :
      {S : Type 0} → Node → a.Ip → ℕ → TraverseFunc S → S → Option (ℕ × Node × S)
  traverse_branch n ip cidr func s = traverse_loop (suc cidr) n ip cidr func s

  unfoldable pub prefix_exist : Node → a.Ip → ℕ → Option ℕ
  prefix_exist n ip cidr = traverse_branch n ip cidr prefix_exist_func tt >>= λ r. some (r.0)
