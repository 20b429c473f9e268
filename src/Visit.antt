-- ===== src/Visit.antt =====
-- The functions that visit a whole trie: `destroy_subtrie` of lib/mb_node.c, and the iteration over all
-- prefixes and the count of redundant rules of lib/bitmap_v4.c. The levels below a node are the fuel.
pub mod Loops
pub mod Destroyed
pub mod Subtrie
use prefix_lookup_mc.Base.{
  ℕ, zero, suc, ◌+◌, ◌-◌, ◌^◌, Bool, not, ◌&&◌, Option, none, some, List, [], ◌∷◌, ◌++◌, ltb, ◌==◌,
  if◌then◌else◌, ◌>>=◌,
}
use prefix_lookup_mc.Address.{Address}
use prefix_lookup_mc.Bits.{test_bitmap, count_inl_bitmap, count_enl_bitmap, count_children}
use prefix_lookup_mc.Mm.{Mm}
use prefix_lookup_mc.Node.{next_child, load_nhi, free_node, up_rule, up_child}
use prefix_lookup_mc.Node.Nodes.{Node, node, null, Nhi, external, internal, child_ptr}

-- `for (i = start; i < start + rounds; i++)`
abbrev pub count_from : ℕ → ℕ → List ℕ
count_from start zero = []
count_from start (suc rounds) = start ∷ count_from (suc start) rounds

-- A loop over places, with a state, where a round may fault.
unfoldable pub for_each {ℓ κ} :
    {A : Type ℓ} {S : Type κ} → List A → S → (A → S → Option S) → Option S
for_each [] s round = some s
for_each (x ∷ xs) s round = round x s >>= λ s'. for_each xs s' round

-- The rules of a node by their length and bits, in the order of the two nested loops.
unfoldable pub for_rules {κ} : {S : Type κ} → Node → S → (ℕ → ℕ → Nhi → S → Option S) → Option S
unfolding for_each
for_rules n s round = for_each (count_from 0 6) s λ cidr s'.
    for_each (count_from 0 (2 ^ cidr)) s' λ bits s''.
      if test_bitmap (internal n) (count_inl_bitmap bits cidr)
      then (load_nhi n (count_inl_bitmap bits cidr) >>= λ nhi. round cidr bits nhi s'')
      else some s''

-- The children of a node by their strides.
unfoldable pub for_children {κ} : {S : Type κ} → Node → S → (ℕ → Node → S → Option S) → Option S
unfolding for_each
for_children n s round = for_each (count_from 0 64) s λ stride s'.
    if test_bitmap (external n) (count_enl_bitmap stride)
    then (next_child n (count_enl_bitmap stride) >>= λ c. round stride c s')
    else some s'

-- The statistics after the release, the infos that `destroy_nhi` is called with, and what is left of the
-- node. The bitmaps are zeroed before the children are counted, so the block is released with the room
-- of its rules alone.
unfoldable pub destroy_subtrie :
    ℕ → Mm → Node → Bool → ℕ → List Nhi → Option ((Mm × List Nhi) × Node)
destroy_subtrie zero m n destroy depth gone = none
destroy_subtrie (suc fuel) m n destroy depth gone = do
  gone' ←
      for_rules n gone
        λ cidr bits nhi g. if destroy && not (nhi == 0) then some (g ++ (nhi ∷ [])) else some g
  below ←
      for_children {S = Mm × List Nhi} n (m, gone')
        λ stride c s. destroy_subtrie fuel s.0 c destroy (depth + 1) s.1 >>= λ r. some r.0
  let cnt_rules = count_children (internal n)
  let left = node 0 0 null
  let cnt_children = count_children (external left)
  let room = up_rule cnt_rules + up_child cnt_children
  some ((free_node below.0 (child_ptr n) room depth, below.1), left)

-- The state of `bitmap_redund_rule` in one node: `prev_nhi` and the count.
abbrev redund_round : ℕ → ℕ → Nhi → Nhi × ℕ → Option (Nhi × ℕ)
redund_round cidr bits nhi (prev, count) =
    if prev == 0
    then some (nhi, count)
    else if nhi == prev
    then some (prev, count + 1)
    else some (nhi, count)

unfoldable pub redund_rule : ℕ → Node → ℕ → Option ℕ
redund_rule zero n count = none
redund_rule (suc fuel) n count = do
  here ← for_rules {S = Nhi × ℕ} n (0, count) redund_round
  for_children n (here.1) λ stride c s. redund_rule fuel c s

module _ (a : Address) where
  -- The calls of `trie_traverse_func`: address, length and info of every prefix. A shift by less than
  -- nothing is a fault.
  unfoldable pub mb_node_iter :
      ℕ → Node → a.Ip → ℕ → ℕ → List (a.Ip × ℕ × Nhi) → Option (List (a.Ip × ℕ × Nhi))
  mb_node_iter zero n ip left_bits cur_cidr calls = none
  mb_node_iter (suc fuel) n ip left_bits cur_cidr calls = do
    here ← for_rules {S = List (a.Ip × ℕ × Nhi)} n calls λ cidr bits nhi s.
        if ltb left_bits cidr
        then none
        else some (s ++ ((a.or_bits ip bits (left_bits - cidr), cur_cidr + cidr, nhi) ∷ []))
    for_children {S = List (a.Ip × ℕ × Nhi)} n here λ stride c s.
        if ltb left_bits 6
        then none
        else mb_node_iter fuel c (a.or_bits ip stride (left_bits - 6)) (left_bits - 6)
            (cur_cidr + 6) s

  -- `bitmap_print_all_prefix`, up to the printing.
  unfoldable pub all_prefixes : Node → Option (List (a.Ip × ℕ × Nhi))
  all_prefixes n = mb_node_iter (suc a.levels) n a.zero_ip a.width 0 []
