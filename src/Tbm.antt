-- ===== src/Tbm.antt =====
-- tbm/tbmv4.c and tbm/tbmv6.c: a table of 2 ^ 13 entries in front of the tries, and the trie `up_aux` of
-- all prefixes, which the updates consult. Over the addresses of an `Address`, where both files agree;
-- `Tbm.V6` has what tbmv6.c does otherwise.
pub mod Laws
pub mod Near
pub mod Entry
pub mod Changes
pub mod Sweep
pub mod Zero
pub mod Cover
pub mod Below
pub mod Nearest
pub mod Overlap
pub mod Emptied
pub mod Replace
pub mod Uncover
pub mod Uncovered
pub mod Dropped
pub mod Range
pub mod Table
pub mod Insert
pub mod Remove
pub mod Delete
pub mod Search
pub mod Found
pub mod Client
pub mod Batch
pub mod Destroyed
pub mod V6
pub mod Index
use prefix_lookup_mc.Base.{
  ℕ, zero, suc, ◌+◌, ◌-◌, ◌*◌, ◌/◌, ◌%◌, ◌^◌, bit_and, bit_or, Bool, true, false, not, Option, none,
  some, List, [], ◌∷◌, ◌++◌, ltb, leb, ◌==◌, if◌then◌else◌, ◌>>=◌, u8_mod,
}
use prefix_lookup_mc.Address.{Address}
use prefix_lookup_mc.Mm.{Mm}
use prefix_lookup_mc.Node.{load_nhi, store_nhi}
use prefix_lookup_mc.Node.Nodes.{Node, node, Nhi, external, internal, child_ptr, zero_node}
use prefix_lookup_mc.Trie.{
  insert_prefix, delete_prefix, traverse_branch, prefix_exist, TraverseFunc, leaf_node, mid_node,
}
use prefix_lookup_mc.Lookup.{do_search_lazy, search_batch, detect_overlap_generic, deref, null_nhi}
use prefix_lookup_mc.Visit.{destroy_subtrie, count_from, for_each}

abbrev pub initial_bits : ℕ
initial_bits = 13

abbrev pub table_size : ℕ
table_size = 8192

-- `struct init_node`. The union's `ptr` is the first word of its `node`, the external bitmap.
pub record InitNode : Type 0 where
  pub flags : ℕ
  pub e : Node

abbrev pub ptr : InitNode → Nhi
ptr n = external n.e

abbrev pub with_ptr : Node → Nhi → Node
with_ptr e v = node v (internal e) (child_ptr e)

-- `flags & INIT_HAS_A_CHILD`, and `flags >> PREFIX_HI`.
abbrev pub has_child : InitNode → Bool
has_child n = not (bit_and n.flags 1 == 0)

abbrev pub prefix_hi : InitNode → ℕ
prefix_hi n = n.flags / 2 ^ 16

-- The flags of a prefix of `cidr` bits, with and without a child.
abbrev pub child_flags : ℕ → ℕ
child_flags cidr = cidr * 2 ^ 16 + 1

abbrev pub ptr_flags : ℕ → ℕ
ptr_flags cidr = cidr * 2 ^ 16

-- `struct tbm_trie`; the table is a function of the index.
pub record TbmTrie : Type 0 where
  pub init : ℕ → InitNode
  pub m : Mm
  pub up_aux : Node
  pub up_m : Mm

abbrev pub set_entry : (ℕ → InitNode) → ℕ → InitNode → ℕ → InitNode
set_entry init i n j = if j == i then n else init j

abbrev pub empty_entry : InitNode
empty_entry = record { flags = 0; e = zero_node }

-- `tbm_init_trie`, with the two mms that mm_init gives.
unfoldable pub init_trie : Mm → Mm → TbmTrie
init_trie m up_m = record { init = λ _. empty_entry; m = m; up_aux = zero_node; up_m = up_m }

module _ (a : Address) where
  abbrev pub index_of : a.Ip → ℕ
  index_of ip = a.head ip initial_bits % 2 ^ 32

  -- One round of the loop of `tbm_insert_prefix` over the entries that a short prefix covers.
  unfoldable pub cover_entry : Mm → InitNode → ℕ → Nhi → Option (InitNode × Mm)
  cover_entry m n cidr nhi =
      if ltb cidr (prefix_hi n)
      then some (n, m)
      else if has_child n
      then (insert_prefix a m n.e a.zero_ip 0 nhi >>= λ r.
          some (record { flags = child_flags cidr; e = r.1 }, r.2))
      else some (record { flags = ptr_flags cidr; e = with_ptr n.e nhi }, m)

  -- An index past the table is a fault.
  unfoldable pub cover_loop : ℕ → TbmTrie → ℕ → ℕ → Nhi → Option TbmTrie
  cover_loop zero t index cidr nhi = some t
  cover_loop (suc rounds) t index cidr nhi =
      if ltb index table_size
      then (cover_entry t.m (t.init index) cidr nhi >>= λ r.
          cover_loop rounds (record t { init = set_entry t.init index r.0; m = r.1 }) (index + 1)
            cidr nhi)
      else none

  -- The entry's trie takes over the entry's own prefix, if it has one, before the first long prefix.
  unfoldable pub open_entry : Mm → InitNode → Option (Node × Mm)
  open_entry m n =
      if has_child n
      then some (n.e, m)
      else if ltb 0 (prefix_hi n)
      then (insert_prefix a m (with_ptr n.e null_nhi) a.zero_ip 0 (ptr n) >>= λ r. some (r.1, r.2))
      else some (n.e, m)

  unfoldable pub insert_below : Mm → InitNode → a.Ip → ℕ → Nhi → Option (InitNode × Mm)
  insert_below m n ip cidr nhi = do
    opened ← open_entry m n
    r ← insert_prefix a opened.1 opened.0 (a.shift_by ip initial_bits) (cidr - initial_bits) nhi
    some (record { flags = if has_child n then n.flags else bit_or n.flags 1; e = r.1 }, r.2)

  -- `false` is the -1 of a default rule, which is refused.
  unfoldable pub tbm_insert_prefix : TbmTrie → a.Ip → ℕ → Nhi → Option (Bool × TbmTrie)
  tbm_insert_prefix t ip cidr nhi = if cidr == 0 then some (false, t) else do
    t' ←
        if leb cidr initial_bits
        then cover_loop (2 ^ (initial_bits - cidr)) t (index_of ip) cidr nhi
        else (insert_below t.m (t.init (index_of ip)) ip cidr nhi >>= λ r.
            some (record t { init = set_entry t.init (index_of ip) r.0; m = r.1 }))
    up ← insert_prefix a t'.up_m t'.up_aux ip cidr nhi
    some (true, record t' { up_aux = up.1; up_m = up.2 })
