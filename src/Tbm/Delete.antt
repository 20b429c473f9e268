-- ===== src/Tbm/Delete.antt =====
-- `tbm_delete_prefix` of tbm/tbmv4.c and `tbmv6_delete_prefix` of tbm/tbmv6.c.
use prefix_lookup_mc.Base.{
  ℕ, zero, suc, ◌+◌, ◌-◌, ◌%◌, ◌^◌, Bool, true, false, Option, none, some, List, [], ◌∷◌, ◌++◌, ltb,
  leb, ◌==◌, if◌then◌else◌, ◌>>=◌, u8_mod,
}
use prefix_lookup_mc.Address.{Address}
use prefix_lookup_mc.Mm.{Mm}
use prefix_lookup_mc.Node.{load_nhi, store_nhi}
use prefix_lookup_mc.Node.Nodes.{Nhi}
use prefix_lookup_mc.Trie.{delete_prefix, traverse_branch, TraverseFunc, leaf_node, mid_node}
use prefix_lookup_mc.Lookup.{detect_overlap_generic, deref, null_nhi}
use prefix_lookup_mc.Tbm.{
  initial_bits, table_size, InitNode, ptr, with_ptr, has_child, prefix_hi, child_flags, ptr_flags,
  TbmTrie, set_entry, index_of,
}

-- What `overlap_nhi` is handed, and the infos that `func` is called with.
pub record OverlapData : Type 0 where
  pub func : Bool
  pub nhi_near : Nhi
  pub destroyed : List Nhi

unfoldable pub overlap_nhi : TraverseFunc OverlapData
overlap_nhi n stride pos leaf_node ond = do
  v ← load_nhi n pos
  n' ← store_nhi n pos ond.nhi_near
  some (1, n', if ond.func then record ond { destroyed = ond.destroyed ++ (v ∷ []) } else ond)
overlap_nhi n stride pos mid_node ond = some (1, n, ond)

-- The state of the loop of `tbm_delete_prefix`: `destroy_nhi` is cleared after the first entry.
pub record DeleteState : Type 0 where
  pub trie : TbmTrie
  pub destroy : Bool
  pub destroyed : List Nhi

module _ (a : Address) where
  -- One round of the loop of `tbm_delete_prefix`, with the prefix that takes the deleted one's place.
  unfoldable pub uncover_child : Mm → InitNode → ℕ → Nhi → Bool → Option (InitNode × Mm × List Nhi)
  uncover_child m n prefix_near nhi_near destroy =
      if prefix_near == 0
      then (delete_prefix a m n.e a.zero_ip 0 destroy >>= λ d. some (
        (if d.root_empty
            then record { flags = 0; e = with_ptr d.root null_nhi }
            else record { flags = 1; e = d.root }),
        d.mm,
        d.destroyed,
      ))
      else (traverse_branch a n.e a.zero_ip 0 overlap_nhi
            (record { func = destroy; nhi_near = nhi_near; destroyed = [] })
          >>= λ r. some (record { flags = child_flags prefix_near; e = r.1 }, m, r.2.destroyed))

  unfoldable pub uncover_ptr : InitNode → ℕ → Nhi → InitNode
  uncover_ptr n prefix_near nhi_near =
      if prefix_near == 0
      then record { flags = 0; e = with_ptr n.e null_nhi }
      else record { flags = ptr_flags prefix_near; e = with_ptr n.e nhi_near }

  unfoldable pub uncover_entry : DeleteState → ℕ → ℕ → ℕ → Nhi → Option DeleteState
  uncover_entry s index cidr prefix_near nhi_near =
      let n = s.trie.init index in
      if ltb cidr (prefix_hi n % u8_mod)
      then some s
      else ((if has_child n
            then uncover_child s.trie.m n prefix_near nhi_near s.destroy
            else some (
              uncover_ptr n prefix_near nhi_near,
              s.trie.m,
              (if s.destroy then ptr n ∷ [] else []),
            ))
          >>= λ r. some (record {
            trie = record (s.trie) { init = set_entry s.trie.init index r.0; m = r.1 };
            destroy = false;
            destroyed = s.destroyed ++ r.2;
          }))

  unfoldable pub uncover_loop : ℕ → DeleteState → ℕ → ℕ → ℕ → Nhi → Option DeleteState
  uncover_loop zero s index cidr prefix_near nhi_near = some s
  uncover_loop (suc rounds) s index cidr prefix_near nhi_near =
      if ltb index table_size
      then (uncover_entry s index cidr prefix_near nhi_near >>= λ s'.
          uncover_loop rounds s' (index + 1) cidr prefix_near nhi_near)
      else none

  -- A long prefix: where its entry's trie is left empty, the entry takes what `up_aux` has above it.
  unfoldable pub delete_below : TbmTrie → a.Ip → ℕ → Bool → Option (TbmTrie × List Nhi)
  delete_below t ip cidr destroy = do
    let n = t.init (index_of a ip)
    d ← delete_prefix a t.m n.e (a.shift_by ip initial_bits) (cidr - initial_bits) destroy
    n' ←
        if d.root_empty
        then (detect_overlap_generic a t.up_aux ip cidr initial_bits >>= λ near.
            some (uncover_ptr (record { flags = n.flags; e = d.root }) near.0 (deref near.1)))
        else some (record { flags = n.flags; e = d.root })
    some (record t { init = set_entry t.init (index_of a ip) n'; m = d.mm }, d.destroyed)

  -- The trie and the infos handed to `destroy_nhi`; `false` is the -1 of a default rule.
  unfoldable pub tbm_delete_prefix : TbmTrie → a.Ip → ℕ → Bool → Option (Bool × TbmTrie × List Nhi)
  tbm_delete_prefix t ip cidr destroy = if cidr == 0 then some (false, t, []) else do
    r ←
        if leb cidr initial_bits
        then (detect_overlap_generic a t.up_aux ip cidr initial_bits >>= λ near.
            uncover_loop (2 ^ (initial_bits - cidr))
              (record { trie = t; destroy = destroy; destroyed = [] }) (index_of a ip) cidr near.0
              (deref near.1)
            >>= λ s. some (s.trie, s.destroyed))
        else if has_child (t.init (index_of a ip))
        then delete_below t ip cidr destroy
        else some (t, [])
    up ← delete_prefix a r.0.up_m r.0.up_aux ip cidr false
    some (true, record (r.0) { up_aux = up.root; up_m = up.mm }, r.1)
