-- ===== src/Tbm/V6.antt =====
-- tbm/tbmv6.c: the updates are those of tbm/tbmv4.c, less the return value; the search and the choice
-- of the entries to destroy are its own.
use prefix_lookup_mc.Base.{ℕ, ◌-◌, Bool, Option, some, List, ◌==◌, if◌then◌else◌, ◌>>=◌}
use prefix_lookup_mc.V6.{v6, IpV6, rshift_ipv6, lshift_ipv6, length_v6}
use prefix_lookup_mc.Mm.{Mm}
use prefix_lookup_mc.Node.Nodes.{Nhi}
use prefix_lookup_mc.Trie.{TraverseFunc}
use prefix_lookup_mc.Lookup.{do_search_lazy}
use prefix_lookup_mc.Tbm.{TbmTrie, ptr, has_child, initial_bits, init_trie, tbm_insert_prefix}
use prefix_lookup_mc.Tbm.Delete.{OverlapData, overlap_nhi, tbm_delete_prefix}
use prefix_lookup_mc.Tbm.Search.{destroy_trie, tbm_prefix_exist}

abbrev pub tbmv6_init_trie : Mm → Mm → TbmTrie
tbmv6_init_trie m up_m = init_trie m up_m

-- A default rule is refused, with no return value.
unfoldable pub tbmv6_insert_prefix : TbmTrie → IpV6 → ℕ → Nhi → Option TbmTrie
tbmv6_insert_prefix t ip cidr nhi = tbm_insert_prefix v6 t ip cidr nhi >>= λ r. some (r.1)

abbrev pub overlap_nhi_v6 : TraverseFunc OverlapData
overlap_nhi_v6 = overlap_nhi

abbrev pub tbmv6_prefix_exist : TbmTrie → IpV6 → ℕ → Option ℕ
tbmv6_prefix_exist t ip cidr = tbm_prefix_exist v6 t ip cidr

unfoldable pub tbmv6_delete_prefix : TbmTrie → IpV6 → ℕ → Bool → Option (TbmTrie × List Nhi)
tbmv6_delete_prefix t ip cidr destroy =
    tbm_delete_prefix v6 t ip cidr destroy >>= λ r. some (r.1, r.2)

-- `ip` itself is shifted to the index, and that is shifted on to the search.
unfoldable pub tbmv6_search : TbmTrie → IpV6 → Option Nhi
tbmv6_search t ip =
    let shifted = rshift_ipv6 ip (length_v6 - initial_bits) in
    let n = t.init (shifted.iplo) in
    if has_child n then do_search_lazy v6 n.e (lshift_ipv6 shifted initial_bits) else some (ptr n)

-- An entry is passed over if its flags are 0.
unfoldable pub tbmv6_destroy_trie : TbmTrie → Bool → Option (Mm × Mm × List Nhi)
tbmv6_destroy_trie t destroy = destroy_trie v6 (λ n. n.flags == 0) t destroy
