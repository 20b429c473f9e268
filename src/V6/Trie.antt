-- ===== src/V6/Trie.antt =====
-- lib/bitmap_v6.c: its functions walk as those of lib/bitmap_v4.c do, over the addresses of `v6`.
use prefix_lookup_mc.Base.{ℕ, Bool, Option, List}
use prefix_lookup_mc.V6.{IpV6, v6}
use prefix_lookup_mc.Mm.{Mm}
use prefix_lookup_mc.Node.Nodes.{Node, Nhi}
use prefix_lookup_mc.Trie.{
  insert_prefix, delete_prefix, Deleted, traverse_branch, TraverseFunc, prefix_exist,
}
use prefix_lookup_mc.Lookup.{do_search, do_search_lazy, detect_overlap_generic, detect_overlap}
use prefix_lookup_mc.Visit.{all_prefixes, mb_node_iter}

abbrev pub bitmapv6_insert_prefix : Mm → Node → IpV6 → ℕ → Nhi → Option (ℕ × Node × Mm)
bitmapv6_insert_prefix m n ip cidr nhi = insert_prefix v6 m n ip cidr nhi

abbrev pub bitmapv6_traverse_branch :
    {S : Type 0} → Node → IpV6 → ℕ → TraverseFunc S → S → Option (ℕ × Node × S)
bitmapv6_traverse_branch n ip cidr func s = traverse_branch v6 n ip cidr func s

abbrev pub bitmapv6_delete_prefix : Mm → Node → IpV6 → ℕ → Bool → Option Deleted
bitmapv6_delete_prefix m n ip cidr destroy = delete_prefix v6 m n ip cidr destroy

abbrev pub bitmapv6_prefix_exist : Node → IpV6 → ℕ → Option ℕ
bitmapv6_prefix_exist n ip cidr = prefix_exist v6 n ip cidr

abbrev pub bitmapv6_do_search : Node → IpV6 → Option Nhi
bitmapv6_do_search n ip = do_search v6 n ip

abbrev pub bitmapv6_detect_overlap_generic : Node → IpV6 → ℕ → ℕ → Option (ℕ × Option Nhi)
bitmapv6_detect_overlap_generic n ip cidr bits_limit =
    detect_overlap_generic v6 n ip cidr bits_limit

abbrev pub bitmapv6_do_search_lazy : Node → IpV6 → Option Nhi
bitmapv6_do_search_lazy n ip = do_search_lazy v6 n ip

-- `print_mb_node_iter`: the calls of `print_ptr`.
abbrev pub print_mb_node_iter :
    ℕ → Node → IpV6 → ℕ → ℕ → List (IpV6 × ℕ × Nhi) → Option (List (IpV6 × ℕ × Nhi))
print_mb_node_iter fuel n ip left_bits cur_cidr calls =
    mb_node_iter v6 fuel n ip left_bits cur_cidr calls

abbrev pub bitmapv6_print_all_prefix : Node → Option (List (IpV6 × ℕ × Nhi))
bitmapv6_print_all_prefix n = all_prefixes v6 n

abbrev pub bitmapv6_detect_overlap : Node → IpV6 → ℕ → Option (ℕ × Option Nhi)
bitmapv6_detect_overlap n ip cidr = detect_overlap v6 n ip cidr
