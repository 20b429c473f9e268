-- ===== src/Lib.antt =====
-- Longest prefix match over IPv4 and IPv6 routes with multi-bit tries (lib/) behind a table of
-- 2 ^ 13 entries (tbm/).
--
-- Each node of a trie decides 6 bits of an address. Its internal bitmap has a bit for each prefix
-- that ends in the node, its external bitmap one for each child; one block of memory, reached by
-- child_ptr, holds the next hops below the pointer and the child nodes above it, in the order of
-- their bits from the highest. An update builds a new block, copies the old one around the changed
-- entry and releases it. The trie functions walk from the root by the address's leading bits, and the
-- table goes from the first 13 bits to the root of a trie or to a next hop.
--
-- Which file models what:
-- - Base: Boolean tests, lists over native numbers, insertion and removal at an index, memcpy between
--   arrays, and chains of Option steps. `none` is an access outside a block (undefined in C), a failed
--   assertion, or fuel that ran out.
-- - Bits: the bitmap functions of lib/mb_node.h. Bits.Digits has bits and their counts on numbers,
--   Bits.Words shows that the C expressions compute them, Bits.Packed reads a bitmap and its packed
--   array as a partial map.
-- - Mm: the statistics and the registry of lib/mm.c and lib/mm.h.
-- - Node: `struct mb_node`, its block, and new_node to reduce_rule of lib/mb_node.c. A block has one
--   owner and a node lives in its parent's block, so both are values, and an update returns the new node.
-- - TreeFunction: tree_function, with and without FAST_TREE_FUNCTION, and find_overlap_in_node.
-- - Address: what the walks use of an address. V4 and V6 are the instances: uint32_t of lib/bitmap_v4.c,
--   and struct ip_v6 with lshift_ipv6 and rshift_ipv6 of lib/bitmap_v6.c. Address.Word has the laws of both,
--   as a word of 32 or 128 bits.
-- - Trie: bitmap_insert_prefix, bitmap_delete_prefix, bitmap_traverse_branch, bitmap_prefix_exist,
--   update_nodes and prefix_exist_func. Both address files have the same walks, so they are written once,
--   over an Address; V6.Trie names the functions of lib/bitmap_v6.c.
-- - Lookup: bitmap_do_search, bitmap_do_search_lazy, the batch (Lookup.Lanes to Lookup.Batch), and
--   bitmap_detect_overlap_generic.
--   Lookup.Best describes the longest match on its own: `rule_for` is the rule for the first k bits of an
--   address, and `longest_match` takes the greatest k that has one.
-- - Visit: destroy_subtrie, bitmap_mb_node_iter and bitmap_redund_rule. Visit.Loops has the rule for their
--   loops over rules and children, Visit.Destroyed and Visit.Subtrie are about destroy_subtrie.
-- - Tbm: tbm/tbmv4.c, with the deletion in Tbm.Delete, the search, the batch and the destruction in
--   Tbm.Search, and in Tbm.V6 what tbm/tbmv6.c does in its own way. Tbm.Entry says what an entry stands for
--   (the nearest route of its index, and in its trie the longer routes under it) and Tbm.Table what the
--   table does. Tbm.Cover and Tbm.Below are the two ways of an insertion, Tbm.Uncover and Tbm.Dropped of a
--   deletion, Tbm.Overlap is what a deletion asks up_aux, and Tbm.Client has the sequences of calls. Tbm.Laws has
--   what this needs of an address, which V4.Tabled and V6.Tabled show.
-- - Color: the allocator of lib/mm_color.c. Its memory is a function from addresses to bytes, a free list a
--   list of pointers. Color.Shape has the invariant and the colour of an address, Color.Areas to
--   Color.Start what each function does.
-- - Routes: the specification, a table of routes that the calls of a client change at one prefix, and that
--   the search reads by its longest match. Routes.Client has the sequences of calls, Routes.Account
--   and Routes.Empty what they do to the statistics, and Routes.Match says what a search returns by the
--   prefixes that the trie holds.
-- - Tests: the theorems applied to concrete nodes, tries and tables.
--
-- The abstract view of a trie is Trie.Path.find: a partial map from a path of strides and a position in
-- the last node to a next hop. IsTrie d is the invariant: each node's block has an entry for each set bit,
-- no rule stands at position 63, and there are at most d levels below the root. Trie.Pruned.IsPruned says that
-- no child is an empty node, and Node.Account.used is the room that a trie's blocks take. Trie.Prefix.path and
-- Trie.Prefix.last give the path of a prefix.
--
-- Bounds and fuel: a walk along a prefix of `cidr` bits takes `cidr + 1` rounds of fuel, as every round
-- but the last takes 6 bits; a search takes one more than LEVEL, the number of strides of an address;
-- the visits of a whole trie the same. A batch has at most BATCH = 32 queries: one more is `none`, as an
-- access outside its arrays, so its shift stays below the 64 bits of endcnt. The loops of the table's updates run over the
-- 2 ^ (13 - cidr) entries that a prefix covers. The bitmaps are 64-bit words and the statistics uint32_t, with
-- their wrap-around written out; the levels index functions in place of arrays of 32. A shift by the
-- width or more, undefined in C, takes its count modulo the width.
--
-- Not modelled: lib/list.h (a copy of the kernel's lists), the printing, the test
-- programs, the configurations COMPRESS_NHI and 32-bit long, a calloc or malloc that fails, and the system
-- calls of lib/mm_color.c, whose results mc_init takes as arguments.
pub mod Base
pub mod Bits
pub mod Mm
pub mod Color
pub mod Node
pub mod Address
pub mod Trie
pub mod TreeFunction
pub mod Lookup
pub mod Routes
pub mod Visit
pub mod V4
pub mod V6
pub mod Tbm
pub mod Tests
