-- ===== src/Tests/Matches.antt =====
-- The searches of a trie for prefixes of every length, which holds 10.0.0.0/8.
use prefix_lookup_mc.Base.{◌≡◌, arith, some, ◌⊎◌}
use prefix_lookup_mc.Node.Nodes.{Nhi, zero_node}
use prefix_lookup_mc.Address.Word.{word_laws}
use prefix_lookup_mc.Trie.{insert_prefix}
use prefix_lookup_mc.Trie.Shape.{zero_node-IsTrie}
use prefix_lookup_mc.Trie.Insert.{Inserted}
use prefix_lookup_mc.Trie.Prefix.{insert_prefix_lem, path, last}
use prefix_lookup_mc.Lookup.{null_nhi, do_search, do_search_lazy}
use prefix_lookup_mc.Routes.Places.{OnlyPrefixes, zero_node-OnlyPrefixes, change-OnlyPrefixes}
use prefix_lookup_mc.Routes.Match.{LongestHeld, NoneHeld, do_search-find_prefix}
use prefix_lookup_mc.V4.{v4}
use prefix_lookup_mc.V4.Laws.{v4_word, v4_laws}
use prefix_lookup_mc.Tests.{simple}
use prefix_lookup_mc.Tests.Tries.{ten, ten-IsMasked, host}

held :
    Inserted 5 simple zero_node
      (path v4 ten 8)
      (last v4 ten 8)
      7
      (insert_prefix v4 simple zero_node ten 8 7)
unfolding v4_laws word_laws v4_word
held =
    insert_prefix_lem v4 v4_laws 5 simple zero_node ten 8 (zero_node-IsTrie 5) ten-IsMasked
      (omega arith) 7

held-OnlyPrefixes : OnlyPrefixes v4 v4_word (held.after)
held-OnlyPrefixes =
    change-OnlyPrefixes v4 v4_word zero_node (held.after) ten 8 ten-IsMasked (held.others)
      (zero_node-OnlyPrefixes v4 v4_word)

do_search-find_prefix_example :
    (v : Nhi) × (do_search v4 (held.after) host ≡ some v)
    × (do_search_lazy v4 (held.after) host ≡ some v)
    × (LongestHeld v4 v4_word (held.after) host v
        ⊎ ((v ≡ null_nhi) × NoneHeld v4 v4_word (held.after) host))
unfolding v4_word
do_search-find_prefix_example =
    do_search-find_prefix v4 v4_word 5 (omega arith) (held.after) host (held.shape)
      held-OnlyPrefixes (omega arith) (omega arith)
