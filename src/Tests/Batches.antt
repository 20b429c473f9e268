-- ===== src/Tests/Batches.antt =====
-- A batch of three lanes on two tries.
use prefix_lookup_mc.Base.{ℕ, ◌≡◌, arith, some, map, List, [], ◌∷◌}
use prefix_lookup_mc.Lookup.{search_batch}
use prefix_lookup_mc.Lookup.Batch.{search_each, match_of, search_batch-search_each}
use prefix_lookup_mc.Node.Nodes.{Node, zero_node}
use prefix_lookup_mc.Tests.Tries.{one_prefix, host}
use prefix_lookup_mc.Trie.Shape.{zero_node-IsTrie}
use prefix_lookup_mc.Address.Word.{word_laws}
use prefix_lookup_mc.V4.{v4}
use prefix_lookup_mc.V4.Laws.{v4_word, v4_laws}

abbrev queries : List (Node × ℕ)
queries = (one_prefix.after, host) ∷ ((zero_node, host) ∷ ((one_prefix.after, 1) ∷ []))

search_batch-search_each_example :
    (search_batch v4 queries ≡ some (map (match_of v4 v4_laws 1) queries))
    × (search_batch v4 queries ≡ search_each v4 queries)
unfolding v4_laws word_laws v4_word
search_batch-search_each_example =
    search_batch-search_each v4 v4_laws 1 queries
      (
        (one_prefix.shape, omega arith),
        ((zero_node-IsTrie 1, omega arith), ((one_prefix.shape, omega arith), tt)),
      )
      (omega arith) (omega arith)
