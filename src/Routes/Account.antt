-- ===== src/Routes/Account.antt =====
-- The statistics of lib/mm.c over any sequence of insertions and deletions.
use prefix_lookup_mc.Base.{ℕ, ◌+◌, ◌*◌, ◌%◌, ◌^◌, ◌<◌, ◌≡◌, refl, arith, some, List}
use prefix_lookup_mc.Address.{Address}
use prefix_lookup_mc.Address.Word.{IsWord}
use prefix_lookup_mc.Mm.{Mm, node_size}
use prefix_lookup_mc.Node.Account.{used}
use prefix_lookup_mc.Node.Nodes.{Node, zero_node}
use prefix_lookup_mc.Routes.{no_routes}
use prefix_lookup_mc.Routes.Change.{zero_node-Holds}
use prefix_lookup_mc.Routes.Client.{Call, run, IsAllowed, run-Holds}
use prefix_lookup_mc.Trie.Shape.{zero_node-IsTrie}

pub used_of_zero : used zero_node ≡ 0
unfolding used
used_of_zero = refl

-- After any sequence of insertions of masked prefixes and deletions of masked prefixes that are there,
-- on an empty trie with the counters at 0, the node counter is the room that the blocks of the trie take
-- in nodes, and the memory counter that room in bytes, both modulo 2 ^ 32.
pub run_counts :
    (a : Address) (word : IsWord a) (d : ℕ)
    → a.width < (d + 1) * 6
    → (calls : List (Call a)) (m : Mm) → m.ms.node ≡ 0
    → m.ms.mem ≡ 0
    → IsAllowed a word calls no_routes
    → (stats : Mm) × (after : Node) × (run a calls m zero_node ≡ some (stats, after))
      × (stats.ms.node ≡ used after % 2 ^ 32)
      × (stats.ms.mem ≡ used after * node_size % 2 ^ 32)
run_counts a word d room calls m none_used no_bytes allowed =
    let ran =
      run-Holds a word d room calls m zero_node no_routes (zero_node-IsTrie d)
        (zero_node-Holds a word d) allowed in
    let b = ran.balanced in
    (
      ran.stats,
      ran.after,
      ran.returns,
      omega (arith, b.nodes, b.nodes_fit (omega arith), used_of_zero),
      omega (arith, b.bytes, b.bytes_fit (omega arith), used_of_zero),
    )
