-- ===== src/Tests/Stats.antt =====
-- The registry with one allocator, and the statistics of a run.
use prefix_lookup_mc.Base.{
  ℕ, ◌≡◌, ◌≢◌, ◌*◌, ◌%◌, ◌^◌, arith, refl, none, some, List, [], ◌∷◌, ◌⊎◌, true,
}
use prefix_lookup_mc.Mm.{
  Mm, MemOp, find_allocator, add_allocator, mm_init, no_stat, alloc_node, dealloc_node, node_size,
}
use prefix_lookup_mc.Mm.Registry.{add_allocator_lem, dealloc_node-alloc_node}
use prefix_lookup_mc.Node.Account.{used}
use prefix_lookup_mc.Node.Nodes.{Node, zero_node}
use prefix_lookup_mc.Routes.Account.{run_counts}
use prefix_lookup_mc.Routes.Client.{run}
use prefix_lookup_mc.Tests.{simple}
use prefix_lookup_mc.Tests.Tables.{calls, calls-IsAllowed}
use prefix_lookup_mc.V6.{v6}
use prefix_lookup_mc.V6.Laws.{v6_word}

abbrev color_op : MemOp
color_op = record { type = 1; priv_size = 640; has_init = true; has_uinit = true }

add_allocator_lem_example :
    ((find_allocator (simple.op ∷ []) 1 ≢ none) × (add_allocator (simple.op ∷ []) color_op ≡ none))
    ⊎ ((ops' : List MemOp) × (find_allocator (simple.op ∷ []) 1 ≡ none)
        × (add_allocator (simple.op ∷ []) color_op ≡ some ops')
        × ((result : ℕ)
            → mm_init ops' 1 result ≡ some (record { ms = no_stat; op = color_op }, result))
        × ((type : ℕ) → type ≢ 1 → find_allocator ops' type ≡ find_allocator (simple.op ∷ []) type))
add_allocator_lem_example = add_allocator_lem (simple.op ∷ []) color_op

dealloc_node-alloc_node_example :
    ((dealloc_node (alloc_node simple 5 2) 5 2).ms.node ≡ simple.ms.node)
    × ((dealloc_node (alloc_node simple 5 2) 5 2).ms.mem ≡ simple.ms.mem)
    × ((dealloc_node (alloc_node simple 5 2) 5 2).ms.lnode 3 ≡ simple.ms.lnode 3)
    × ((dealloc_node (alloc_node simple 5 2) 5 2).ms.lmem 3 ≡ simple.ms.lmem 3)
    × (◌≢◌ {A = ℕ} 3 2
        → ((alloc_node simple 5 2).ms.lnode 3 ≡ simple.ms.lnode 3)
          × ((alloc_node simple 5 2).ms.lmem 3 ≡ simple.ms.lmem 3)
          × ((dealloc_node simple 5 2).ms.lnode 3 ≡ simple.ms.lnode 3)
          × ((dealloc_node simple 5 2).ms.lmem 3 ≡ simple.ms.lmem 3))
dealloc_node-alloc_node_example =
    dealloc_node-alloc_node simple 5 2 3 (omega arith) (omega arith) (omega arith) (omega arith)

run_counts_example :
    (stats : Mm) × (after : Node) × (run v6 calls simple zero_node ≡ some (stats, after))
    × (stats.ms.node ≡ used after % 2 ^ 32)
    × (stats.ms.mem ≡ used after * node_size % 2 ^ 32)
run_counts_example = run_counts v6 v6_word 22 (omega arith) calls simple refl refl calls-IsAllowed
