-- ===== src/Tests/Emptied.antt =====
-- Two prefixes that are inserted and deleted again.
use prefix_lookup_mc.Base.{ℕ, ◌≡◌, refl, some, none, List, [], ◌∷◌, arith, true, false}
use prefix_lookup_mc.Mm.{Mm}
use prefix_lookup_mc.Node.Nodes.{Node, zero_node, internal, external}
use prefix_lookup_mc.Routes.{no_routes, update}
use prefix_lookup_mc.Routes.Client.{Call, insert, delete, run, replay, IsAllowed}
use prefix_lookup_mc.Routes.Empty.{run_empties}
use prefix_lookup_mc.Tests.{simple}
use prefix_lookup_mc.Tests.Tables.{prefix, prefix-Masked, default-Masked}
use prefix_lookup_mc.V6.{IpV6, v6}
use prefix_lookup_mc.V6.Laws.{v6_word}

abbrev all : IpV6
all = record { iplo = 0; iphi = 0 }

abbrev undone : List (Call v6)
undone = insert prefix 32 7 ∷ (insert all 0 9 ∷ (delete all 0 true ∷ (delete prefix 32 false ∷ [])))

undone-IsAllowed : IsAllowed v6 v6_word undone no_routes
unfolding IsAllowed update v6_word
undone-IsAllowed =
    (prefix-Masked, (default-Masked, (default-Masked, (9, refl), (prefix-Masked, (7, refl), tt))))

undone_lem : (bits k : ℕ) → replay v6 v6_word undone no_routes bits k ≡ none
unfolding replay update v6_word
undone_lem bits k = ground arith

run_empties_example :
    (stats : Mm) × (after : Node) × (run v6 undone simple zero_node ≡ some (stats, after))
    × (internal after ≡ 0)
    × (external after ≡ 0)
    × (stats.ms.node ≡ 0)
    × (stats.ms.mem ≡ 0)
run_empties_example =
    run_empties v6 v6_word 22 (omega arith) undone simple refl refl undone-IsAllowed undone_lem
