-- ===== src/Routes/Empty.antt =====
-- When the last route is gone, the trie has no node and no memory left.
use prefix_lookup_mc.Base.{ℕ, ◌+◌, ◌*◌, ◌<◌, ◌≡◌, ◌∙◌, arith, none, some, List, ◌⊎◌, inl, inr}
use prefix_lookup_mc.Address.{Address}
use prefix_lookup_mc.Address.Word.{IsWord, Masked}
use prefix_lookup_mc.Mm.{Mm}
use prefix_lookup_mc.Node.Account.{used, used_of_empty}
use prefix_lookup_mc.Node.Nodes.{Node, zero_node, internal, external}
use prefix_lookup_mc.Routes.{Routes, no_routes, Holds}
use prefix_lookup_mc.Routes.Account.{used_of_zero}
use prefix_lookup_mc.Routes.Change.{zero_node-Holds}
use prefix_lookup_mc.Routes.Client.{Call, run, replay, IsAllowed, run-Holds, find-Holds}
use prefix_lookup_mc.Routes.Places.{OnlyPrefixes, zero_node-OnlyPrefixes}
use prefix_lookup_mc.Trie.Path.{find, AreStrides}
use prefix_lookup_mc.Trie.Prefix.{path, last}
use prefix_lookup_mc.Trie.Pruned.{zero_node-IsPruned, pruned_lem}
use prefix_lookup_mc.Trie.Shape.{IsTrie-node, zero_node-IsTrie}

module _ (a : Address) (word : IsWord a) (d : ℕ) (room : a.width < (d + 1) * 6) where
  nothing_held :
      (n : Node) (f : Routes)
      → Holds a word d n f
      → OnlyPrefixes a word n
      → ((bits k : ℕ) → f bits k ≡ none)
      → (at : List ℕ) (p : ℕ) → AreStrides at
      → p < 63
      → find n at p ≡ none
  unfolding OnlyPrefixes
  nothing_held n f holds prefixes empty at p k l = from (prefixes at p k l)
    where
      from :
          (find n at p ≡ none)
            ⊎ ((q : a.Ip) × (c : ℕ) × Masked a word q c × (path a q c ≡ at) × (last a q c ≡ p))
          → find n at p ≡ none
      from (inl none_there) = none_there
      from (inr (q, c, masked, e, e')) =
          rw (← e, ← e') (find-Holds a word d room n f q c masked holds ∙ empty _ c)

  -- After any sequence of insertions of masked prefixes and deletions of masked prefixes that are there,
  -- on an empty trie with the counters at 0, by which the table has become empty again, the root has
  -- neither rule nor child, and both counters are 0 again.
  pub run_empties :
      (calls : List (Call a)) (m : Mm)
      → m.ms.node ≡ 0
      → m.ms.mem ≡ 0
      → IsAllowed a word calls no_routes
      → ((bits k : ℕ) → replay a word calls no_routes bits k ≡ none)
      → (stats : Mm) × (after : Node) × (run a calls m zero_node ≡ some (stats, after))
        × (internal after ≡ 0)
        × (external after ≡ 0)
        × (stats.ms.node ≡ 0)
        × (stats.ms.mem ≡ 0)
  run_empties calls m none_used no_bytes allowed empty =
      let ran =
        run-Holds a word d room calls m zero_node no_routes (zero_node-IsTrie d)
          (zero_node-Holds a word d) allowed in
      let bare = pruned_lem d ran.after ran.shape (ran.pruned (zero_node-IsPruned d)) (
        nothing_held ran.after (replay a word calls no_routes) ran.holds
          (ran.prefixes (zero_node-OnlyPrefixes a word)) empty) in
      let b = ran.balanced in
      let no_room : used ran.after ≡ 0 =
        used_of_empty ran.after (IsTrie-node d ran.after ran.shape).is_node bare.0 bare.1 in
      (
        ran.stats,
        ran.after,
        ran.returns,
        bare.0,
        bare.1,
        omega (arith, b.nodes, b.nodes_fit (omega arith), used_of_zero, no_room),
        omega (arith, b.bytes, b.bytes_fit (omega arith), used_of_zero, no_room),
      )
