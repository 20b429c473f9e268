-- ===== src/Tests/Destructions.antt =====
-- The destruction of a table with a prefix, and of the trie of all prefixes behind it.
use prefix_lookup_mc.Base.{[], ◌≡◌, true, arith, some, Gives, List}
use prefix_lookup_mc.Mm.{Mm}
use prefix_lookup_mc.Node.Nodes.{Node, Nhi, zero_node}
use prefix_lookup_mc.Routes.{no_routes, update}
use prefix_lookup_mc.Trie.Place.{leading}
use prefix_lookup_mc.Visit.{destroy_subtrie}
use prefix_lookup_mc.Visit.Destroyed.{Destroys}
use prefix_lookup_mc.Visit.Subtrie.{destroy_subtrie_lem}
use prefix_lookup_mc.Tbm.Destroyed.{Destroyed, tbm_destroy_trie_lem}
use prefix_lookup_mc.Tests.{simple}
use prefix_lookup_mc.Tests.Entries.{ten, with_ten}
use prefix_lookup_mc.V4.{v4}
use prefix_lookup_mc.V4.Laws.{v4_word}
use prefix_lookup_mc.V4.Tabled.{v4_tabled}

destroy_subtrie_lem_example :
    Gives
      (λ (r : (Mm × List Nhi) × Node).
        Destroys (with_ten.after).up_aux true [] r.0.1 × (r.1 ≡ zero_node))
      (destroy_subtrie 7 simple (with_ten.after).up_aux true 0 [])
destroy_subtrie_lem_example =
    destroy_subtrie_lem 6 7 (with_ten.after).up_aux simple true 0 [] (with_ten.stands).up_shape
      (omega arith)

tbm_destroy_trie_lem_example :
    Destroyed v4 v4_word v4_tabled
      (with_ten.after)
      (update no_routes (leading v4 v4_word ten 8) 8 (some 7))
      (with_ten.stands)
tbm_destroy_trie_lem_example =
    tbm_destroy_trie_lem v4 v4_word v4_tabled (with_ten.after)
      (update no_routes (leading v4 v4_word ten 8) 8 (some 7)) (with_ten.stands)
