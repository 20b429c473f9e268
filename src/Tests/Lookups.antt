-- ===== src/Tests/Lookups.antt =====
-- Searches of a table with a prefix, and of the trie of all prefixes behind it.
use prefix_lookup_mc.Base.{ℕ, ◌≡◌, ◌<◌, refl, none, some, List, [], ◌∷◌, map, arith, ◌*◌, ◌+◌, ◌^◌}
use prefix_lookup_mc.Lookup.{deref, detect_overlap_generic}
use prefix_lookup_mc.Address.Word.{Masked}
use prefix_lookup_mc.V6.{IpV6, v6}
use prefix_lookup_mc.V6.Laws.{v6_word}
use prefix_lookup_mc.V6.Tabled.{v6_tabled}
use prefix_lookup_mc.Tbm.Table.{init_trie-IsTbm}
use prefix_lookup_mc.Tbm.Insert.{InsertsRoute, tbm_insert_prefix_lem}
use prefix_lookup_mc.Routes.{Routes, no_routes, update, longest_prefix}
use prefix_lookup_mc.Trie.Place.{leading}
use prefix_lookup_mc.Tests.{simple}
use prefix_lookup_mc.Tests.Entries.{ten, with_ten}
use prefix_lookup_mc.V4.{v4}
use prefix_lookup_mc.V4.Laws.{v4_word}
use prefix_lookup_mc.V4.Tabled.{v4_tabled}
use prefix_lookup_mc.Tbm.{init_trie}
use prefix_lookup_mc.Tbm.Near.{near_below, hi_of, rule_of}
use prefix_lookup_mc.Tbm.Overlap.{detect_overlap_generic_lem}
use prefix_lookup_mc.Tbm.Search.{tbm_search_batch}
use prefix_lookup_mc.Tbm.Batch.{tbm_search_each, looked_up, tbm_search_batch-tbm_search_each}
use prefix_lookup_mc.Tbm.V6.{tbmv6_search}
use prefix_lookup_mc.Tbm.Index.{tbmv6_search_of_index, tbmv6_search_of_short}

abbrev routes : Routes
routes = update no_routes (leading v4 v4_word ten 8) 8 (some 7)

-- An address under the prefix and one that is not.
abbrev hosts : List ℕ
hosts = (ten + 5) ∷ (11 * 2 ^ 24 ∷ [])

tbm_search_batch-tbm_search_each_example :
    (tbm_search_batch v4 (with_ten.after) hosts ≡ tbm_search_each v4 (with_ten.after) hosts)
    × (tbm_search_batch v4 (with_ten.after) hosts
        ≡ some
            (map (looked_up v4 v4_word v4_tabled (with_ten.after) routes (with_ten.stands)) hosts))
unfolding v4_word
tbm_search_batch-tbm_search_each_example =
    tbm_search_batch-tbm_search_each v4 v4_word v4_tabled (with_ten.after) routes (with_ten.stands)
      hosts (omega arith, (omega arith, tt)) (omega arith)

-- 10.0.0.0/8 is above 10.0.0.0/16.
detect_overlap_generic_lem_example :
    detect_overlap_generic v4 (with_ten.after).up_aux ten 16 13
    ≡ some (hi_of (near_below routes ten 32 13), rule_of (near_below routes ten 32 13))
unfolding v4_word
detect_overlap_generic_lem_example =
    detect_overlap_generic_lem v4 v4_word 6 (with_ten.after).up_aux routes ten 16 13
      (with_ten.stands).up_holds (omega arith) (omega arith) (with_ten.stands).up_shape
      (with_ten.stands).no_default (omega arith)

-- 2001:db8::5 and 2001::
tbmv6_search_of_index_example :
    tbmv6_search (init_trie simple simple) (record { iplo = 5; iphi = 0x20010db800000000 })
    ≡ tbmv6_search (init_trie simple simple) (record { iplo = 0; iphi = 0x2001000000000000 })
tbmv6_search_of_index_example =
    tbmv6_search_of_index (init_trie simple simple) (record { iplo = 5; iphi = 0x20010db800000000 })
      (record { iplo = 0; iphi = 0x2001000000000000 }) refl

-- 2000::/3, and an address in it
abbrev global : IpV6
global = record { iplo = 0; iphi = 0x2000000000000000 }

global-Masked : Masked v6 v6_word global 3
unfolding v6_word
global-Masked = record {
  fits = record { low = omega arith; high = omega arith };
  short = omega arith;
  masked = refl;
}

abbrev with_global :
    InsertsRoute v6 v6_word v6_tabled
      (init_trie simple simple)
      no_routes
      global
      7
      (init_trie-IsTbm v6 v6_word simple simple)
      3
with_global =
    tbm_insert_prefix_lem v6 v6_word v6_tabled (init_trie simple simple) no_routes global 7
      (init_trie-IsTbm v6 v6_word simple simple) 3 global-Masked (omega arith)

abbrev global_routes : Routes
global_routes = update no_routes (leading v6 v6_word global 3) 3 (some 7)

global_routes-none : (bits k : ℕ) → 13 < k → global_routes bits k ≡ none
unfolding update
global_routes-none bits k l = ground (arith, l)

tbmv6_search_of_short_example :
    tbmv6_search (with_global.after) (record { iplo = 5; iphi = 0x20010db800000000 })
    ≡ some (deref (longest_prefix global_routes 128 (0x20010db800000000 * 2 ^ 64 + 5) 129))
tbmv6_search_of_short_example =
    tbmv6_search_of_short (with_global.after) global_routes
      (record { iplo = 5; iphi = 0x20010db800000000 }) (with_global.stands)
      (record { low = omega arith; high = omega arith }) global_routes-none
