-- ===== src/Tests/Entries.antt =====
-- Sequences of calls on the table, with both widths of address.
use prefix_lookup_mc.Base.{ℕ, ◌≡◌, refl, some, List, [], ◌∷◌, arith, true, ◌>>=◌, ◌*◌, ◌+◌, ◌^◌}
use prefix_lookup_mc.Address.Word.{Masked}
use prefix_lookup_mc.Lookup.{deref}
use prefix_lookup_mc.Routes.{no_routes, longest_prefix, update}
use prefix_lookup_mc.Routes.Client.{Call, insert, delete}
use prefix_lookup_mc.Trie.Place.{leading}
use prefix_lookup_mc.Tests.{simple}
use prefix_lookup_mc.Tests.Tables.{prefix-Masked, prefix}
use prefix_lookup_mc.V4.{v4}
use prefix_lookup_mc.V4.Laws.{v4_word}
use prefix_lookup_mc.V4.Tabled.{v4_tabled}
use prefix_lookup_mc.V6.{v6}
use prefix_lookup_mc.V6.Laws.{v6_word}
use prefix_lookup_mc.V6.Tabled.{v6_tabled}
use prefix_lookup_mc.Tbm.{init_trie}
use prefix_lookup_mc.Tbm.Search.{tbm_search}
use prefix_lookup_mc.Tbm.Table.{init_trie-IsTbm}
use prefix_lookup_mc.Tbm.Insert.{InsertsRoute, tbm_insert_prefix_lem}
use prefix_lookup_mc.Tbm.Remove.{RemovesRoute, tbm_delete_prefix_lem}
use prefix_lookup_mc.Tbm.Client.{tbm_run, tbm_replay, IsTbmAllowed, tbm_search-run}

-- 10.0.0.0/8, 10.0.0.0/16 and 10.1.0.0/13 stand, 10.0.0.0/16 goes again, a default route is refused.
abbrev pub ten : ℕ
ten = 10 * 2 ^ 24

pub ten-Masked : (c : ℕ) → c ≡ 8 → Masked v4 v4_word ten c
unfolding v4_word
ten-Masked c e = record { fits = omega arith; short = omega (arith, e); masked = rw e refl }

ten_long-Masked : Masked v4 v4_word ten 16
unfolding v4_word
ten_long-Masked = record { fits = omega arith; short = omega arith; masked = refl }

abbrev short_calls : List (Call v4)
short_calls = insert ten 8 7 ∷ (insert ten 16 8 ∷ (insert 5 0 9 ∷ (delete ten 16 true ∷ [])))

short_calls-IsAllowed : IsTbmAllowed v4 v4_word short_calls no_routes
unfolding IsTbmAllowed update v4_word
short_calls-IsAllowed = (
  λ l. ten-Masked 8 refl,
  (λ l. ten_long-Masked, (λ l. absurd (omega (arith, l)), (λ l. (ten_long-Masked, (8, refl)), tt))),
)

tbm_search-run_example :
    (tbm_run v4 short_calls (init_trie simple simple) >>= λ t. tbm_search v4 t (ten + 5))
    ≡ some (deref (longest_prefix (tbm_replay v4 v4_word short_calls no_routes) 32 (ten + 5) 33))
unfolding v4_word
tbm_search-run_example =
    tbm_search-run v4 v4_word v4_tabled short_calls simple simple (ten + 5) short_calls-IsAllowed
      (omega arith)

-- The same prefix of an IPv6 table is inserted and deleted, in the trie of an entry and at an index.
tbm_insert_prefix_lem_example :
    InsertsRoute v6 v6_word v6_tabled
      (init_trie simple simple)
      no_routes
      prefix
      7
      (init_trie-IsTbm v6 v6_word simple simple)
      32
tbm_insert_prefix_lem_example =
    tbm_insert_prefix_lem v6 v6_word v6_tabled (init_trie simple simple) no_routes prefix 7
      (init_trie-IsTbm v6 v6_word simple simple) 32 prefix-Masked (omega arith)

abbrev pub with_ten :
    InsertsRoute v4 v4_word v4_tabled
      (init_trie simple simple)
      no_routes
      ten
      7
      (init_trie-IsTbm v4 v4_word simple simple)
      8
with_ten =
    tbm_insert_prefix_lem v4 v4_word v4_tabled (init_trie simple simple) no_routes ten 7
      (init_trie-IsTbm v4 v4_word simple simple) 8 (ten-Masked 8 refl) (omega arith)

tbm_delete_prefix_lem_example :
    RemovesRoute v4 v4_word v4_tabled
      (with_ten.after)
      (update no_routes (leading v4 v4_word ten 8) 8 (some 7))
      ten
      true
      (with_ten.stands)
      8
      7
unfolding v4_word update
tbm_delete_prefix_lem_example =
    tbm_delete_prefix_lem v4 v4_word v4_tabled (with_ten.after)
      (update no_routes (leading v4 v4_word ten 8) 8 (some 7)) ten true (with_ten.stands) 8 7
      (ten-Masked 8 refl) (omega arith) refl
