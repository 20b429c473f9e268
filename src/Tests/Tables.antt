-- ===== src/Tests/Tables.antt =====
-- Sequences of calls on IPv6 tries, and the table after them.
use prefix_lookup_mc.Base.{◌≡◌, refl, some, List, [], ◌∷◌, arith, true, ◌>>=◌}
use prefix_lookup_mc.Address.Word.{Masked}
use prefix_lookup_mc.Lookup.{do_search, deref}
use prefix_lookup_mc.Node.Nodes.{zero_node}
use prefix_lookup_mc.Routes.{no_routes, longest_prefix, update}
use prefix_lookup_mc.Routes.Client.{
  Call, insert, delete, run, replay, IsAllowed, Ran, run-Holds, do_search-run,
}
use prefix_lookup_mc.Routes.Change.{zero_node-Holds}
use prefix_lookup_mc.Trie.Shape.{zero_node-IsTrie}
use prefix_lookup_mc.Tests.{simple}
use prefix_lookup_mc.V6.{IpV6, v6}
use prefix_lookup_mc.V6.Laws.{v6_word}

-- 2001:db8::, and an address in it
abbrev pub prefix : IpV6
prefix = record { iplo = 0; iphi = 0x20010db800000000 }

abbrev host : IpV6
host = record { iplo = 5; iphi = 0x20010db800010000 }

-- 2001:db8::/32 and ::/0 are inserted, and ::/0 deleted.
abbrev pub calls : List (Call v6)
calls =
    insert prefix 32 7
    ∷ (insert (record { iplo = 0; iphi = 0 }) 0 9
        ∷ (delete (record { iplo = 0; iphi = 0 }) 0 true ∷ []))

pub prefix-Masked : Masked v6 v6_word prefix 32
unfolding v6_word
prefix-Masked = record {
  fits = record { low = omega arith; high = omega arith };
  short = omega arith;
  masked = refl;
}

pub default-Masked : Masked v6 v6_word (record { iplo = 0; iphi = 0 }) 0
unfolding v6_word
default-Masked = record {
  fits = record { low = omega arith; high = omega arith };
  short = omega arith;
  masked = refl;
}

pub calls-IsAllowed : IsAllowed v6 v6_word calls no_routes
unfolding IsAllowed update v6_word
calls-IsAllowed = (prefix-Masked, (default-Masked, (default-Masked, (9, refl), tt)))

do_search-run_example :
    (run v6 calls simple zero_node >>= λ r. do_search v6 (r.1) host)
    ≡ some (deref (longest_prefix (replay v6 v6_word calls no_routes) 128 (v6_word.value host) 129))
unfolding v6_word
do_search-run_example =
    do_search-run v6 v6_word (omega arith) calls simple host calls-IsAllowed
      (record { low = omega arith; high = omega arith })

run-Holds_example : Ran v6 v6_word 22 (omega arith) calls simple zero_node no_routes
run-Holds_example =
    run-Holds v6 v6_word 22 (omega arith) calls simple zero_node no_routes (zero_node-IsTrie 22)
      (zero_node-Holds v6 v6_word 22) calls-IsAllowed
