-- ===== src/Routes/Client.antt =====
-- What a client can observe over any sequence of insertions and deletions.
use prefix_lookup_mc.Base.{
  ℕ, suc, ◌+◌, ◌-◌, ◌*◌, ◌<◌, ◌≡◌, refl, sym, ap, ◌∙◌, Option, none, some, arith, List, [], ◌∷◌,
  Bool, ◌>>=◌,
}
use prefix_lookup_mc.Address.{Address}
use prefix_lookup_mc.Address.Word.{IsWord, Masked, word_laws, word_covering}
use prefix_lookup_mc.Mm.{Mm}
use prefix_lookup_mc.Node.Nodes.{Node, Nhi, zero_node}
use prefix_lookup_mc.Node.Account.{IsBalanced, refl-IsBalanced, trans-IsBalanced}
use prefix_lookup_mc.Trie.{insert_prefix, delete_prefix}
use prefix_lookup_mc.Trie.Shape.{IsTrie, zero_node-IsTrie}
use prefix_lookup_mc.Trie.Prefix.{find_prefix, insert_prefix_lem}
use prefix_lookup_mc.Trie.Place.{leading}
use prefix_lookup_mc.Trie.Pruned.{IsPruned}
use prefix_lookup_mc.Trie.Remove.{delete_prefix_lem}
use prefix_lookup_mc.Lookup.{do_search, deref}
use prefix_lookup_mc.Lookup.Longest.{do_search_lem}
use prefix_lookup_mc.Lookup.Prefixes.{rule_for-find_prefix}
use prefix_lookup_mc.Routes.{Routes, no_routes, update, longest_prefix, Holds, best-longest_prefix}
use prefix_lookup_mc.Routes.Places.{OnlyPrefixes, change-OnlyPrefixes}
use prefix_lookup_mc.Routes.Narrow.{Narrow, Narrow-update, longest_prefix-Narrow}
use prefix_lookup_mc.Routes.Change.{zero_node-Holds, change-Holds}

pub data Call (a : Address) : Type 0 where
  insert : a.Ip → ℕ → Nhi → Call a
  delete : a.Ip → ℕ → Bool → Call a

module _ (a : Address) where
  unfoldable pub run : List (Call a) → Mm → Node → Option (Mm × Node)
  run [] m n = some (m, n)
  run (insert ip cidr nhi ∷ calls) m n =
      insert_prefix a m n ip cidr nhi >>= λ r. run calls (r.2) (r.1)
  run (delete ip cidr destroy ∷ calls) m n =
      delete_prefix a m n ip cidr destroy >>= λ r. run calls r.mm r.root

module _ (a : Address) (word : IsWord a) where
  -- The same calls, on a table.
  unfoldable pub replay : List (Call a) → Routes → Routes
  replay [] f = f
  replay (insert ip cidr nhi ∷ calls) f =
      replay calls (update f (leading a word ip cidr) cidr (some nhi))
  replay (delete ip cidr destroy ∷ calls) f =
      replay calls (update f (leading a word ip cidr) cidr none)

  -- What the callers must see to: prefixes are masked, and only a prefix that is there is deleted.
  unfoldable pub IsAllowed : List (Call a) → Routes → Type 0
  IsAllowed [] f = Unit
  IsAllowed (insert ip cidr nhi ∷ calls) f =
      Masked a word ip cidr × IsAllowed calls (update f (leading a word ip cidr) cidr (some nhi))
  IsAllowed (delete ip cidr destroy ∷ calls) f =
      Masked a word ip cidr
      × ((v : Nhi) × (f (leading a word ip cidr) cidr ≡ some v))
      × IsAllowed calls (update f (leading a word ip cidr) cidr none)

  module _ (d : ℕ) (room : a.width < (d + 1) * 6) where
    pub record Ran (calls : List (Call a)) (m : Mm) (n : Node) (f : Routes) : Type 0 where
      pub stats : Mm
      pub after : Node
      pub returns : run a calls m n ≡ some (stats, after)
      pub shape : IsTrie d after
      pub balanced : IsBalanced m n stats after
      pub pruned : IsPruned d n → IsPruned d after
      pub prefixes : OnlyPrefixes a word n → OnlyPrefixes a word after
      pub holds : Holds a word d after (replay calls f)

    -- What the trie holds for a masked prefix is the table's route.
    pub find-Holds :
        (n : Node) (f : Routes) (p : a.Ip) (c : ℕ)
        → Masked a word p c
        → Holds a word d n f
        → find_prefix a n p c ≡ f (leading a word p c) c
    unfolding word_laws word_covering
    find-Holds n f p c masked holds =
        sym (
          rule_for-find_prefix a (word_laws a word) (word_covering a word) d n p c p masked
            (record {
              p_fits = masked.fits;
              ip_fits = masked.fits;
              short = masked.short;
              same = refl;
            })
            (omega (arith, masked.short)))
        ∙ holds p c masked.fits (omega (arith, masked.short))

    -- From a trie that holds a table, any sequence of insertions of masked prefixes and deletions of masked
    -- prefixes that are there returns without a fault, and ends in a trie that keeps its shape and holds
    -- the table after the same calls. The counters go along with the blocks, no child becomes empty, and
    -- no place but those of masked prefixes comes to hold something.
    pub run-Holds :
        (calls : List (Call a)) (m : Mm) (n : Node) (f : Routes)
        → IsTrie d n
        → Holds a word d n f
        → IsAllowed calls f
        → Ran calls m n f
    unfolding run replay IsAllowed word_laws
    run-Holds [] m n f h holds allowed = record {
      stats = m;
      after = n;
      returns = refl;
      shape = h;
      balanced = refl-IsBalanced m n n refl;
      pruned = λ all. all;
      prefixes = λ all. all;
      holds = holds;
    }
    run-Holds (insert p c v ∷ calls) m n f h holds allowed =
        let masked = allowed.0 in
        let shallow : c < (d + 1) * 6 = omega (arith, masked.short) in
        let ins = insert_prefix_lem a (word_laws a word) d m n p c h masked shallow v in
        let rest =
          run-Holds calls ins.stats ins.after (update f (leading a word p c) c (some v)) ins.shape
            (change-Holds a word d n ins.after p c (some v) f masked shallow holds ins.found
              ins.others)
            allowed.1 in
        record {
          stats = rest.stats;
          after = rest.after;
          returns = rw (ins.returns) (rest.returns);
          shape = rest.shape;
          balanced =
              trans-IsBalanced m ins.stats rest.stats n ins.after rest.after ins.balanced
                rest.balanced;
          pruned = λ all. rest.pruned (ins.pruned all);
          prefixes = λ all.
              rest.prefixes (change-OnlyPrefixes a word n ins.after p c masked ins.others all);
          holds = rest.holds;
        }
    run-Holds (delete p c destroy ∷ calls) m n f h holds allowed =
        let masked = allowed.0 in
        let shallow : c < (d + 1) * 6 = omega (arith, masked.short) in
        let (v, there) = allowed.1 in
        let del =
          delete_prefix_lem a (word_laws a word) d m n p c h masked shallow v destroy
            (find-Holds n f p c masked holds ∙ there) in
        let rest =
          run-Holds calls del.stats del.after (update f (leading a word p c) c none) del.shape
            (change-Holds a word d n del.after p c none f masked shallow holds del.gone del.others)
            allowed.2 in
        record {
          stats = rest.stats;
          after = rest.after;
          returns = rw (del.returns) (rest.returns);
          shape = rest.shape;
          balanced =
              trans-IsBalanced m del.stats rest.stats n del.after rest.after del.balanced
                rest.balanced;
          pruned = λ all. rest.pruned (del.pruned all);
          prefixes = λ all.
              rest.prefixes (change-OnlyPrefixes a word n del.after p c masked del.others all);
          holds = rest.holds;
        }

Narrow-replay :
    (a : Address) (word : IsWord a) (calls : List (Call a)) (f : Routes)
    → IsAllowed a word calls f
    → Narrow a f
    → Narrow a (replay a word calls f)
unfolding replay IsAllowed
Narrow-replay a word [] f allowed h = h
Narrow-replay a word (insert p c v ∷ calls) f allowed h =
    Narrow-replay a word calls (update f (leading a word p c) c (some v)) allowed.1
      (Narrow-update a f (leading a word p c) c (some v) h allowed.0.short)
Narrow-replay a word (delete p c destroy ∷ calls) f allowed h =
    Narrow-replay a word calls (update f (leading a word p c) c none) allowed.2
      (Narrow-update a f (leading a word p c) c none h allowed.0.short)

module _ (a : Address) (word : IsWord a) (room : a.width < (a.levels + 1) * 6) where
  -- After any sequence of insertions of masked prefixes and deletions of masked prefixes that are there,
  -- on an empty trie, the search for an address in range returns without a fault, with the information
  -- of the longest prefix of the address in the table after the same calls, and NULL if it has none.
  pub do_search-run :
      (calls : List (Call a)) (m : Mm) (ip : a.Ip)
      → IsAllowed a word calls no_routes
      → word.IsIp ip
      → (run a calls m zero_node >>= λ r. do_search a (r.1) ip)
        ≡ some (
            deref (
              longest_prefix (replay a word calls no_routes) a.width (word.value ip) (suc a.width)))
  unfolding word_laws Narrow
  do_search-run calls m ip allowed i =
      let d = a.levels in
      let ran =
        run-Holds a word d room calls m zero_node no_routes (zero_node-IsTrie d)
          (zero_node-Holds a word d) allowed in
      let f = replay a word calls no_routes in
      let total : (d + 1) * 6 ≡ ((d + 1) * 6 - suc a.width) + suc a.width = omega arith in
      rw (ran.returns) (
        do_search_lem a (word_laws a word) d ran.after ip ran.shape i (omega arith)
        ∙ ap (λ o. some (deref o))
            (best-longest_prefix a word d ran.after f ip ((d + 1) * 6) ran.holds i (omega arith)
              ∙ ap (longest_prefix f a.width (word.value ip)) total
              ∙ longest_prefix-Narrow a f (word.value ip) ((d + 1) * 6 - suc a.width)
                  (Narrow-replay a word calls no_routes allowed (λ bits k h. refl))))
