-- ===== src/Tbm/Client.antt =====
-- What a client of the table can observe over any sequence of insertions and deletions.
use prefix_lookup_mc.Base.{
  ℕ, suc, ◌<◌, ◌≡◌, refl, Option, none, some, arith, List, [], ◌∷◌, ◌>>=◌, ◌==◌, if◌then◌else◌, inl,
  inr, Bool-cases,
}
use prefix_lookup_mc.Address.{Address}
use prefix_lookup_mc.Address.Word.{IsWord, Masked}
use prefix_lookup_mc.Mm.{Mm}
use prefix_lookup_mc.Node.Nodes.{Nhi}
use prefix_lookup_mc.Trie.Place.{leading}
use prefix_lookup_mc.Lookup.{deref}
use prefix_lookup_mc.Routes.{Routes, no_routes, update, longest_prefix}
use prefix_lookup_mc.Routes.Client.{Call, insert, delete}
use prefix_lookup_mc.Tbm.{TbmTrie, init_trie, tbm_insert_prefix}
use prefix_lookup_mc.Tbm.Delete.{tbm_delete_prefix}
use prefix_lookup_mc.Tbm.Search.{tbm_search}
use prefix_lookup_mc.Tbm.Laws.{IsTabled}
use prefix_lookup_mc.Tbm.Table.{IsTbm, init_trie-IsTbm}
use prefix_lookup_mc.Tbm.Insert.{tbm_insert_prefix_lem, tbm_insert_prefix-default}
use prefix_lookup_mc.Tbm.Remove.{tbm_delete_prefix_lem, tbm_delete_prefix-default}
use prefix_lookup_mc.Tbm.Found.{tbm_search_lem}

module _ (a : Address) where
  unfoldable pub tbm_run : List (Call a) → TbmTrie → Option TbmTrie
  tbm_run [] t = some t
  tbm_run (insert ip cidr nhi ∷ calls) t =
      tbm_insert_prefix a t ip cidr nhi >>= λ r. tbm_run calls r.1
  tbm_run (delete ip cidr destroy ∷ calls) t =
      tbm_delete_prefix a t ip cidr destroy >>= λ r. tbm_run calls r.1

module _ (a : Address) (word : IsWord a) where
  -- A default route is refused.
  abbrev update_but_default : Routes → a.Ip → ℕ → Option Nhi → Routes
  update_but_default f ip cidr o = if cidr == 0 then f else update f (leading a word ip cidr) cidr o

  -- The same calls, on a table of routes.
  unfoldable pub tbm_replay : List (Call a) → Routes → Routes
  tbm_replay [] f = f
  tbm_replay (insert ip cidr nhi ∷ calls) f =
      tbm_replay calls (update_but_default f ip cidr (some nhi))
  tbm_replay (delete ip cidr destroy ∷ calls) f =
      tbm_replay calls (update_but_default f ip cidr none)

  -- What the callers must see to: prefixes are masked, and only a prefix that is there is deleted.
  unfoldable pub IsTbmAllowed : List (Call a) → Routes → Type 0
  IsTbmAllowed [] f = Unit
  IsTbmAllowed (insert ip cidr nhi ∷ calls) f =
      (0 < cidr → Masked a word ip cidr)
      × IsTbmAllowed calls (update_but_default f ip cidr (some nhi))
  IsTbmAllowed (delete ip cidr destroy ∷ calls) f =
      (0 < cidr → Masked a word ip cidr × ((v : Nhi) × (f (leading a word ip cidr) cidr ≡ some v)))
      × IsTbmAllowed calls (update_but_default f ip cidr none)

  module _ (tabled : IsTabled a word) where
    pub record TbmRan (calls : List (Call a)) (t : TbmTrie) (f : Routes) : Type 0 where
      pub after : TbmTrie
      pub returns : tbm_run a calls t ≡ some after
      pub stands : IsTbm a word after (tbm_replay calls f)

    pub tbm_run-IsTbm :
        (calls : List (Call a)) (t : TbmTrie) (f : Routes)
        → IsTbm a word t f
        → IsTbmAllowed calls f
        → TbmRan calls t f
    unfolding tbm_run tbm_replay IsTbmAllowed
    tbm_run-IsTbm [] t f h allowed = record { after = t; returns = refl; stands = h }
    tbm_run-IsTbm (insert ip c v ∷ calls) t f h allowed = elim (Bool-cases (c == 0)) [
      | inl default ↦
          let no_bits : c ≡ 0 = ground (arith, default) in
          let rest = tbm_run-IsTbm calls t f h (rw default at allowed.1) in
          record {
            after = rest.after;
            returns =
                rw (no_bits, tbm_insert_prefix-default a word tabled t f ip v h) (rest.returns);
            stands = rw default (rest.stands);
          }
      | inr some_bits ↦
          let ins =
            tbm_insert_prefix_lem a word tabled t f ip v h c (allowed.0 (ground (arith, some_bits)))
              (ground (arith, some_bits)) in
          let rest =
            tbm_run-IsTbm calls ins.after (update f (leading a word ip c) c (some v)) ins.stands
              (rw some_bits at allowed.1) in
          record {
            after = rest.after;
            returns = rw (ins.returns) (rest.returns);
            stands = rw some_bits (rest.stands);
          }
    ]
    tbm_run-IsTbm (delete ip c destroy ∷ calls) t f h allowed = elim (Bool-cases (c == 0)) [
      | inl default ↦
          let no_bits : c ≡ 0 = ground (arith, default) in
          let rest = tbm_run-IsTbm calls t f h (rw default at allowed.1) in
          record {
            after = rest.after;
            returns =
                rw (no_bits, tbm_delete_prefix-default a word tabled t f ip destroy h)
                  (rest.returns);
            stands = rw default (rest.stands);
          }
      | inr some_bits ↦
          let (masked, (v, there)) = allowed.0 (ground (arith, some_bits)) in
          let del =
            tbm_delete_prefix_lem a word tabled t f ip destroy h c v masked
              (ground (arith, some_bits)) there in
          let rest =
            tbm_run-IsTbm calls del.after (update f (leading a word ip c) c none) del.stands
              (rw some_bits at allowed.1) in
          record {
            after = rest.after;
            returns = rw (del.returns) (rest.returns);
            stands = rw some_bits (rest.stands);
          }
    ]

    -- After any sequence of calls of tbm_insert_prefix for masked prefixes and of tbm_delete_prefix for masked
    -- prefixes that are there, calls for a prefix of no bits among them, on a table as tbm_init_trie leaves
    -- it, tbm_search for an address in range returns without a fault, with the information of the longest
    -- route of the address after the same calls on a table of routes, in which a call for a prefix of no bits
    -- changes nothing; and NULL if it has none.
    pub tbm_search-run :
        (calls : List (Call a)) (m up_m : Mm) (ip : a.Ip)
        → IsTbmAllowed calls no_routes
        → word.IsIp ip
        → (tbm_run a calls (init_trie m up_m) >>= λ t. tbm_search a t ip)
          ≡ some (
              deref
                (longest_prefix (tbm_replay calls no_routes) a.width (word.value ip) (suc a.width)))
    tbm_search-run calls m up_m ip allowed fits =
        let ran =
          tbm_run-IsTbm calls (init_trie m up_m) no_routes (init_trie-IsTbm a word m up_m)
            allowed in
        rw (ran.returns)
          (tbm_search_lem a word tabled ran.after (tbm_replay calls no_routes) ip ran.stands fits)
