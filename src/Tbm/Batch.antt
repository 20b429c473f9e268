-- ===== src/Tbm/Batch.antt =====
-- `tbm_search_batch` of tbm/tbmv4.c against the searches one after the other.
use prefix_lookup_mc.Base.{
  suc, ◌≡◌, ◌≤◌, refl, ◌∙◌, Option, some, List, [], ◌∷◌, length, ltb, map, All, true, false,
  Bool-cases, ◌>>=◌, inl, inr, arith, Gives, gives, Gives-bind, Gives-map, Gives-value,
}
use prefix_lookup_mc.Address.{Address}
use prefix_lookup_mc.Address.Word.{IsWord, word_laws}
use prefix_lookup_mc.Node.Nodes.{Nhi}
use prefix_lookup_mc.Lookup.{deref}
use prefix_lookup_mc.Lookup.Longest.{do_search_lem, do_search_lazy_lem}
use prefix_lookup_mc.Lookup.Batch.{search_each, IsQuery, search_batch-search_each}
use prefix_lookup_mc.Routes.{Routes, longest_prefix}
use prefix_lookup_mc.Tbm.{TbmTrie, index_of, has_child}
use prefix_lookup_mc.Tbm.Search.{tbm_search, batch_queries, batch_replies, tbm_search_batch}
use prefix_lookup_mc.Tbm.Laws.{IsTabled, index-lt, rest_of_ip}
use prefix_lookup_mc.Tbm.Near.{hi_of}
use prefix_lookup_mc.Tbm.Entry.{near, IsEntry, has_child_of_ptr, has_child_of_child}
use prefix_lookup_mc.Tbm.Table.{IsTbm}
use prefix_lookup_mc.Tbm.Found.{tbm_search_lem}

-- The searches one after the other.
unfoldable pub tbm_search_each : (a : Address) → TbmTrie → List a.Ip → Option (List Nhi)
tbm_search_each a t [] = some []
tbm_search_each a t (ip ∷ ips) = do
  found ← tbm_search a t ip
  rest ← tbm_search_each a t ips
  some (found ∷ rest)

module _ (a : Address) (word : IsWord a) (tabled : IsTabled a word) (t : TbmTrie) (f : Routes)
    (h : IsTbm a word t f) where
  index-IsEntry :
      (ip : a.Ip) → word.IsIp ip → IsEntry a word f (index_of a ip) (t.init (index_of a ip))
  index-IsEntry ip i = h.entries (index_of a ip) (index-lt a word tabled ip i)

  queries-IsQuery :
      (ips : List a.Ip)
      → All word.IsIp ips
      → All (IsQuery a (word_laws a word) a.levels) (batch_queries a t ips)
  unfolding batch_queries word_laws
  queries-IsQuery [] all = tt
  queries-IsQuery (ip ∷ ips) all =
      let n = t.init (index_of a ip) in
      elim (index-IsEntry ip all.0) [
        | inl p ↦
            let no_child : has_child n ≡ false =
              has_child_of_ptr n (hi_of (near f (index_of a ip))) p.flags in
            rw no_child (queries-IsQuery ips all.1)
        | inr e ↦
            let child : has_child n ≡ true =
              has_child_of_child n (hi_of (near f (index_of a ip))) e.flags in
            rw child ((e.shape, tabled.rest-IsIp ip all.0), queries-IsQuery ips all.1)
      ]

  -- The replies to the searches of the tries, put back, are those of the searches of the table.
  replies_lem :
      (ips : List a.Ip)
      → All word.IsIp ips
      → Gives
          (λ found. batch_replies a t ips found ≡ tbm_search_each a t ips)
          (search_each a (batch_queries a t ips))
  unfolding batch_queries batch_replies tbm_search_each tbm_search search_each word_laws
  replies_lem [] all = gives refl
  replies_lem (ip ∷ ips) all =
      let n = t.init (index_of a ip) in
      elim (index-IsEntry ip all.0) [
        | inl p ↦
            let no_child : has_child n ≡ false =
              has_child_of_ptr n (hi_of (near f (index_of a ip))) p.flags in
            rw no_child (Gives-map (replies_lem ips all.1) λ found e. rw e refl)
        | inr e ↦
            let child : has_child n ≡ true =
              has_child_of_child n (hi_of (near f (index_of a ip))) e.flags in
            let fits = tabled.rest-IsIp ip all.0 in
            let rest = rest_of_ip a word tabled ip in
            rw
              (
                child,
                do_search_lazy_lem a (word_laws a word) a.levels n.e rest e.shape fits
                    (omega arith),
                do_search_lem a (word_laws a word) a.levels n.e rest e.shape fits (omega arith),
              )
              (Gives-bind (replies_lem ips all.1) λ found e'. gives (rw e' refl))
      ]

  length-batch_queries : (ips : List a.Ip) → length (batch_queries a t ips) ≤ length ips
  unfolding batch_queries
  length-batch_queries [] = omega arith
  length-batch_queries (ip ∷ ips) = elim (Bool-cases (has_child (t.init (index_of a ip)))) [
    | inl child ↦ rw child (omega (arith, length-batch_queries ips))
    | inr no_child ↦ rw no_child (omega (arith, length-batch_queries ips))
  ]

  batch-each :
      (ips : List a.Ip)
      → All word.IsIp ips
      → length ips ≤ 32
      → tbm_search_batch a t ips ≡ tbm_search_each a t ips
  unfolding tbm_search_batch word_laws
  batch-each ips all few =
      let (found, e, returns) = Gives-value (replies_lem ips all) in
      let no_fault : ltb 32 (length ips) ≡ false = ground (arith, few) in
      let batched =
        search_batch-search_each a (word_laws a word) a.levels (batch_queries a t ips)
          (queries-IsQuery ips all) (omega arith) (omega (arith, length-batch_queries ips, few)) in
      rw (no_fault, batched.1, returns) e

  -- The longest route of an address.
  abbrev pub looked_up : a.Ip → Nhi
  looked_up ip = deref (longest_prefix f a.width (word.value ip) (suc a.width))

  each_lem :
      (ips : List a.Ip) → All word.IsIp ips → tbm_search_each a t ips ≡ some (map looked_up ips)
  unfolding tbm_search_each
  each_lem [] all = refl
  each_lem (ip ∷ ips) all =
      rw (tbm_search_lem a word tabled t f ip h all.0, each_lem ips all.1) refl

  -- On a table that stands for a table of routes, and for at most BATCH = 32 addresses in range,
  -- tbm_search_batch does what the calls of tbm_search do one after the other, and returns without a fault,
  -- where an address past its arrays is one, with the information of the longest route of each address, in
  -- the order of the addresses.
  pub tbm_search_batch-tbm_search_each :
      (ips : List a.Ip)
      → All word.IsIp ips
      → length ips ≤ 32
      → (tbm_search_batch a t ips ≡ tbm_search_each a t ips)
        × (tbm_search_batch a t ips ≡ some (map looked_up ips))
  tbm_search_batch-tbm_search_each ips all few =
      (batch-each ips all few, batch-each ips all few ∙ each_lem ips all)
