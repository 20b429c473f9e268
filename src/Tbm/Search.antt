-- ===== src/Tbm/Search.antt =====
-- The search, the batch of searches, the destruction, the count of redundant rules and
-- `tbm_prefix_exist` of tbm/tbmv4.c.
use prefix_lookup_mc.Base.{
  ℕ, suc, Bool, false, not, Option, none, some, List, [], ◌∷◌, length, ltb, if◌then◌else◌, ◌>>=◌,
}
use prefix_lookup_mc.Address.{Address}
use prefix_lookup_mc.Mm.{Mm}
use prefix_lookup_mc.Node.Nodes.{Node, Nhi}
use prefix_lookup_mc.Trie.{prefix_exist}
use prefix_lookup_mc.Lookup.{batch, do_search_lazy, search_batch}
use prefix_lookup_mc.Visit.{destroy_subtrie, redund_rule, count_from, for_each}
use prefix_lookup_mc.Tbm.{initial_bits, table_size, InitNode, ptr, has_child, TbmTrie, index_of}

module _ (a : Address) where
  unfoldable pub tbm_search : TbmTrie → a.Ip → Option Nhi
  tbm_search t ip =
      let n = t.init (index_of a ip) in
      if has_child n then do_search_lazy a n.e (a.shift_by ip initial_bits) else some (ptr n)

  -- The queries of `tbm_search_batch` that go on in a trie, and the replies put back in order.
  unfoldable pub batch_queries : TbmTrie → List a.Ip → List (Node × a.Ip)
  batch_queries t [] = []
  batch_queries t (ip ∷ ips) =
      let n = t.init (index_of a ip) in
      if has_child n
      then (n.e, a.shift_by ip initial_bits) ∷ batch_queries t ips
      else batch_queries t ips

  unfoldable pub batch_replies : TbmTrie → List a.Ip → List Nhi → Option (List Nhi)
  batch_replies t [] found = some []
  batch_replies t (ip ∷ ips) found =
      let n = t.init (index_of a ip) in
      if has_child n
      then elim found [ [] ↦ none | v ∷ vs ↦ batch_replies t ips vs >>= λ rest. some (v ∷ rest) ]
      else (batch_replies t ips found >>= λ rest. some (ptr n ∷ rest))

  -- An address past the arrays of BATCH places is a fault.
  unfoldable pub tbm_search_batch : TbmTrie → List a.Ip → Option (List Nhi)
  tbm_search_batch t ips =
      let replies = search_batch a (batch_queries t ips) >>= λ found. batch_replies t ips found in
      if ltb batch (length ips) then none else replies

  -- `up_aux` with its rules handed to `destroy_nhi`, then the tries of the entries that `skip` does not
  -- pass over, with no `destroy_nhi`. The statistics of both mms, and the infos that any of them handed
  -- over.
  unfoldable pub destroy_trie : (InitNode → Bool) → TbmTrie → Bool → Option (Mm × Mm × List Nhi)
  destroy_trie skip t destroy = do
    up ← destroy_subtrie (suc a.levels) t.up_m t.up_aux destroy 0 []
    entries ←
        for_each {S = Mm × List Nhi} (count_from 0 table_size) (t.m, up.0.1)
          λ i s.
            if skip (t.init i)
            then some s
            else (destroy_subtrie (suc a.levels) s.0 (t.init i).e false 0 s.1 >>= λ r. some r.0)
    some (entries.0, up.0.0, entries.1)

  unfoldable pub tbm_destroy_trie : TbmTrie → Bool → Option (Mm × Mm × List Nhi)
  tbm_destroy_trie t destroy = destroy_trie (λ n. not (has_child n)) t destroy

  -- The count of redundant rules over the tries of the entries, which the function prints.
  unfoldable pub tbm_redund_rule_count : TbmTrie → Option ℕ
  tbm_redund_rule_count t = for_each (count_from 0 table_size) 0 λ i count.
      if has_child (t.init i) then redund_rule (suc a.levels) (t.init i).e count else some count

  unfoldable pub tbm_prefix_exist : TbmTrie → a.Ip → ℕ → Option ℕ
  tbm_prefix_exist t ip cidr = prefix_exist a t.up_aux ip cidr
