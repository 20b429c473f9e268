-- ===== src/Lookup/Insert.antt =====
-- A search after an insertion.
use native.Mathlib.Decide.{ℕ_discrete}
use prefix_lookup_mc.Base.{
  ℕ, zero, suc, ◌+◌, ◌*◌, ◌≤◌, ◌<◌, ◌≡◌, sym, ap, ◌∙◌, arith, Option, none, some,
}
use prefix_lookup_mc.Address.{Address, IsAddress, Covering}
use prefix_lookup_mc.Mm.{Mm}
use prefix_lookup_mc.Node.Nodes.{Node, Nhi}
use prefix_lookup_mc.Trie.{insert_prefix}
use prefix_lookup_mc.Trie.Shape.{IsTrie}
use prefix_lookup_mc.Trie.Prefix.{path, last, insert_prefix_lem}
use prefix_lookup_mc.Trie.Insert.{Inserted}
use prefix_lookup_mc.Lookup.{do_search, deref}
use prefix_lookup_mc.Lookup.Best.{rule_for, best}
use prefix_lookup_mc.Lookup.Longest.{do_search_lem}
use prefix_lookup_mc.Lookup.Prefixes.{rule_for-find_prefix}

best_top :
    (a : Address) (d : ℕ) (n : Node) (ip : a.Ip) (v : Nhi) (j m : ℕ)
    → j < m
    → rule_for a d n ip j ≡ some v
    → ((k : ℕ) → j < k → k < m → rule_for a d n ip k ≡ none)
    → best a d n ip m ≡ some v
unfolding best
best_top a d n ip v j zero h here above = absurd (omega arith)
best_top a d n ip v j (suc m) h here above = elim (ℕ_discrete j m) [
  | yes e ↦ let here' : rule_for a d n ip m ≡ some v = rw (← e) here in rw here'
  | no ne ↦
      let longer : rule_for a d n ip m ≡ none = above m (omega arith) (omega arith) in
      rw longer (best_top a d n ip v j m (omega arith) here (λ k l l'. above k l (omega arith)))
]

-- The trie of a return, if it is one.
root_of : Node → Option (ℕ × Node × Mm) → Node
root_of n none = n
root_of n (some r) = r.1

module _ (a : Address) (laws : IsAddress a) (covering : Covering a) (d : ℕ) where
  search_inserted :
      (m : Mm) (n : Node) (p : a.Ip) (cidr : ℕ) (v : Nhi) (result : Option (ℕ × Node × Mm))
      (ins : Inserted d m n (path a p cidr) (last a p cidr) v result) (ip : a.Ip)
      → laws.IsMasked p cidr
      → covering.Covers p cidr ip
      → laws.IsIp ip
      → cidr < (d + 1) * 6
      → d ≤ a.levels
      → ((k : ℕ) → cidr < k → k < (d + 1) * 6 → rule_for a d ins.after ip k ≡ none)
      → do_search a ins.after ip ≡ some v
  search_inserted m n p cidr v result ins ip masked covers i shallow k longest =
      let here =
        rule_for-find_prefix a laws covering d ins.after p cidr ip masked covers shallow
        ∙ ins.found in
      do_search_lem a laws d ins.after ip ins.shape i k
      ∙ ap (λ o. some (deref o))
          (best_top a d ins.after ip v cidr ((d + 1) * 6) shallow here longest)

  -- When a masked prefix has been inserted into a trie of at most LEVEL levels below its root, the
  -- search of the new trie for an address under the prefix, for which it holds no longer prefix, returns
  -- the information that was inserted.
  pub do_search-insert_prefix :
      (m m' : Mm) (n n' : Node) (p : a.Ip) (cidr code : ℕ) (v : Nhi) (ip : a.Ip)
      → IsTrie d n
      → laws.IsMasked p cidr
      → insert_prefix a m n p cidr v ≡ some (code, n', m')
      → covering.Covers p cidr ip
      → laws.IsIp ip
      → cidr < (d + 1) * 6
      → d ≤ a.levels
      → ((k : ℕ) → cidr < k → k < (d + 1) * 6 → rule_for a d n' ip k ≡ none)
      → do_search a n' ip ≡ some v
  unfolding root_of
  do_search-insert_prefix m m' n n' p cidr code v ip h masked returns covers i shallow k longest =
      let ins = insert_prefix_lem a laws d m n p cidr h masked shallow v in
      let same : ins.after ≡ n' = ap (root_of n) (sym (ins.returns) ∙ returns) in
      rw (← same) (
        search_inserted m n p cidr v (insert_prefix a m n p cidr v) ins ip masked covers i shallow k
          (λ j l l'. rw same (longest j l l')))
