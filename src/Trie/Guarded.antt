-- ===== src/Trie/Guarded.antt =====
-- `prefix_exist` before and after an update: what it promises to a caller.
use prefix_lookup_mc.Base.{
  ℕ, ◌+◌, ◌*◌, ◌<◌, ◌≡◌, sym, ap, ◌∙◌, arith, Bool, Option, some, Option-cases, inl, inr,
}
use prefix_lookup_mc.Address.{Address, IsAddress}
use prefix_lookup_mc.Mm.{Mm}
use prefix_lookup_mc.Node.Nodes.{Node, Nhi}
use prefix_lookup_mc.Trie.{insert_prefix, delete_prefix, prefix_exist}
use prefix_lookup_mc.Trie.Exist.{prefix_exist_lem}
use prefix_lookup_mc.Trie.Insert.{present}
use prefix_lookup_mc.Trie.Prefix.{path, last, find_prefix, insert_prefix_lem}
use prefix_lookup_mc.Trie.Remove.{Deletes, delete_prefix_lem}
use prefix_lookup_mc.Trie.Shape.{IsTrie}

module _ (a : Address) (laws : IsAddress a) (d : ℕ) (m : Mm) (n : Node) (ip : a.Ip) (cidr : ℕ)
    (h : IsTrie d n) (masked : laws.IsMasked ip cidr) (shallow : cidr < (d + 1) * 6) where
  -- When prefix_exist returns 1 for a masked prefix, deleting the prefix returns without a fault and
  -- hands over a next hop that the trie held for it, and prefix_exist then returns 0.
  pub delete_prefix-prefix_exist :
      (destroy : Bool)
      → prefix_exist a n ip cidr ≡ some 1
      → (v : Nhi) × (find_prefix a n ip cidr ≡ some v)
        × (del : Deletes d m n
            (path a ip cidr)
            (last a ip cidr)
            v
            destroy
            (delete_prefix a m n ip cidr destroy))
        × (prefix_exist a del.after ip cidr ≡ some 0)
  delete_prefix-prefix_exist destroy exists = elim (Option-cases (find_prefix a n ip cidr)) [
    | inl absent ↦
        let both : ◌≡◌ {A = Option ℕ} (some 0) (some 1) =
          ap (λ o. some (present o)) (sym absent)
          ∙ sym (prefix_exist_lem a laws d n ip cidr h masked shallow)
          ∙ exists in
        absurd (ground arith)
    | inr (v, there) ↦
        let del = delete_prefix_lem a laws d m n ip cidr h masked shallow v destroy there in
        (
          v,
          there,
          del,
          prefix_exist_lem a laws d del.after ip cidr del.shape masked shallow
              ∙ ap (λ o. some (present o)) del.gone,
        )
  ]

  -- Inserting a masked prefix into a trie deep enough for it returns the code that prefix_exist gave for
  -- the prefix before, and prefix_exist then returns 1.
  pub insert_prefix-prefix_exist :
      (v : Nhi)
      → (code : ℕ) × (after : Node) × (stats : Mm) × (prefix_exist a n ip cidr ≡ some code)
        × (insert_prefix a m n ip cidr v ≡ some (code, after, stats))
        × (prefix_exist a after ip cidr ≡ some 1)
  insert_prefix-prefix_exist v =
      let ins = insert_prefix_lem a laws d m n ip cidr h masked shallow v in
      (
        present (find_prefix a n ip cidr),
        ins.after,
        ins.stats,
        prefix_exist_lem a laws d n ip cidr h masked shallow,
        ins.returns,
        prefix_exist_lem a laws d ins.after ip cidr ins.shape masked shallow
            ∙ ap (λ o. some (present o)) ins.found,
      )
