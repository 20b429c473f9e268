-- ===== src/Trie/Exist.antt =====
-- `prefix_exist`: the walk along a prefix with `prefix_exist_func`.
use prefix_lookup_mc.Base.{
  ℕ, zero, suc, ◌+◌, ◌-◌, ◌*◌, ◌<◌, ◌≡◌, arith, true, some, ltb, Bool-cases, inl, inr,
}
use prefix_lookup_mc.Address.{Address, IsAddress, shift, inl_pos, enl_pos}
use prefix_lookup_mc.Bits.Digits.{bit}
use prefix_lookup_mc.Bits.Words.{test_bitmap_lem, count_ones_lem}
use prefix_lookup_mc.Bits.Packed.{entry_at_lem}
use prefix_lookup_mc.Node.Nodes.{Node, internal, external, rules}
use prefix_lookup_mc.Trie.{prefix_exist, traverse_branch, traverse_loop, prefix_exist_func}
use prefix_lookup_mc.Trie.Path.{find, path_of, last_of}
use prefix_lookup_mc.Trie.Shape.{IsTrie, IsTrie-node}
use prefix_lookup_mc.Trie.Child.{child_lem, put_child_lem, set_child}
use prefix_lookup_mc.Trie.Insert.{present}
use prefix_lookup_mc.Trie.Prefix.{find_prefix, inl_pos-lt, enl_pos-lt}

module _ (a : Address) (laws : IsAddress a) where
  -- The walk ends with the code, and with a node of the same contents.
  abbrev Answers : ℕ → ℕ → Node → a.Ip → ℕ → Type 0
  Answers fuel d n ip cidr =
      (n' : Node) × (traverse_loop a fuel n ip cidr prefix_exist_func tt
        ≡ some (present (find n (path_of a fuel ip cidr) (last_of a fuel ip cidr)), n', tt))

  exists_here :
      (d : ℕ) (n : Node) (ip : a.Ip) (cidr fuel : ℕ)
      → IsTrie d n
      → laws.IsMasked ip cidr
      → ltb cidr 6 ≡ true
      → Answers (suc fuel) d n ip cidr
  unfolding traverse_loop prefix_exist_func find path_of last_of
  exists_here d n ip cidr fuel h masked short =
      let low : inl_pos a ip cidr < 63 = inl_pos-lt a laws ip cidr masked (ground arith) in
      (
        n,
        rw (short, test_bitmap_lem)
            (elim (Bool-cases (bit (internal n) (inl_pos a ip cidr))) [
              | inr off ↦ rw off
              | inl on ↦
                  let there =
                    entry_at_lem (internal n) (rules n) (IsTrie-node d n h).is_node.has_rules
                      (inl_pos a ip cidr) (omega arith) on in
                  rw (on, rw on at (there.1))
            ]),
      )

  exists_loop :
      (fuel d : ℕ) (n : Node) (ip : a.Ip) (cidr : ℕ)
      → IsTrie d n
      → laws.IsMasked ip cidr
      → cidr < fuel
      → cidr < (d + 1) * 6
      → Answers fuel d n ip cidr
  unfolding traverse_loop prefix_exist_func find path_of last_of
  exists_loop zero d n ip cidr h masked k l = absurd (omega arith)
  exists_loop (suc fuel) zero n ip cidr h masked k l =
      exists_here zero n ip cidr fuel h masked (ground arith)
  exists_loop (suc fuel) (suc d) n ip cidr h masked k l = elim (Bool-cases (ltb cidr 6)) [
    | inl short ↦ exists_here (suc d) n ip cidr fuel h masked short
    | inr long ↦
        let low = enl_pos-lt a laws ip (laws.masked-IsIp ip cidr masked) in
        elim (Bool-cases (bit (external n) (enl_pos a ip))) [
          | inr off ↦ (n, rw (long, test_bitmap_lem, off))
          | inl on ↦
              let (c, there, child, hc) = child_lem d n h (enl_pos a ip) low on in
              let (c', below) =
                exists_loop fuel d c (shift a ip) (cidr - 6) hc
                  (laws.shift-IsMasked ip cidr masked (ground arith)) (ground arith)
                  (ground arith) in
              (
                set_child n (enl_pos a ip) c',
                rw (
                  long,
                  test_bitmap_lem,
                  on,
                  count_ones_lem (external n) (enl_pos a ip) h.0.is_node.has_children.fits low on,
                  there,
                  below,
                  put_child_lem d n h (enl_pos a ip) low on c',
                ),
              )
        ]
  ]

  -- For a masked prefix in a trie deep enough for it, `prefix_exist` returns 1 if the trie holds the
  -- prefix, and 0 if not.
  pub prefix_exist_lem :
      (d : ℕ) (n : Node) (ip : a.Ip) (cidr : ℕ)
      → IsTrie d n
      → laws.IsMasked ip cidr
      → cidr < (d + 1) * 6
      → prefix_exist a n ip cidr ≡ some (present (find_prefix a n ip cidr))
  unfolding prefix_exist traverse_branch
  prefix_exist_lem d n ip cidr h masked l =
      rw ((exists_loop (suc cidr) d n ip cidr h masked (omega arith) l).1)
