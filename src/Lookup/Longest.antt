-- ===== src/Lookup/Longest.antt =====
-- Both searches find the longest match.
use prefix_lookup_mc.Base.{
  ℕ, zero, suc, ◌+◌, ◌*◌, ◌≤◌, ◌<◌, ◌≡◌, refl, sym, ap, ◌∙◌, arith, true, false, Option, none, some,
  List, [], ◌∷◌, length, ltb, Bool-cases, inl, inr,
}
use prefix_lookup_mc.Address.{Address, IsAddress, stride_of, shift}
use prefix_lookup_mc.Bits.Digits.{bit, zero-bit}
use prefix_lookup_mc.Bits.Words.{test_bitmap_lem}
use prefix_lookup_mc.Node.Nodes.{Node, Nhi, external}
use prefix_lookup_mc.Node.Layout.{next_child_lem, child_at}
use prefix_lookup_mc.Trie.Shape.{IsTrie}
use prefix_lookup_mc.Trie.Child.{child_lem}
use prefix_lookup_mc.Lookup.{
  or_else, deref, node_match, LazyTravel, lazy_back, search_loop, do_search, lazy_loop,
  do_search_lazy,
}
use prefix_lookup_mc.Lookup.Best.{
  node_best, node_match_lem, or_else_assoc, longest_match, best, best_in_node, best_with,
  best_without,
}

module _ (a : Address) where
  -- The longest match by levels: a node's own match, or one below it.
  pub longest_here :
      (n : Node) (ip : a.Ip) → longest_match a 0 n ip ≡ node_best 6 (stride_of a ip 6) n
  longest_here n ip = best_in_node a n ip 0

  pub longest_deeper :
      (d : ℕ) (n c : Node) (ip : a.Ip)
      → bit (external n) (stride_of a ip 6) ≡ true
      → child_at n (stride_of a ip 6) ≡ some c
      → longest_match a (suc d) n ip
        ≡ or_else (longest_match a d c (shift a ip)) (node_best 6 (stride_of a ip 6) n)
  longest_deeper d n c ip on there =
      ap (best a (suc d) n ip) (omega arith)
      ∙ best_with a n ip d ((d + 1) * 6) c there
      ∙ ap (or_else (longest_match a d c (shift a ip))) (best_in_node a n ip (suc d))

  pub longest_no_deeper :
      (d : ℕ) (n : Node) (ip : a.Ip)
      → bit (external n) (stride_of a ip 6) ≡ false
      → longest_match a (suc d) n ip ≡ node_best 6 (stride_of a ip 6) n
  longest_no_deeper d n ip off =
      ap (best a (suc d) n ip) (omega arith)
      ∙ best_without a n ip d ((d + 1) * 6) (rw off)
      ∙ best_in_node a n ip (suc d)

module _ (a : Address) (laws : IsAddress a) where
  search_loop_lem :
      (d fuel : ℕ) (n : Node) (ip : a.Ip) (longest : Option Nhi)
      → IsTrie d n
      → laws.IsIp ip
      → d < fuel
      → search_loop a fuel n ip longest ≡ some (or_else (longest_match a d n ip) longest)
  unfolding search_loop
  search_loop_lem d zero n ip longest h i k = absurd (omega arith)
  search_loop_lem zero (suc fuel) n ip longest h i k = rw (
    node_match_lem (stride_of a ip 6) n h.0 (laws.stride-lt ip i),
    test_bitmap_lem,
    h.1,
    zero-bit,
    longest_here a n ip,
  )
  search_loop_lem (suc d) (suc fuel) n ip longest h i k =
      let low = laws.stride-lt ip i in
      let found = node_best 6 (stride_of a ip 6) n in
      elim (Bool-cases (bit (external n) (stride_of a ip 6))) [
        | inr off ↦ rw (
          node_match_lem (stride_of a ip 6) n h.0 low,
          test_bitmap_lem,
          off,
          longest_no_deeper a d n ip off,
        )
        | inl on ↦
            let (c, there, child, hc) = child_lem d n h (stride_of a ip 6) low on in
            rw
              (
                node_match_lem (stride_of a ip 6) n h.0 low,
                test_bitmap_lem,
                on,
                next_child_lem n (stride_of a ip 6) h.0.is_node low on ∙ child,
                longest_deeper a d n c ip on child,
              )
              (search_loop_lem d fuel c (shift a ip) (or_else found longest) hc
                  (laws.shift-IsIp ip i) (omega arith)
                ∙ ap some (sym (or_else_assoc (longest_match a d c (shift a ip)) found longest)))
      ]

  pub lazy_back_lem :
      (mark : LazyTravel) (marks : List LazyTravel) (found rest : Option Nhi)
      → node_match (mark.lazy_p) (mark.stride) ≡ some found
      → lazy_back marks ≡ some rest
      → lazy_back (mark ∷ marks) ≡ some (or_else found rest)
  unfolding lazy_back
  lazy_back_lem mark marks none rest h k = rw (h, k)
  lazy_back_lem mark marks (some v) rest h k = rw h

  -- `rest` is the match of the marks that the walk has left.
  lazy_loop_lem :
      (d fuel : ℕ) (n : Node) (ip : a.Ip) (marks : List LazyTravel) (rest : Option Nhi)
      → IsTrie d n
      → laws.IsIp ip
      → d < fuel
      → length marks + d ≤ a.levels
      → lazy_back marks ≡ some rest
      → lazy_loop a fuel n ip marks ≡ some (or_else (longest_match a d n ip) rest)
  unfolding lazy_loop
  lazy_loop_lem d zero n ip marks rest h i k room back = absurd (omega arith)
  lazy_loop_lem zero (suc fuel) n ip marks rest h i k room back =
      let mark : LazyTravel = record { lazy_p = n; stride = stride_of a ip 6 } in
      rw (test_bitmap_lem, h.1, zero-bit, longest_here a n ip)
        (lazy_back_lem mark marks (node_best 6 (stride_of a ip 6) n) rest
          (node_match_lem (stride_of a ip 6) n h.0 (laws.stride-lt ip i)) back)
  lazy_loop_lem (suc d) (suc fuel) n ip marks rest h i k room back =
      let low = laws.stride-lt ip i in
      let mark : LazyTravel = record { lazy_p = n; stride = stride_of a ip 6 } in
      let found = node_best 6 (stride_of a ip 6) n in
      let back' =
        lazy_back_lem mark marks found rest (node_match_lem (stride_of a ip 6) n h.0 low) back in
      let space : ltb (length marks) a.levels ≡ true = ground (arith, room) in
      elim (Bool-cases (bit (external n) (stride_of a ip 6))) [
        | inr off ↦ rw (test_bitmap_lem, off, longest_no_deeper a d n ip off) back'
        | inl on ↦
            let (c, there, child, hc) = child_lem d n h (stride_of a ip 6) low on in
            rw
              (
                test_bitmap_lem,
                on,
                space,
                next_child_lem n (stride_of a ip 6) h.0.is_node low on ∙ child,
                longest_deeper a d n c ip on child,
              )
              (lazy_loop_lem d fuel c (shift a ip) (mark ∷ marks) (or_else found rest) hc
                  (laws.shift-IsIp ip i) (omega arith) (omega arith) back'
                ∙ ap some (sym (or_else_assoc (longest_match a d c (shift a ip)) found rest)))
      ]

  pub or_else-none : (o : Option Nhi) → or_else o none ≡ o
  or_else-none none = refl
  or_else-none (some v) = refl

  -- In a trie of at most LEVEL levels below its root, the search for an address in range returns
  -- without a fault, with the information of the longest prefix of the address that the trie holds, and
  -- with NULL if it holds none.
  pub do_search_lem :
      (d : ℕ) (n : Node) (ip : a.Ip)
      → IsTrie d n
      → laws.IsIp ip
      → d ≤ a.levels
      → do_search a n ip ≡ some (deref (longest_match a d n ip))
  unfolding do_search
  do_search_lem d n ip h i k =
      rw (search_loop_lem d (suc a.levels) n ip none h i (omega arith), or_else-none)

  pub do_search_lazy_lem :
      (d : ℕ) (n : Node) (ip : a.Ip)
      → IsTrie d n
      → laws.IsIp ip
      → d ≤ a.levels
      → do_search_lazy a n ip ≡ some (deref (longest_match a d n ip))
  unfolding do_search_lazy lazy_back
  do_search_lazy_lem d n ip h i k = rw (
    lazy_loop_lem d (suc a.levels) n ip [] none h i (omega arith) (omega arith) refl,
    or_else-none,
  )

  -- In a trie of at most LEVEL levels below its root, the lazy search for an address in range returns
  -- without a fault, where a mark past its array is one: it gives the information of the longest prefix of
  -- the address that the trie holds, NULL if it holds none, and so does the other search.
  pub do_search_lazy-do_search :
      (d : ℕ) (n : Node) (ip : a.Ip)
      → IsTrie d n
      → laws.IsIp ip
      → d ≤ a.levels
      → (do_search_lazy a n ip ≡ some (deref (longest_match a d n ip)))
        × (do_search_lazy a n ip ≡ do_search a n ip)
  do_search_lazy-do_search d n ip h i k =
      let lazy = do_search_lazy_lem d n ip h i k in (lazy, lazy ∙ sym (do_search_lem d n ip h i k))
