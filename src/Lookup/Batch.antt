-- ===== src/Lookup/Batch.antt =====
-- The batch of lazy searches ends, and every lane gives what a search of its own gives.
use prefix_lookup_mc.Base.{
  ℕ, suc, ◌≤◌, ◌≡◌, refl, sym, ap, ◌∙◌, arith, false, Option, some, List, [], ◌∷◌, length, All, inl,
  inr, map, ltb, ◌>>=◌,
}
use prefix_lookup_mc.Address.{Address, IsAddress}
use prefix_lookup_mc.Address.Word.{pow-pos}
use prefix_lookup_mc.Bits.Digits.{bit, zero-bit}
use prefix_lookup_mc.Node.Nodes.{Node, Nhi}
use prefix_lookup_mc.Trie.Shape.{IsTrie}
use prefix_lookup_mc.Lookup.{Lane, deref, do_search, start_lanes, finish_lanes, search_batch}
use prefix_lookup_mc.Lookup.Best.{longest_match}
use prefix_lookup_mc.Lookup.Longest.{do_search_lem}
use prefix_lookup_mc.Lookup.Lanes.{start_lane-IsLive}
use prefix_lookup_mc.Lookup.Rounds.{States, Marked, run_lanes_lem}

module _ (a : Address) where
  -- The searches one after the other.
  unfoldable pub search_each : List (Node × a.Ip) → Option (List Nhi)
  search_each [] = some []
  search_each (q ∷ qs) = do
    found ← do_search a (q.0) (q.1)
    rest ← search_each qs
    some (found ∷ rest)

module _ (a : Address) (laws : IsAddress a) where
  unfoldable finds : ℕ → List (Node × a.Ip) → List (Option Nhi)
  finds d [] = []
  finds d (q ∷ qs) = longest_match a d (q.0) (q.1) ∷ finds d qs

  derefs : List (Option Nhi) → List Nhi
  derefs [] = []
  derefs (v ∷ vs) = deref v ∷ derefs vs

  abbrev pub IsQuery : ℕ → Node × a.Ip → Type 0
  IsQuery d q = IsTrie d (q.0) × laws.IsIp (q.1)

  start-States :
      (d : ℕ) (qs : List (Node × a.Ip))
      → All (IsQuery d) qs
      → d ≤ a.levels
      → States a laws (suc d) (start_lanes a qs) (finds d qs)
  unfolding start_lanes finds States
  start-States d [] h room = tt
  start-States d (q ∷ qs) h room = (
    inr (start_lane-IsLive a laws d (q.0) (q.1) (h.0.0) (h.0.1) room),
    start-States d qs h.1 room,
  )

  none-Marked : (i : ℕ) (ls : List (Lane a)) (vs : List (Option Nhi)) → Marked a laws i 0 ls vs
  unfolding Marked
  none-Marked i [] vs = tt
  none-Marked i (l ∷ ls) [] = tt
  none-Marked i (l ∷ ls) (v ∷ vs) = (
    λ on. let off : bit 0 i ≡ false = zero-bit i in absurd (ground (arith, on, off)),
    none-Marked (suc i) ls vs,
  )

  finish_lanes_lem :
      (ls : List (Lane a)) (vs : List (Option Nhi))
      → States a laws 0 ls vs
      → finish_lanes a ls ≡ some (derefs vs)
  unfolding finish_lanes States derefs
  finish_lanes_lem [] [] h = refl
  finish_lanes_lem [] (v ∷ vs) h = absurd (omega (arith, h))
  finish_lanes_lem (l ∷ ls) [] h = absurd (omega (arith, h))
  finish_lanes_lem (l ∷ ls) (v ∷ vs) h = rw (h.0.finds, finish_lanes_lem ls vs h.1) refl

  each_lem :
      (d : ℕ) (qs : List (Node × a.Ip))
      → All (IsQuery d) qs
      → d ≤ a.levels
      → search_each a qs ≡ some (derefs (finds d qs))
  unfolding search_each finds derefs
  each_lem d [] h room = refl
  each_lem d (q ∷ qs) h room =
      rw (do_search_lem a laws d (q.0) (q.1) (h.0.0) (h.0.1) room, each_lem d qs h.1 room) refl

  -- The information of the longest prefix of the address of a query that its trie holds.
  abbrev pub match_of : ℕ → Node × a.Ip → Nhi
  match_of d q = deref (longest_match a d (q.0) (q.1))

  derefs-finds : (d : ℕ) (qs : List (Node × a.Ip)) → derefs (finds d qs) ≡ map (match_of d) qs
  unfolding derefs finds
  derefs-finds d [] = refl
  derefs-finds d (q ∷ qs) = rw (derefs-finds d qs) refl

  length-start_lanes : (qs : List (Node × a.Ip)) → length (start_lanes a qs) ≡ length qs
  unfolding start_lanes
  length-start_lanes [] = refl
  length-start_lanes (q ∷ qs) = ap suc (length-start_lanes qs)

  -- For at most BATCH = 32 queries, on tries of at most LEVEL levels below their roots and with addresses
  -- in range, the batch ends within LEVEL + 1 rounds and returns without a fault, where a lane past its
  -- arrays is one: it gives the information of the longest prefix of each address that its trie holds, NULL
  -- if it holds none, in the order of the queries, and so do the searches one after the other.
  pub search_batch-search_each :
      (d : ℕ) (queries : List (Node × a.Ip))
      → All (IsQuery d) queries
      → d ≤ a.levels
      → length queries ≤ 32
      → (search_batch a queries ≡ some (map (match_of d) queries))
        × (search_batch a queries ≡ search_each a queries)
  unfolding search_batch
  search_batch-search_each d queries h room few =
      let ls = start_lanes a queries in
      let narrow : length ls ≤ 32 = rw (length-start_lanes queries) few in
      let ran =
        run_lanes_lem a laws (suc (suc a.levels)) (suc d) 0 ls (finds d queries)
          (start-States d queries h room) (none-Marked 0 ls (finds d queries)) narrow
          (pow-pos (length ls)) (inl (omega arith, omega (arith, room))) in
      let no_fault : ltb 32 (length queries) ≡ false = ground (arith, few) in
      let batched : search_batch a queries ≡ some (derefs (finds d queries)) =
        rw (no_fault, ran.returns) (finish_lanes_lem ran.lanes (finds d queries) ran.ended) in
      (batched ∙ ap some (derefs-finds d queries), batched ∙ sym (each_lem d queries h room))
