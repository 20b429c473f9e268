-- ===== src/Lookup.antt =====
-- The searches of lib/bitmap_v4.c and lib/bitmap_v6.c: `do_search`, `do_search_lazy`, the batch of lazy
-- searches, and `detect_overlap_generic`. `longest` is `none` for a NULL pointer, else what it points
-- to: no search writes. A loop takes the number of its rounds as fuel.
pub mod Best
pub mod Longest
pub mod Prefixes
pub mod Insert
pub mod Lanes
pub mod Rounds
pub mod Batch
use prefix_lookup_mc.Base.{
  ℕ, zero, suc, ◌+◌, ◌-◌, ◌*◌, ◌^◌, ◌%◌, Bool, true, false, Option, none, some, List, [], ◌∷◌,
  length, ltb, ◌==◌, if◌then◌else◌, ◌>>=◌, u8_mod,
}
use prefix_lookup_mc.Address.{Address, stride_of, shift}
use prefix_lookup_mc.Bits.{test_bitmap, count_enl_bitmap, set_bitmap}
use prefix_lookup_mc.Node.{next_child, load_nhi}
use prefix_lookup_mc.Node.Nodes.{Node, Nhi, external, internal}
use prefix_lookup_mc.TreeFunction.{tree_function, find_overlap_in_node}

abbrev pub null_nhi : Nhi
null_nhi = 0

-- The places of every array of the batch.
abbrev pub batch : ℕ
batch = 32

-- `(1ULL << cnt) - 1`, a uint64_t; the shift is defined below 64.
unfoldable pub all_lanes : ℕ → ℕ
all_lanes cnt = (2 ^ cnt % 2 ^ 64 + 2 ^ 64 - 1) % 2 ^ 64

-- `(longest == NULL) ? NULL : *longest`
abbrev pub deref : Option Nhi → Nhi
deref none = null_nhi
deref (some v) = v

-- The longest match in a node, if it has one.
unfoldable pub node_match : Node → ℕ → Option (Option Nhi)
node_match n stride = elim (tree_function (internal n) stride) [
  | none ↦ some none
  | some pos ↦ load_nhi n pos >>= λ v. some (some v)
]

abbrev pub or_else : Option Nhi → Option Nhi → Option Nhi
or_else none o = o
or_else (some v) o = some v

-- `struct lazy_travel`
pub record LazyTravel : Type 0 where
  pub lazy_p : Node
  pub stride : ℕ

-- The marks from the deepest up, until one matches.
unfoldable pub lazy_back : List LazyTravel → Option (Option Nhi)
lazy_back [] = some none
lazy_back (mark ∷ marks) = do
  found ← node_match mark.lazy_p mark.stride
  let rest = lazy_back marks
  elim found [ some v ↦ some (some v) | none ↦ rest ]

-- One lane of the batch: its node, address and stride, and its marks, the deepest first.
pub record Lane (a : Address) : Type 0 where
  pub node : Node
  pub ip : a.Ip
  pub stride : ℕ
  pub marks : List LazyTravel

module _ (a : Address) where
  unfoldable pub search_loop : ℕ → Node → a.Ip → Option Nhi → Option (Option Nhi)
  search_loop zero n ip longest = none
  search_loop (suc fuel) n ip longest = do
    found ← node_match n (stride_of a ip 6)
    let longest' = or_else found longest
    if test_bitmap (external n) (count_enl_bitmap (stride_of a ip 6))
        then (next_child n (count_enl_bitmap (stride_of a ip 6)) >>= λ c.
            search_loop fuel c (shift a ip) longest')
        else some longest'

  -- A trie has no more levels than an address has strides.
  unfoldable pub do_search : Node → a.Ip → Option Nhi
  do_search n ip = search_loop (suc a.levels) n ip none >>= λ longest. some (deref longest)

  -- `lazy_mark` has LEVEL places: a mark past them is a fault.
  unfoldable pub lazy_loop : ℕ → Node → a.Ip → List LazyTravel → Option (Option Nhi)
  lazy_loop zero n ip marks = none
  lazy_loop (suc fuel) n ip marks =
      let mark : LazyTravel = record { lazy_p = n; stride = stride_of a ip 6 } in
      let deeper = next_child n (count_enl_bitmap (stride_of a ip 6)) >>= λ c.
      lazy_loop fuel c (shift a ip) (mark ∷ marks) in
      if test_bitmap (external n) (count_enl_bitmap (stride_of a ip 6))
      then (if ltb (length marks) a.levels then deeper else none)
      else lazy_back (mark ∷ marks)

  unfoldable pub do_search_lazy : Node → a.Ip → Option Nhi
  do_search_lazy n ip = lazy_loop (suc a.levels) n ip [] >>= λ longest. some (deref longest)

  -- Stage 0 of the batch, for one lane.
  unfoldable pub start_lane : Node × a.Ip → Lane a
  start_lane (n, ip) = record { node = n; ip = ip; stride = stride_of a ip 6; marks = [] }

  -- Stage 1, one round of one lane: the Boolean says that the lane has ended.
  unfoldable pub step_lane : Lane a → Option (Bool × Lane a)
  step_lane l =
      let deeper : Option (Bool × Lane a) = next_child l.node (count_enl_bitmap l.stride) >>= λ c.
      some (
        false,
        record {
          node = c;
          ip = shift a l.ip;
          stride = stride_of a (shift a l.ip) 6;
          marks = record { lazy_p = l.node; stride = l.stride } ∷ l.marks;
        },
      ) in
      if test_bitmap (external l.node) (count_enl_bitmap l.stride)
      then (if ltb (length l.marks) a.levels then deeper else none)
      else some (true, l)

  -- The lanes from number `i` on, and `endcnt` with the bits of those that have ended.
  unfoldable pub round_lanes : ℕ → List (Lane a) → ℕ → Option (List (Lane a) × ℕ)
  round_lanes i [] endcnt = some ([], endcnt)
  round_lanes i (l ∷ ls) endcnt = do
    stepped ← step_lane l
    rest ← round_lanes (i + 1) ls (if stepped.0 then set_bitmap endcnt i else endcnt)
    some (stepped.1 ∷ rest.0, rest.1)

  unfoldable pub run_lanes : ℕ → List (Lane a) → ℕ → Option (List (Lane a))
  run_lanes zero ls endcnt = none
  run_lanes (suc fuel) ls endcnt =
      let round = round_lanes 0 ls endcnt >>= λ stepped. run_lanes fuel stepped.0 stepped.1 in
      if endcnt == all_lanes (length ls) then some ls else round

  -- Stage 2, for every lane.
  unfoldable pub finish_lanes : List (Lane a) → Option (List Nhi)
  finish_lanes [] = some []
  finish_lanes (l ∷ ls) = do
    found ← lazy_back (record { lazy_p = l.node; stride = l.stride } ∷ l.marks)
    rest ← finish_lanes ls
    some (deref found ∷ rest)

  unfoldable pub start_lanes : List (Node × a.Ip) → List (Lane a)
  start_lanes [] = []
  start_lanes (q ∷ qs) = start_lane q ∷ start_lanes qs

  -- `bitmap_do_search_lazy_batch`: a lane past its arrays of BATCH places is a fault. A trie of LEVEL
  -- levels ends every lane in as many rounds and one.
  unfoldable pub search_batch : List (Node × a.Ip) → Option (List Nhi)
  search_batch queries =
      let found =
        run_lanes (suc (suc a.levels)) (start_lanes queries) 0 >>= λ ended. finish_lanes ended in
      if ltb batch (length queries) then none else found

  -- The loop of `detect_overlap_generic` with `limit` bits left at step `step`: the mask and the rule
  -- found last.
  unfoldable pub overlap_search : ℕ → Node → a.Ip → ℕ → ℕ → ℕ → ℕ × Nhi → Option (ℕ × Nhi)
  overlap_search zero n ip limit step org_limit found = none
  overlap_search (suc fuel) n ip limit step org_limit found = do
    let stride = stride_of a ip 6
    let limit_inside = if ltb 6 limit then 6 else limit
    found' ← elim (find_overlap_in_node (internal n) stride limit_inside) [
      | none ↦ some found
      | some (pos, mask) ↦
          let curr_mask = (step * 6 + mask) % u8_mod in
          if ltb curr_mask org_limit
          then (load_nhi n pos >>= λ v. some (curr_mask, v))
          else some found
    ]
    let deeper = do
      c ← next_child n (count_enl_bitmap stride)
      overlap_search fuel c (shift a ip) (limit - 6) (step + 1) org_limit found'
    if test_bitmap (external n) (count_enl_bitmap stride)
        then (if ltb 6 limit then deeper else some found')
        else some found'

  -- The mask of the longest shorter prefix, 0 for none, and `*nhi_over`, which it sets if there is one.
  unfoldable pub detect_overlap_generic : Node → a.Ip → ℕ → ℕ → Option (ℕ × Option Nhi)
  detect_overlap_generic n ip cidr bits_limit =
      let limit = if ltb bits_limit cidr then bits_limit else cidr in
      if limit == 0
      then some (0, none)
      else (overlap_search limit n ip limit 0 limit (0, null_nhi) >>= λ r.
          some (r.0, if r.0 == 0 then none else some (r.1)))

  unfoldable pub detect_overlap : Node → a.Ip → ℕ → Option (ℕ × Option Nhi)
  detect_overlap n ip cidr = detect_overlap_generic n ip cidr a.width
