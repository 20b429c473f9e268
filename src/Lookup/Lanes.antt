-- ===== src/Lookup/Lanes.antt =====
-- One lane of `bitmap_do_search_lazy_batch`: where it stands after some rounds, and what it will find.
use prefix_lookup_mc.Base.{
  ℕ, zero, suc, ◌+◌, ◌≤◌, ◌≡◌, refl, sym, ap, ◌∙◌, arith, Bool, true, false, Option, none, some,
  ◌∷◌, length, ltb, Bool-cases, inl, inr, ◌⊎◌,
}
use prefix_lookup_mc.Address.{Address, IsAddress, stride_of, shift}
use prefix_lookup_mc.Bits.{test_bitmap, count_enl_bitmap}
use prefix_lookup_mc.Bits.Digits.{bit, zero-bit}
use prefix_lookup_mc.Bits.Words.{test_bitmap_lem}
use prefix_lookup_mc.Node.Nodes.{Node, Nhi, external}
use prefix_lookup_mc.Node.Layout.{next_child_lem}
use prefix_lookup_mc.Trie.Shape.{IsTrie, IsTrie-node}
use prefix_lookup_mc.Trie.Child.{child_lem}
use prefix_lookup_mc.Lookup.{or_else, LazyTravel, Lane, lazy_back, step_lane, start_lane}
use prefix_lookup_mc.Lookup.Best.{node_best, node_match_lem, or_else_assoc, longest_match}
use prefix_lookup_mc.Lookup.Longest.{
  longest_here, longest_deeper, longest_no_deeper, lazy_back_lem, or_else-none,
}

module _ (a : Address) (laws : IsAddress a) where
  abbrev pub top_mark : Lane a → LazyTravel
  top_mark l = record { lazy_p = l.node; stride = l.stride }

  abbrev pub goes_on : Lane a → Bool
  goes_on l = test_bitmap (external l.node) (count_enl_bitmap l.stride)

  -- A lane with no child to go to, that will find `v`.
  pub record HasEnded (l : Lane a) (v : Option Nhi) : Type 0 where
    pub stops : goes_on l ≡ false
    pub finds : lazy_back (top_mark l ∷ l.marks) ≡ some v

  -- A lane at a node with at most `d` levels below it.
  pub record IsLive (d : ℕ) (l : Lane a) (v : Option Nhi) : Type 0 where
    pub shape : IsTrie d l.node
    pub in_range : laws.IsIp l.ip
    pub at_stride : l.stride ≡ stride_of a l.ip 6
    pub room : length l.marks + d ≤ a.levels
    pub rest : Option Nhi
    pub back : lazy_back l.marks ≡ some rest
    pub finds : or_else (longest_match a d l.node l.ip) rest ≡ v

  -- A lane that ends within `k` rounds.
  abbrev pub State : ℕ → Lane a → Option Nhi → Type 0
  State zero l v = HasEnded l v
  State (suc k) l v = HasEnded l v ⊎ IsLive k l v

  abbrev pub rounds_left : ℕ → ℕ
  rounds_left zero = 0
  rounds_left (suc k) = k

  pub record Stepped (k : ℕ) (l : Lane a) (v : Option Nhi) : Type 0 where
    pub ended : Bool
    pub after : Lane a
    pub returns : step_lane a l ≡ some (ended, after)
    pub state : State (rounds_left k) after v
    pub at_end : ended ≡ true → HasEnded after v
    pub stays : HasEnded l v → HasEnded after v
    pub over : k ≤ 1 → ended ≡ true

  step_ended : (k : ℕ) (l : Lane a) (v : Option Nhi) → HasEnded l v → Stepped k l v
  unfolding step_lane
  step_ended k l v h = record {
    ended = true;
    after = l;
    returns = rw (h.stops) refl;
    state = state_of (rounds_left k);
    at_end = λ e. h;
    stays = λ h'. h';
    over = λ e. refl;
  }
    where
      state_of : (j : ℕ) → State j l v
      state_of zero = h
      state_of (suc j) = inl h

  -- A live lane with no child to go to.
  live_end :
      (d : ℕ) (l : Lane a) (v : Option Nhi)
      → IsLive d l v
      → longest_match a d l.node l.ip ≡ node_best 6 (stride_of a l.ip 6) l.node
      → goes_on l ≡ false
      → HasEnded l v
  live_end d l v h best stops = record {
    stops = stops;
    finds =
        lazy_back_lem a laws (top_mark l) l.marks (node_best 6 l.stride l.node) h.rest
          (node_match_lem l.stride l.node (IsTrie-node d l.node h.shape)
            (rw (h.at_stride) (laws.stride-lt l.ip h.in_range)))
          h.back
        ∙ ap some (
            ap (λ (s : ℕ). or_else (node_best 6 s l.node) h.rest) h.at_stride
            ∙ ap (λ o. or_else o h.rest) (sym best)
            ∙ h.finds);
  }

  -- One that goes to its child.
  step_down :
      (d : ℕ) (l : Lane a) (v : Option Nhi)
      → IsLive (suc d) l v
      → bit (external l.node) (stride_of a l.ip 6) ≡ true
      → Stepped (suc (suc d)) l v
  unfolding step_lane
  step_down d l v h on =
      let s = stride_of a l.ip 6 in
      let low = laws.stride-lt l.ip h.in_range in
      let (c, there, child, hc) = child_lem d l.node h.shape s low on in
      let goes : goes_on l ≡ true = rw (test_bitmap_lem, h.at_stride, on) refl in
      let space : ltb (length l.marks) a.levels ≡ true = ground (arith, h.room) in
      let next = next_child_lem l.node s h.shape.0.is_node low on ∙ child in
      record {
        ended = false;
        after = record {
          node = c;
          ip = shift a l.ip;
          stride = stride_of a (shift a l.ip) 6;
          marks = top_mark l ∷ l.marks;
        };
        returns = rw (goes, space, h.at_stride, next) refl;
        state = inr (record {
          shape = hc;
          in_range = laws.shift-IsIp l.ip h.in_range;
          at_stride = refl;
          room = omega (arith, h.room);
          rest = or_else (node_best 6 l.stride l.node) h.rest;
          back =
              lazy_back_lem a laws (top_mark l) l.marks (node_best 6 l.stride l.node) h.rest
                (node_match_lem l.stride l.node (h.shape.0) (rw (h.at_stride) low)) h.back;
          finds =
              sym (
                or_else_assoc (longest_match a d c (shift a l.ip)) (node_best 6 l.stride l.node)
                  h.rest)
              ∙ ap
                  (λ (t : ℕ).
                    or_else (or_else (longest_match a d c (shift a l.ip)) (node_best 6 t l.node))
                      h.rest)
                  h.at_stride
              ∙ ap (λ o. or_else o h.rest) (sym (longest_deeper a d l.node c l.ip on child))
              ∙ h.finds;
        });
        at_end = λ e. absurd (ground arith);
        stays = λ e. absurd (ground (arith, goes, e.stops));
        over = λ e. absurd (omega arith);
      }

  step_live : (d : ℕ) (l : Lane a) (v : Option Nhi) → IsLive d l v → Stepped (suc d) l v
  step_live zero l v h = step_ended 1 l v (
      live_end zero l v h (longest_here a l.node l.ip)
        (rw (test_bitmap_lem, h.shape.1, zero-bit) refl))
  step_live (suc d) l v h = elim (Bool-cases (bit (external l.node) (stride_of a l.ip 6))) [
    | inr off ↦ step_ended (suc (suc d)) l v (
        live_end (suc d) l v h (longest_no_deeper a d l.node l.ip off)
          (rw (test_bitmap_lem, h.at_stride, off) refl))
    | inl on ↦ step_down d l v h on
  ]

  -- Where a lane starts: it ends within a round more than its trie has levels below the root.
  pub start_lane-IsLive :
      (d : ℕ) (n : Node) (ip : a.Ip)
      → IsTrie d n
      → laws.IsIp ip
      → d ≤ a.levels
      → IsLive d (start_lane a (n, ip)) (longest_match a d n ip)
  unfolding start_lane lazy_back
  start_lane-IsLive d n ip h i room = record {
    shape = h;
    in_range = i;
    at_stride = refl;
    room = omega arith;
    rest = none;
    back = refl;
    finds = or_else-none a laws (longest_match a d n ip);
  }

  pub step_lem : (k : ℕ) (l : Lane a) (v : Option Nhi) → State k l v → Stepped k l v
  step_lem zero l v h = step_ended 0 l v h
  step_lem (suc k) l v (inl h) = step_ended (suc k) l v h
  step_lem (suc k) l v (inr h) = step_live k l v h
