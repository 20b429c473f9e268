-- ===== src/Lookup/Rounds.antt =====
-- The rounds of `bitmap_do_search_lazy_batch` over all lanes, and the bits of `endcnt`.
use prefix_lookup_mc.Base.{
  ℕ, zero, suc, ◌+◌, ◌-◌, ◌^◌, ◌≤◌, ◌<◌, ◌≡◌, ◌≢◌, refl, sym, ap, ◌∙◌, arith, Bool, true, false,
  Option, some, List, [], ◌∷◌, length, ◌==◌, Bool-cases, inl, inr, ◌⊎◌, if◌then◌else◌,
}
use prefix_lookup_mc.Address.{Address, IsAddress}
use prefix_lookup_mc.Address.Word.{pow-pos}
use prefix_lookup_mc.Bits.{set_bitmap}
use prefix_lookup_mc.Bits.Digits.{
  bit, set_bit, bit-set_bit_self, bit-set_bit_ne, set_bit-lt, bit_ext,
}
use prefix_lookup_mc.Bits.Words.{pow-lt, set_bitmap_lem}
use prefix_lookup_mc.Node.Nodes.{Nhi}
use prefix_lookup_mc.Lookup.{Lane, all_lanes, round_lanes, run_lanes}
use prefix_lookup_mc.Lookup.Lanes.{HasEnded, State, rounds_left, step_lem}
use native.Mathlib.Nat.{pow-suc}

-- The number whose lowest `w` bits are set, and no other one.
bit-full : (w q : ℕ) → q < w → bit (2 ^ w - 1) q ≡ true
unfolding bit
bit-full zero q h = absurd (omega arith)
bit-full (suc w) zero h = ground (arith, pow-suc 2 w, pow-pos w)
bit-full (suc w) (suc q) h =
    ap (λ (t : ℕ). bit t q) (omega (arith, pow-suc 2 w, pow-pos w)) ∙ bit-full w q (omega arith)

-- For at most BATCH lanes nothing is lost at the top of the uint64_t.
all_lanes_lem : (w : ℕ) → w ≤ 32 → all_lanes w ≡ 2 ^ w - 1
unfolding all_lanes
all_lanes_lem w h = omega (arith, pow-lt w 64 (omega arith), pow-pos w)

module _ (a : Address) (laws : IsAddress a) where
  -- Every lane ends within `k` rounds with what it is to find.
  unfoldable pub States : ℕ → List (Lane a) → List (Option Nhi) → Type 0
  States k [] [] = Unit
  States k [] (v ∷ vs) = ◌≡◌ {A = ℕ} 0 1
  States k (l ∷ ls) [] = ◌≡◌ {A = ℕ} 0 1
  States k (l ∷ ls) (v ∷ vs) = State a laws k l v × States k ls vs

  -- The lanes from number `i` on whose bit is set have ended.
  unfoldable pub Marked : ℕ → ℕ → List (Lane a) → List (Option Nhi) → Type 0
  Marked i e [] vs = Unit
  Marked i e (l ∷ ls) [] = Unit
  Marked i e (l ∷ ls) (v ∷ vs) = (bit e i ≡ true → HasEnded a laws l v) × Marked (suc i) e ls vs

  pub record Round (k i e : ℕ) (ls : List (Lane a)) (vs : List (Option Nhi)) : Type 0 where
    pub after : List (Lane a)
    pub marks : ℕ
    pub returns : round_lanes a i ls e ≡ some (after, marks)
    pub states : States (rounds_left a laws k) after vs
    pub marked : Marked i marks after vs
    pub same_length : length after ≡ length ls
    pub fits : (w : ℕ) → i + length ls ≤ w → e < 2 ^ w → marks < 2 ^ w
    pub below : (q : ℕ) → q < i → bit marks q ≡ bit e q
    pub over : k ≤ 1 → (q : ℕ) → i ≤ q → q < i + length ls → bit marks q ≡ true

  -- `endcnt` behind a lane.
  abbrev mark_lane : Bool → ℕ → ℕ → ℕ
  mark_lane ended e i = if ended then set_bitmap e i else e

  Marked-above :
      (i j e : ℕ) (ls : List (Lane a)) (vs : List (Option Nhi))
      → i < j
      → Marked j e ls vs
      → Marked j (set_bit e i) ls vs
  unfolding Marked
  Marked-above i j e [] vs l h = tt
  Marked-above i j e (x ∷ ls) [] l h = tt
  Marked-above i j e (x ∷ ls) (v ∷ vs) l h =
      let apart : i ≢ j = λ same. absurd (omega (arith, same, l)) in
      (
        λ on. h.0 (sym (bit-set_bit_ne e i j apart) ∙ on),
        Marked-above i (suc j) e ls vs (omega arith) h.1,
      )

  mark_lane-ne : (ended : Bool) (e i q : ℕ) → i ≢ q → bit (mark_lane ended e i) q ≡ bit e q
  mark_lane-ne false e i q ne = refl
  mark_lane-ne true e i q ne = rw (set_bitmap_lem e i) (bit-set_bit_ne e i q ne)

  mark_lane-lt : (ended : Bool) (e i w : ℕ) → i < w → e < 2 ^ w → mark_lane ended e i < 2 ^ w
  mark_lane-lt false e i w l h = h
  mark_lane-lt true e i w l h = rw (set_bitmap_lem e i) (set_bit-lt w e i h l)

  mark_lane-Marked :
      (ended : Bool) (i e : ℕ) (ls : List (Lane a)) (vs : List (Option Nhi))
      → Marked (suc i) e ls vs
      → Marked (suc i) (mark_lane ended e i) ls vs
  mark_lane-Marked false i e ls vs h = h
  mark_lane-Marked true i e ls vs h =
      rw (set_bitmap_lem e i) (Marked-above i (suc i) e ls vs (omega arith) h)

  -- The lane's own bit says that it has ended.
  mark_lane-ended :
      (ended : Bool) (e i : ℕ) (l l' : Lane a) (v : Option Nhi)
      → (ended ≡ true → HasEnded a laws l' v)
      → (HasEnded a laws l v → HasEnded a laws l' v)
      → (bit e i ≡ true → HasEnded a laws l v)
      → bit (mark_lane ended e i) i ≡ true
      → HasEnded a laws l' v
  mark_lane-ended false e i l l' v at_end stays before on = stays (before on)
  mark_lane-ended true e i l l' v at_end stays before on = at_end refl

  -- A round of the lanes from number `i` on returns; `rest` is the round of those behind the first.
  round_lem :
      (k i e : ℕ) (ls : List (Lane a)) (vs : List (Option Nhi))
      → States k ls vs
      → Marked i e ls vs
      → Round k i e ls vs
  unfolding States Marked round_lanes
  round_lem k i e [] [] h m = record {
    after = [];
    marks = e;
    returns = refl;
    states = tt;
    marked = tt;
    same_length = refl;
    fits = λ w l f. f;
    below = λ q l. refl;
    over = λ z q l l'. absurd (omega arith);
  }
  round_lem k i e [] (v ∷ vs) h m = absurd (omega (arith, h))
  round_lem k i e (l ∷ ls) [] h m = absurd (omega (arith, h))
  round_lem k i e (l ∷ ls) (v ∷ vs) h m =
      let step = step_lem a laws k l v (h.0) in
      let e' = mark_lane step.ended e i in
      let rest = round_lem k (suc i) e' ls vs h.1 (mark_lane-Marked step.ended i e ls vs m.1) in
      let own : bit rest.marks i ≡ bit e' i = rest.below i (omega arith) in
      let next : i + 1 ≡ suc i = omega arith in
      record {
        after = step.after ∷ rest.after;
        marks = rest.marks;
        returns = rw (step.returns, next, rest.returns) refl;
        states = (step.state, rest.states);
        marked = (
          λ on.
              mark_lane-ended step.ended e i l step.after v step.at_end step.stays m.0
                (sym own ∙ on),
          rest.marked,
        );
        same_length = ap suc rest.same_length;
        fits = λ w l f. rest.fits w (omega arith) (mark_lane-lt step.ended e i w (omega arith) f);
        below = λ q l.
            rest.below q (omega arith)
            ∙ mark_lane-ne step.ended e i q (λ same. absurd (omega (arith, same, l)));
        over = λ z q from to. elim (Bool-cases (i == q)) [
          | inl same ↦
              let here : i ≡ q = ground arith in
              let all : step.ended ≡ true = step.over z in
              let set : bit e' i ≡ true = rw (all, set_bitmap_lem e i) (bit-set_bit_self e i) in
              sym (ap (bit rest.marks) here) ∙ own ∙ set
          | inr apart ↦ rest.over z q (ground (arith, from)) (omega arith)
        ];
      }

  -- All lanes have ended.
  all_ended :
      (i e : ℕ) (ls : List (Lane a)) (vs : List (Option Nhi)) (k : ℕ)
      → States k ls vs
      → Marked i e ls vs
      → ((q : ℕ) → i ≤ q → q < i + length ls → bit e q ≡ true)
      → States 0 ls vs
  unfolding States Marked
  all_ended i e [] [] k h m on = tt
  all_ended i e [] (v ∷ vs) k h m on = h
  all_ended i e (l ∷ ls) [] k h m on = h
  all_ended i e (l ∷ ls) (v ∷ vs) k h m on = (
    m.0 (on i (omega arith) (omega arith)),
    all_ended (suc i) e ls vs k h.1 m.1 (λ q from to. on q (omega arith) (omega arith)),
  )

  -- `result` is all lanes, ended.
  pub record Finished (vs : List (Option Nhi)) (result : Option (List (Lane a))) : Type 0 where
    pub lanes : List (Lane a)
    pub returns : result ≡ some lanes
    pub ended : States 0 lanes vs

  -- In the last round every bit is set.
  room_after :
      (k fuel e : ℕ) (ls : List (Lane a)) (vs : List (Option Nhi)) (round : Round k 0 e ls vs)
      → e < 2 ^ length ls
      → (1 ≤ k) × (k + 1 ≤ suc fuel)
      → ((1 ≤ rounds_left a laws k) × (rounds_left a laws k + 1 ≤ fuel))
        ⊎ ((round.marks ≡ 2 ^ length round.after - 1) × (1 ≤ fuel))
  room_after zero fuel e ls vs round f enough = absurd (omega (arith, enough.0))
  room_after (suc zero) fuel e ls vs round f enough =
      let w = length ls in
      let full : round.marks ≡ 2 ^ w - 1 =
        bit_ext w round.marks (2 ^ w - 1) (round.fits w (omega arith) f) (omega (arith, pow-pos w))
          (λ q l. round.over (omega arith) q (omega arith) (omega arith) ∙ sym (bit-full w q l)) in
      inr (rw (round.same_length) full, omega (arith, enough.1))
  room_after (suc (suc k)) fuel e ls vs round f enough = inl (omega arith, omega (arith, enough.1))

  still :
      (k fuel e : ℕ) (ls : List (Lane a))
      → (e == 2 ^ length ls - 1) ≡ false
      → ((1 ≤ k) × (k + 1 ≤ suc fuel)) ⊎ ((e ≡ 2 ^ length ls - 1) × (1 ≤ suc fuel))
      → (1 ≤ k) × (k + 1 ≤ suc fuel)
  still k fuel e ls more (inl enough) = enough
  still k fuel e ls more (inr full) = absurd (ground (arith, more, full.0))

  -- With as many rounds as the lanes need, and one more for the test, the loop ends.
  pub run_lanes_lem :
      (fuel k e : ℕ) (ls : List (Lane a)) (vs : List (Option Nhi))
      → States k ls vs
      → Marked 0 e ls vs
      → length ls ≤ 32
      → e < 2 ^ length ls
      → ((1 ≤ k) × (k + 1 ≤ fuel)) ⊎ ((e ≡ 2 ^ length ls - 1) × (1 ≤ fuel))
      → Finished vs (run_lanes a fuel ls e)
  unfolding run_lanes
  run_lanes_lem zero k e ls vs h m few f (inl enough) = absurd (omega (arith, enough.1))
  run_lanes_lem zero k e ls vs h m few f (inr enough) = absurd (omega (arith, enough.1))
  run_lanes_lem (suc fuel) k e ls vs h m few f enough = elim (Bool-cases (e == 2 ^ length ls - 1)) [
    | inl done ↦
        let full : e ≡ 2 ^ length ls - 1 = ground arith in
        record {
          lanes = ls;
          returns = rw (all_lanes_lem (length ls) few, done) refl;
          ended =
              all_ended 0 e ls vs k h m
                (λ q from to. ap (λ (t : ℕ). bit t q) full ∙ bit-full (length ls) q (omega arith));
        }
    | inr more ↦
        let round = round_lem k 0 e ls vs h m in
        let fits : round.marks < 2 ^ length round.after =
          rw (round.same_length) (round.fits (length ls) (omega arith) f) in
        let few' : length round.after ≤ 32 = rw (round.same_length) few in
        let rest =
          run_lanes_lem fuel (rounds_left a laws k) round.marks round.after vs round.states
            round.marked few' fits
            (room_after k fuel e ls vs round f (still k fuel e ls more enough)) in
        record {
          lanes = rest.lanes;
          returns = rw (all_lanes_lem (length ls) few, more, round.returns) (rest.returns);
          ended = rest.ended;
        }
  ]
