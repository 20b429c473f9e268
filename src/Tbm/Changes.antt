-- ===== src/Tbm/Changes.antt =====
-- How a change of the table of routes shows in what an entry depends on.
use native.Mathlib.Decide.{ℕ_discrete}
use native.Mathlib.Nat.{mul-add-div_right, div-eq_of_lt}
use prefix_lookup_mc.Base.{
  ℕ, zero, suc, ◌+◌, ◌-◌, ◌*◌, ◌/◌, ◌^◌, ◌≤◌, ◌<◌, ◌≡◌, ◌≢◌, refl, sym, ap, ap₂, ◌∙◌, arith, true,
  Option, ltb, if◌then◌else◌, inl, inr,
}
use prefix_lookup_mc.Address.{Address}
use prefix_lookup_mc.Address.Word.{IsWord, pow-pos}
use prefix_lookup_mc.Node.Nodes.{Node, Nhi}
use prefix_lookup_mc.Routes.{Routes, update, Holds}
use prefix_lookup_mc.Tbm.{InitNode}
use prefix_lookup_mc.Tbm.Laws.{IsTabled, leading-lt}
use prefix_lookup_mc.Tbm.Near.{
  near_below, with_length, hi_of, rule_of, near_below-update, near_below-update_ne,
  near_below-update_short,
}
use prefix_lookup_mc.Tbm.Entry.{near, under, Agrees, IsEntry}

-- Tables that agree on the bits there are.
pub Holds-ext :
    (a : Address) (word : IsWord a) (tabled : IsTabled a word) (d : ℕ) (n : Node) (f g : Routes)
    → ((bits k : ℕ) → bits < 2 ^ k → f bits k ≡ g bits k)
    → Holds a word d n f
    → Holds a word d n g
Holds-ext a word tabled d n f g e h ip k i l = h ip k i l ∙ e _ k (leading-lt a word tabled ip k i)

pub under-Agrees :
    (f g : Routes) (i : ℕ)
    → Agrees f g i
    → (bits k : ℕ) → bits < 2 ^ k
    → under f i bits k ≡ under g i bits k
unfolding under
under-Agrees f g i h bits zero l = ap rule_of h.nears
under-Agrees f g i h bits (suc k) l = h.unders bits (suc k) (omega arith) l

pub Agrees-IsEntry :
    (a : Address) (word : IsWord a) (tabled : IsTabled a word) (f g : Routes) (i : ℕ) (n : InitNode)
    → Agrees f g i
    → IsEntry a word f i n
    → IsEntry a word g i n
Agrees-IsEntry a word tabled f g i n h (inl p) = inl (record {
  flags = rw (← h.nears) (p.flags);
  rule = rw (← h.nears) (p.rule);
  no_rules = p.no_rules;
  shape = p.shape;
  none_under = λ bits k l l'. sym (h.unders bits k l l') ∙ p.none_under bits k l l';
})
Agrees-IsEntry a word tabled f g i n h (inr c) = inr (record {
  flags = rw (← h.nears) (c.flags);
  shape = c.shape;
  holds =
      Holds-ext a word tabled a.levels n.e (under f i) (under g i) (under-Agrees f g i h) c.holds;
})

-- A short route: one of at most 13 bits.
module _ (f : Routes) (bits c : ℕ) (o : Option Nhi) (short : c ≤ 13) where
  pub under_short :
      (i b k : ℕ) → 0 < k → f (i * 2 ^ k + b) (13 + k) ≡ update f bits c o (i * 2 ^ k + b) (13 + k)
  unfolding update
  under_short i b k l =
      let ne : 13 + k ≢ c = λ e. absurd (omega (arith, e, short, l)) in ground (arith, ne)

  pub short-Agrees_ne : (i : ℕ) → i / 2 ^ (13 - c) ≢ bits → Agrees f (update f bits c o) i
  short-Agrees_ne i ne = record {
    nears = sym (near_below-update_ne f i 13 bits c o 14 ne);
    unders = λ b k l l'. under_short i b k l;
  }

  pub near_short :
      (i : ℕ)
      → i / 2 ^ (13 - c) ≡ bits
      → near (update f bits c o) i
        ≡ (if ltb c (hi_of (near f i)) then near f i else with_length c o (near_below f i 13 c))
  near_short i e = near_below-update f i 13 bits c o 14 e (omega arith)

  -- Below a longer one it does not show.
  pub short-Agrees_hidden :
      (i : ℕ) → ltb c (hi_of (near f i)) ≡ true → Agrees f (update f bits c o) i
  short-Agrees_hidden i hidden = elim (ℕ_discrete (i / 2 ^ (13 - c)) bits) [
    | no ne ↦ short-Agrees_ne i ne
    | yes e ↦ record {
      nears = sym (near_short i e ∙ rw hidden refl);
      unders = λ b k l l'. under_short i b k l;
    }
  ]

-- A long one, of `c` bits behind the index `j`.
module _ (f : Routes) (j b c : ℕ) (o : Option Nhi) (long : 0 < c) (low : b < 2 ^ c) where
  abbrev pub long_update : Routes
  long_update = update f (j * 2 ^ c + b) (13 + c) o

  pub near_long : (i : ℕ) → near long_update i ≡ near f i
  near_long i = near_below-update_short f i 13 (j * 2 ^ c + b) (13 + c) o 14 (omega arith)

  same_index : (i k d : ℕ) → d < 2 ^ k → i * 2 ^ k + d ≡ j * 2 ^ c + b → k ≡ c → (i ≡ j) × (d ≡ b)
  same_index i k d l e same =
      let e' : i * 2 ^ c + d ≡ j * 2 ^ c + b = ap (λ (t : ℕ). i * 2 ^ t + d) (sym same) ∙ e in
      let l' : d < 2 ^ c = omega (arith, l, ap (λ (t : ℕ). 2 ^ t) same) in
      let top : i ≡ j = omega (
        arith,
        mul-add-div_right (pow-pos c) i d,
        mul-add-div_right (pow-pos c) j b,
        ap (λ (t : ℕ). t / 2 ^ c) e',
        div-eq_of_lt l',
        div-eq_of_lt low,
      ) in
      (top, omega (arith, e', ap (λ (t : ℕ). t * 2 ^ c) top))

  -- Where it shows, and where not.
  update_same :
      (g : Routes) (i d k : ℕ)
      → i * 2 ^ k + d ≡ j * 2 ^ c + b
      → k ≡ c
      → update g (j * 2 ^ c + b) (13 + c) o (i * 2 ^ k + d) (13 + k) ≡ o
  unfolding update
  update_same g i d k e same = ground (arith, e, same)

  update_apart :
      (g : Routes) (i d k : ℕ)
      → ((k ≡ c) → i * 2 ^ k + d ≢ j * 2 ^ c + b)
      → update g (j * 2 ^ c + b) (13 + c) o (i * 2 ^ k + d) (13 + k) ≡ g (i * 2 ^ k + d) (13 + k)
  unfolding update
  update_apart g i d k ne = elim (ℕ_discrete k c) [
    | no other ↦ ground (arith, other)
    | yes same ↦ let other : i * 2 ^ k + d ≢ j * 2 ^ c + b = ne same in ground (arith, other)
  ]

  pub long-Agrees_ne : (i : ℕ) → i ≢ j → Agrees f long_update i
  long-Agrees_ne i ne = record {
    nears = sym (near_long i);
    unders = λ d k l l'. sym (update_apart f i d k (λ same e. ne ((same_index i k d l' e same).0)));
  }

  pub under_long : (d k : ℕ) → d < 2 ^ k → update (under f j) b c o d k ≡ under long_update j d k
  unfolding update under
  under_long d zero l =
      let shorter : 0 ≢ c = λ e. absurd (omega (arith, e, long)) in
      rw (near_long j) (ground (arith, shorter))
  under_long d (suc k) l = elim (ℕ_discrete (suc k) c) [
    | no other ↦ ground (arith, other)
    | yes same ↦ elim (ℕ_discrete d b) [
      | yes e ↦
          let all : j * 2 ^ suc k + d ≡ j * 2 ^ c + b = ap₂ (λ s t. j * 2 ^ s + t) same e in
          ground (arith, same, e, all)
      | no ne ↦
          let other : j * 2 ^ suc k + d ≢ j * 2 ^ c + b =
            λ all. ne ((same_index j (suc k) d l all same).1) in
          ground (arith, ne, other)
    ]
  ]
