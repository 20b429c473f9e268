-- ===== src/Tbm/Uncover.antt =====
-- `tbm_delete_prefix` of a prefix of at most 13 bits: the entries that it covers.
use prefix_lookup_mc.Base.{
  ℕ, ◌+◌, ◌-◌, ◌*◌, ◌/◌, ◌^◌, ◌≤◌, ◌<◌, ◌≡◌, refl, sym, ap, ap₂, ◌∙◌, arith, Bool, false, none,
  some, List, [], ◌∷◌, if◌then◌else◌, ltb, ◌==◌, inl, inr, Bool-cases, Gives, gives,
}
use prefix_lookup_mc.Address.{Address}
use prefix_lookup_mc.Address.Word.{IsWord}
use prefix_lookup_mc.Mm.{Mm}
use prefix_lookup_mc.Node.Nodes.{Nhi}
use prefix_lookup_mc.Trie.{is_empty}
use prefix_lookup_mc.Trie.Place.{leading}
use prefix_lookup_mc.Routes.{Routes, update}
use prefix_lookup_mc.Routes.Narrow.{Narrow}
use prefix_lookup_mc.Routes.Updates.{removes}
use prefix_lookup_mc.Tbm.{InitNode}
use prefix_lookup_mc.Tbm.Delete.{uncover_child, uncover_ptr}
use prefix_lookup_mc.Tbm.Laws.{IsTabled}
use prefix_lookup_mc.Tbm.Near.{
  Near, near_below, near_below_short, near_below-le, near_below-none, near_below-route, with_length,
  hi_of, nhi_of, rule_of,
}
use prefix_lookup_mc.Tbm.Entry.{near, under, under_long_routes, IsPtr, IsChild, IsEntry}
use prefix_lookup_mc.Tbm.Changes.{under_short, near_short}
use prefix_lookup_mc.Tbm.Zero.{zero_ip-Masked, zero_ip-Holds}
use prefix_lookup_mc.Tbm.Below.{near-some}
use prefix_lookup_mc.Tbm.Emptied.{emptied-IsPtr}
use prefix_lookup_mc.Tbm.Replace.{replaces}

-- The infos that a destroy_nhi is called with, once.
abbrev pub called : Bool → Nhi → List Nhi
called destroy v = if destroy then v ∷ [] else []

module _ (a : Address) (word : IsWord a) (tabled : IsTabled a word) (f : Routes) (bits c : ℕ)
    (v : Nhi) (short : c ≤ 13) (some_bits : 0 < c) (there : f bits c ≡ some v)
    (no_default : (b : ℕ) → f b 0 ≡ none) (narrow : Narrow a (update f bits c none)) where
  abbrev g : Routes
  g = update f bits c none

  -- The route that takes its place.
  abbrev over : Near
  over = near_below f bits c c

  module _ (i : ℕ) (covered : i / 2 ^ (13 - c) ≡ bits)
      (shown : ltb c (hi_of (near f i)) ≡ false) where
    near_over : near g i ≡ over
    near_over =
        near_short f bits c none short i covered
        ∙ rw shown (near_below_short f i 13 c c short (omega arith))
        ∙ ap (λ (t : ℕ). near_below f t c c) covered

    same_under : (b k : ℕ) → 0 < k → b < 2 ^ k → under f i b k ≡ g (i * 2 ^ k + b) (13 + k)
    same_under b k l l' = under_long_routes f i b k l ∙ under_short f bits c none short i b k l

    own_route : f (i / 2 ^ (13 - c)) c ≡ some v
    own_route = ap (λ (t : ℕ). f t c) covered ∙ there

    own_long : c ≤ hi_of (near f i)
    own_long = near_below-le f i 13 14 c (omega arith) own_route

    -- The deleted route is the entry's own.
    own_near : (o : Near) → near f i ≡ o → o ≡ some (c, v)
    own_near none e =
        let none_here : hi_of (near f i) ≡ 0 = ap hi_of e in
        absurd (omega (arith, own_long, none_here, some_bits))
    own_near (some (k, w)) e =
        let length : hi_of (near f i) ≡ k = ap hi_of e in
        let same : k ≡ c = ground (arith, own_long, length, shown) in
        let here : f (i / 2 ^ (13 - k)) k ≡ some w = near_below-route f i 13 14 k w e in
        let rule : some w ≡ some v =
          sym here ∙ ap (λ (s : ℕ). f (i / 2 ^ (13 - s)) s) same ∙ own_route in
        ap₂ (λ s o. with_length s o none) same rule

    pub own_rule : rule_of (near f i) ≡ some v
    own_rule = ap rule_of (own_near (near f i) refl)

    pub own_nhi : nhi_of (near f i) ≡ v
    own_nhi = ap nhi_of (own_near (near f i) refl)

    module _ (m : Mm) (n : InitNode) (destroy : Bool) where
      pub uncover_ptr_lem :
          IsPtr a word f i n → IsPtr a word g i (uncover_ptr a n (hi_of over) (nhi_of over))
      unfolding uncover_ptr
      uncover_ptr_lem p = elim (Bool-cases (hi_of over == 0)) [
        | inl none_left ↦
            let gone : over ≡ none =
              near_below-none f bits c c no_default (ground (arith, none_left)) in
            rw none_left (record {
              flags = rw (near_over, gone) refl;
              rule = rw (near_over, gone) refl;
              no_rules = p.no_rules;
              shape = p.shape;
              none_under = none_under';
            })
        | inr some_left ↦ rw some_left (record {
          flags = rw near_over refl;
          rule = rw near_over refl;
          no_rules = p.no_rules;
          shape = p.shape;
          none_under = none_under';
        })
      ]
        where
          none_under' : (b k : ℕ) → 0 < k → b < 2 ^ k → g (i * 2 ^ k + b) (13 + k) ≡ none
          none_under' b k l l' =
              sym (under_short f bits c none short i b k l) ∙ p.none_under b k l l'

      pub uncover_child_lem :
          IsChild a word f i n
          → Gives
              (λ (r : InitNode × Mm × List Nhi). IsEntry a word g i r.0 × (r.2 ≡ called destroy v))
              (uncover_child a m n (hi_of over) (nhi_of over) destroy)
      unfolding uncover_child
      uncover_child_lem e =
          let masked = zero_ip-Masked a word tabled in
          let held : under f i (leading a word a.zero_ip 0) 0 ≡ some v = unfold under in own_rule in
          elim (Bool-cases (hi_of over == 0)) [
            | inl none_left ↦
                let gone : over ≡ none =
                  near_below-none f bits c c no_default (ground (arith, none_left)) in
                let del =
                  removes a word a.levels m n.e a.zero_ip 0 (under f i) e.shape masked (omega arith)
                    e.holds v destroy held in
                let holds =
                  zero_ip-Holds a word tabled (under f i) g i none same_under
                    (rw (near_over, gone) refl) a.levels del.after del.holds in
                rw (none_left, del.returns)
                  (elim (Bool-cases (is_empty del.after)) [
                    | inl empty ↦ rw empty (
                        gives (
                          inl (
                              emptied-IsPtr a word tabled g i del.after del.shape holds narrow
                                empty),
                          refl,
                        ))
                    | inr left ↦ rw left (
                        gives (
                          inr (record {
                            flags = rw (near_over, gone) refl;
                            shape = del.shape;
                            holds = holds;
                          }),
                          refl,
                        ))
                  ])
            | inr some_left ↦
                let rule : rule_of over ≡ some (nhi_of over) =
                  near-some over (ground (arith, some_left)) in
                let rep =
                  replaces a word a.levels m n.e a.zero_ip (under f i) e.shape masked e.holds v held
                    (nhi_of over) destroy in
                rw (some_left, rep.returns)
                  (gives (
                    inr (record {
                      flags = rw near_over refl;
                      shape = rep.shape;
                      holds =
                          zero_ip-Holds a word tabled (under f i) g i (some (nhi_of over))
                            same_under (rw near_over rule) a.levels rep.after rep.holds;
                    }),
                    refl,
                  ))
          ]
