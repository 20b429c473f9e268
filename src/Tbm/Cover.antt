-- ===== src/Tbm/Cover.antt =====
-- `tbm_insert_prefix` of a prefix of at most 13 bits: the entries that it covers.
use prefix_lookup_mc.Base.{
  ℕ, zero, suc, ◌+◌, ◌-◌, ◌/◌, ◌^◌, ◌≤◌, ◌<◌, ◌≡◌, refl, sym, ap, ◌∙◌, arith, true, false, some,
  ltb, inl, inr, Bool-cases, Gives, gives, Gives-bind,
}
use prefix_lookup_mc.Address.{Address}
use prefix_lookup_mc.Address.Word.{IsWord}
use prefix_lookup_mc.Mm.{Mm}
use prefix_lookup_mc.Node.Nodes.{Nhi}
use prefix_lookup_mc.Routes.{Routes, update}
use prefix_lookup_mc.Routes.Updates.{inserts}
use prefix_lookup_mc.Tbm.{
  InitNode, has_child, prefix_hi, TbmTrie, set_entry, cover_entry, cover_loop, table_size,
}
use prefix_lookup_mc.Tbm.Laws.{IsTabled}
use prefix_lookup_mc.Tbm.Near.{hi_of, rule_of}
use prefix_lookup_mc.Tbm.Entry.{
  near, under, under_long_routes, IsPtr, IsChild, IsEntry, has_child_of_ptr, has_child_of_child,
  prefix_hi_of_ptr, prefix_hi_of_child,
}
use prefix_lookup_mc.Tbm.Changes.{Agrees-IsEntry, under_short, short-Agrees_hidden, near_short}
use prefix_lookup_mc.Tbm.Zero.{zero_ip-Masked, zero_ip-Holds}
use prefix_lookup_mc.Tbm.Sweep.{Sweep, Swept, set_entry-Sweep}

module _ (a : Address) (word : IsWord a) (f : Routes) (i : ℕ) (n : InitNode) where
  pub prefix_hi-IsEntry : IsEntry a word f i n → prefix_hi n ≡ hi_of (near f i)
  prefix_hi-IsEntry (inl p) = prefix_hi_of_ptr n (hi_of (near f i)) p.flags
  prefix_hi-IsEntry (inr c) = prefix_hi_of_child n (hi_of (near f i)) c.flags

module _ (a : Address) (word : IsWord a) (tabled : IsTabled a word) (f : Routes) (bits c : ℕ)
    (v : Nhi) (short : c ≤ 13) where
  abbrev g : Routes
  g = update f bits c (some v)

  module _ (i : ℕ) (m : Mm) (n : InitNode) (covered : i / 2 ^ (13 - c) ≡ bits) where
    abbrev Covered : Type 0
    Covered = Gives (λ (r : InitNode × Mm). IsEntry a word g i r.0) (cover_entry a m n c v)

    module _ (shown : ltb c (hi_of (near f i)) ≡ false) where
      near_shown : near g i ≡ some (c, v)
      near_shown = near_short f bits c (some v) short i covered ∙ rw shown refl

      cover_ptr : IsPtr a word f i n → Covered
      unfolding cover_entry
      cover_ptr p =
          let hi : prefix_hi n ≡ hi_of (near f i) = prefix_hi_of_ptr n (hi_of (near f i)) p.flags in
          let no_child : has_child n ≡ false = has_child_of_ptr n (hi_of (near f i)) p.flags in
          rw (hi, shown, no_child)
            (gives (
              inl (record {
                flags = rw near_shown refl;
                rule = rw near_shown refl;
                no_rules = p.no_rules;
                shape = p.shape;
                none_under = λ b k l l'.
                    sym (under_short f bits c (some v) short i b k l) ∙ p.none_under b k l l';
              })))

      cover_child : IsChild a word f i n → Covered
      unfolding cover_entry
      cover_child e =
          let hi : prefix_hi n ≡ hi_of (near f i) =
            prefix_hi_of_child n (hi_of (near f i)) e.flags in
          let child : has_child n ≡ true = has_child_of_child n (hi_of (near f i)) e.flags in
          let ins =
            inserts a word a.levels m n.e a.zero_ip 0 (under f i) e.shape
              (zero_ip-Masked a word tabled) (omega arith) e.holds v in
          rw (hi, shown, child, ins.returns)
            (gives (
              inr (record {
                flags = rw near_shown refl;
                shape = ins.shape;
                holds =
                    zero_ip-Holds a word tabled (under f i) g i (some v)
                      (λ b k l l'.
                        under_long_routes f i b k l ∙ under_short f bits c (some v) short i b k l)
                      (ap rule_of near_shown) a.levels ins.after ins.holds;
              })))

    cover_entry_lem : IsEntry a word f i n → Covered
    unfolding cover_entry
    cover_entry_lem e = elim (Bool-cases (ltb c (hi_of (near f i)))) [
      | inl hidden ↦
          let hi : prefix_hi n ≡ hi_of (near f i) = prefix_hi-IsEntry a word f i n e in
          rw (hi, hidden)
            (gives (
              Agrees-IsEntry a word tabled f g i n
                (short-Agrees_hidden f bits c (some v) short i hidden) e))
      | inr shown ↦ elim e [ inl p ↦ cover_ptr shown p | inr q ↦ cover_child shown q ]
    ]

  pub cover_loop_lem :
      (rounds index : ℕ) (t : TbmTrie)
      → index + rounds ≤ 8192
      → ((i : ℕ) → index ≤ i → i < index + rounds → i / 2 ^ (13 - c) ≡ bits)
      → Sweep a word tabled f g index t.init
      → Gives (Swept a word tabled f g (index + rounds) t.up_aux) (cover_loop a rounds t index c v)
  unfolding cover_loop
  cover_loop_lem zero index t room all s =
      let same : index + 0 ≡ index = omega arith in
      rw same (gives (record { sweep = s; same_up = refl }))
  cover_loop_lem (suc rounds) index t room all s =
      let inside : ltb index table_size ≡ true = ground (arith, room) in
      let same : index + suc rounds ≡ index + 1 + rounds = omega arith in
      rw inside (
        Gives-bind
          (cover_entry_lem index t.m (t.init index) (all index (omega arith) (omega arith))
            (s.todo index (omega arith) (omega arith)))
          λ r e. rw same (
            cover_loop_lem rounds (index + 1)
              (record t { init = set_entry t.init index r.0; m = r.1 }) (omega arith)
              (λ i l l'. all i (omega arith) (omega arith))
              (set_entry-Sweep a word tabled f g index t.init r.0 s e)))
