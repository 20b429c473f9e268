-- ===== src/Tbm/Below.antt =====
-- `tbm_insert_prefix` of a prefix of more than 13 bits: the trie of its entry.
use prefix_lookup_mc.Base.{
  ℕ, zero, suc, ◌+◌, ◌-◌, ◌*◌, ◌^◌, bit_or, ◌<◌, ◌≡◌, refl, sym, ap, ◌∙◌, arith, true, false,
  Option, none, some, ltb, if◌then◌else◌, inl, inr, Bool-cases, Gives, gives, Gives-bind,
}
use prefix_lookup_mc.Address.{Address}
use prefix_lookup_mc.Address.Word.{IsWord, Masked}
use prefix_lookup_mc.Mm.{Mm}
use prefix_lookup_mc.Node.Nodes.{Node, node, Nhi, external}
use prefix_lookup_mc.Trie.Place.{leading}
use prefix_lookup_mc.Trie.Shape.{IsTrie}
use prefix_lookup_mc.Lookup.{null_nhi}
use prefix_lookup_mc.Routes.{Routes, no_routes, update, Holds}
use prefix_lookup_mc.Routes.Change.{no_bits-Holds}
use prefix_lookup_mc.Routes.Updates.{inserts}
use prefix_lookup_mc.Tbm.{
  InitNode, ptr, with_ptr, has_child, prefix_hi, child_flags, open_entry, insert_below,
}
use prefix_lookup_mc.Tbm.Laws.{IsTabled, rest_of_ip, rest-Masked, leading-lt}
use prefix_lookup_mc.Tbm.Near.{Near, hi_of, nhi_of, rule_of, near_below-none}
use prefix_lookup_mc.Tbm.Entry.{
  near, under, IsPtr, IsEntry, has_child_of_ptr, has_child_of_child, prefix_hi_of_ptr, even_or,
}
use prefix_lookup_mc.Tbm.Changes.{Holds-ext, long_update, near_long, under_long}
use prefix_lookup_mc.Tbm.Zero.{zero_ip-Masked, zero_ip-Holds}

pub with_ptr-same : (e : Node) → external e ≡ 0 → with_ptr e 0 ≡ e
with_ptr-same (node x y z) h = ap (λ (t : ℕ). node t y z) (sym h)

-- A nearest route with a length has a rule.
pub near-some : (o : Near) → 0 < hi_of o → rule_of o ≡ some (nhi_of o)
near-some none l = absurd (omega arith)
near-some (some (k, v)) l = refl

-- Nothing in range, nor under it.
pub under-none :
    (f : Routes) (i : ℕ)
    → near f i ≡ none
    → ((bits k : ℕ) → 0 < k → bits < 2 ^ k → f (i * 2 ^ k + bits) (13 + k) ≡ none)
    → (bits k : ℕ) → bits < 2 ^ k
    → no_routes bits k ≡ under f i bits k
unfolding under
under-none f i none_near none_below bits zero l = rw none_near refl
under-none f i none_near none_below bits (suc k) l = sym (none_below bits (suc k) (omega arith) l)

module _ (a : Address) (word : IsWord a) (tabled : IsTabled a word) (f : Routes) (j : ℕ)
    (no_default : (bits : ℕ) → f bits 0 ≡ none) (m : Mm) (n : InitNode) where
  abbrev Opened : Type 0
  Opened =
      Gives (λ (r : Node × Mm). IsTrie a.levels r.0 × Holds a word a.levels r.0 (under f j))
        (open_entry a m n)

  open_ptr : IsPtr a word f j n → Opened
  unfolding open_entry
  open_ptr p =
      let no_child : has_child n ≡ false = has_child_of_ptr n (hi_of (near f j)) p.flags in
      let hi : prefix_hi n ≡ hi_of (near f j) = prefix_hi_of_ptr n (hi_of (near f j)) p.flags in
      let nothing : Holds a word a.levels (with_ptr n.e null_nhi) no_routes =
        no_bits-Holds a word a.levels (with_ptr n.e null_nhi) refl p.no_rules in
      let below : (o : Option Nhi) (e : Node)
          → rule_of (near f j) ≡ o
          → Holds a word a.levels e (update no_routes (leading a word a.zero_ip 0) 0 o)
          → Holds a word a.levels e (under f j) =
        λ o e now.
          zero_ip-Holds a word tabled no_routes f j o (λ b k l l'. sym (p.none_under b k l l')) now
            a.levels e in
      elim (Bool-cases (ltb 0 (hi_of (near f j)))) [
        | inl some_rule ↦
            let ins =
              inserts a word a.levels m (with_ptr n.e null_nhi) a.zero_ip 0 no_routes p.shape
                (zero_ip-Masked a word tabled) (omega arith) nothing (ptr n) in
            rw (no_child, hi, some_rule, ins.returns)
              (gives (
                ins.shape,
                below (some (ptr n)) ins.after
                    (near-some (near f j) (ground (arith, some_rule)) ∙ ap some (sym p.rule))
                    ins.holds,
              ))
        | inr no_rule ↦
            let none_near : near f j ≡ none =
              near_below-none f j 13 14 no_default (ground (arith, no_rule)) in
            let same : with_ptr n.e null_nhi ≡ n.e =
              with_ptr-same n.e (p.rule ∙ rw none_near refl) in
            rw (no_child, hi, no_rule)
              (gives (
                rw (← same) p.shape,
                Holds-ext a word tabled a.levels n.e no_routes (under f j)
                    (under-none f j none_near p.none_under) (rw (← same) nothing),
              ))
      ]

  open_entry_lem : IsEntry a word f j n → Opened
  unfolding open_entry
  open_entry_lem (inl p) = open_ptr p
  open_entry_lem (inr c) =
      let child : has_child n ≡ true = has_child_of_child n (hi_of (near f j)) c.flags in
      rw child (gives (c.shape, c.holds))

  opened_flags :
      IsEntry a word f j n
      → (if has_child n then n.flags else bit_or n.flags 1) ≡ child_flags (hi_of (near f j))
  opened_flags (inl p) =
      let no_child : has_child n ≡ false = has_child_of_ptr n (hi_of (near f j)) p.flags in
      rw no_child (rw (p.flags) (even_or (hi_of (near f j))))
  opened_flags (inr c) =
      let child : has_child n ≡ true = has_child_of_child n (hi_of (near f j)) c.flags in
      rw child c.flags

  module _ (ip : a.Ip) (c : ℕ) (v : Nhi) (long : 0 < c) (masked : Masked a word ip (13 + c)) where
    -- The bits behind the index.
    abbrev pub rest_bits : ℕ
    rest_bits = leading a word (rest_of_ip a word tabled ip) c

    pub insert_below_lem :
        IsEntry a word f j n
        → Gives
            (λ (r : InitNode × Mm).
              IsEntry a word (update f (j * 2 ^ c + rest_bits) (13 + c) (some v)) j r.0)
            (insert_below a m n ip (13 + c) v)
    unfolding insert_below
    insert_below_lem e =
        let length : 13 + c - 13 ≡ c = omega arith in
        rw length (
          Gives-bind (open_entry_lem e) λ r opened.
            let rest = rest-Masked a word tabled ip c masked.fits masked.short masked in
            let ins =
              inserts a word a.levels r.1 r.0 (rest_of_ip a word tabled ip) c (under f j) (opened.0)
                rest (omega (arith, tabled.deep, masked.short)) (opened.1) v in
            let low : rest_bits < 2 ^ c =
              leading-lt a word tabled (rest_of_ip a word tabled ip) c rest.fits in
            let g = long_update f j rest_bits c (some v) long low in
            rw ins.returns (
              gives (
                inr (record {
                  flags =
                      opened_flags e
                      ∙ ap (λ t. child_flags (hi_of t))
                          (sym (near_long f j rest_bits c (some v) long low j));
                  shape = ins.shape;
                  holds =
                      Holds-ext a word tabled a.levels ins.after
                        (update (under f j) rest_bits c (some v)) (under g j)
                        (under_long f j rest_bits c (some v) long low) ins.holds;
                }))))
