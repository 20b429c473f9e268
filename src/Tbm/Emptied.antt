-- ===== src/Tbm/Emptied.antt =====
-- An entry whose trie the deletion of a prefix has left empty, and the entry that takes over a shorter
-- prefix.
use native.Mathlib.Nat.{mul-div_left, mul-lt-mul_of_pos_right}
use native.Mathlib.Decide.{dec_lt}
use prefix_lookup_mc.Base.{
  ℕ, ◌+◌, ◌-◌, ◌*◌, ◌/◌, ◌^◌, ◌≤◌, ◌<◌, ◌≡◌, refl, sym, ap, ◌∙◌, arith, true, none, some,
}
use prefix_lookup_mc.Address.{Address}
use prefix_lookup_mc.Address.Word.{IsWord, pow-pos, pow-split}
use prefix_lookup_mc.Node.Nodes.{Node, external, internal}
use prefix_lookup_mc.Trie.{is_empty}
use prefix_lookup_mc.Trie.Place.{leading}
use prefix_lookup_mc.Trie.Shape.{IsTrie}
use prefix_lookup_mc.Lookup.{null_nhi}
use prefix_lookup_mc.Routes.{Routes, Holds}
use prefix_lookup_mc.Routes.Narrow.{Narrow}
use prefix_lookup_mc.Routes.Change.{no_bits-Holds}
use prefix_lookup_mc.Tbm.{with_ptr}
use prefix_lookup_mc.Tbm.Laws.{IsTabled}
use prefix_lookup_mc.Tbm.Near.{Near, rule_of}
use prefix_lookup_mc.Tbm.Entry.{near, under, under_long_routes, IsPtr}
use prefix_lookup_mc.Tbm.Below.{with_ptr-same}

rule_of-none : (o : Near) → rule_of o ≡ none → o ≡ none
rule_of-none none e = refl
rule_of-none (some r) e = absurd (ground (arith, e))

module _ (a : Address) (word : IsWord a) (tabled : IsTabled a word) where
  -- Every bits are the leading ones of an address.
  pub some_leading :
      (bits k : ℕ)
      → bits < 2 ^ k
      → k ≤ a.width
      → (ip : a.Ip) × word.IsIp ip × (leading a word ip k ≡ bits)
  some_leading bits k l l' =
      let x = bits * 2 ^ (a.width - k) in
      let whole : 2 ^ a.width ≡ 2 ^ k * 2 ^ (a.width - k) =
        pow-split a.width k (a.width - k) (omega arith) in
      let low : x < 2 ^ a.width =
        omega (arith, whole, mul-lt-mul_of_pos_right l (pow-pos (a.width - k))) in
      (
        tabled.at x,
        tabled.at-IsIp x low,
        ap (λ (t : ℕ). t / 2 ^ (a.width - k)) (tabled.at-value x low)
            ∙ mul-div_left bits (pow-pos (a.width - k)),
      )

  module _ (f : Routes) (i : ℕ) (n : Node) (shape : IsTrie a.levels n)
      (holds : Holds a word a.levels n (under f i)) (narrow : Narrow a f)
      (empty : is_empty n ≡ true) where
    no_children : external n ≡ 0
    no_children = ground (arith, empty)

    nothing_in : internal n ≡ 0
    nothing_in = ground (arith, empty)

    holds_none : (bits k : ℕ) → bits < 2 ^ k → k ≤ a.width → under f i bits k ≡ none
    holds_none bits k l l' =
        let (ip, fits, e) = some_leading bits k l l' in
        let room : k < (a.levels + 1) * 6 = omega (arith, tabled.deep) in
        ap (λ t. under f i t k) (sym e)
        ∙ sym (holds ip k fits room)
        ∙ no_bits-Holds a word a.levels n no_children nothing_in ip k fits room

    pub emptied-near : near f i ≡ none
    unfolding under
    emptied-near = rule_of-none (near f i) (holds_none 0 0 (omega arith) (omega arith))

    pub emptied-IsPtr : IsPtr a word f i (record { flags = 0; e = with_ptr n null_nhi })
    unfolding Narrow
    emptied-IsPtr = record {
      flags = rw emptied-near refl;
      rule = rw emptied-near refl;
      no_rules = nothing_in;
      shape = rw (with_ptr-same n no_children) shape;
      none_under = λ bits k l l'. elim (dec_lt a.width k) [
        | yes beyond ↦ narrow (i * 2 ^ k + bits) (13 + k) (omega arith)
        | no within ↦ sym (under_long_routes f i bits k l) ∙ holds_none bits k l' (omega arith)
      ];
    }
