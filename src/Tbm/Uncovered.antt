-- ===== src/Tbm/Uncovered.antt =====
-- The loop of `tbm_delete_prefix` over the entries that a short prefix covers.
use prefix_lookup_mc.Base.{
  ℕ, zero, suc, ◌+◌, ◌-◌, ◌/◌, ◌%◌, ◌^◌, ◌≤◌, ◌<◌, ◌≡◌, refl, ap, ◌∙◌, arith, Bool, true, false,
  Option, none, some, List, [], ◌∷◌, ◌++◌, ltb, if◌then◌else◌, inl, inr, Bool-cases, Gives, gives,
  Gives-bind, u8_mod, ◌⊎◌,
}
use prefix_lookup_mc.Address.{Address}
use prefix_lookup_mc.Address.Word.{IsWord}
use prefix_lookup_mc.Mm.{Mm}
use prefix_lookup_mc.Node.Nodes.{Node, Nhi}
use prefix_lookup_mc.Routes.{Routes, update}
use prefix_lookup_mc.Routes.Narrow.{Narrow}
use prefix_lookup_mc.Tbm.{InitNode, ptr, has_child, prefix_hi, set_entry, table_size}
use prefix_lookup_mc.Tbm.Delete.{DeleteState, uncover_ptr, uncover_entry, uncover_loop}
use prefix_lookup_mc.Tbm.Laws.{IsTabled}
use prefix_lookup_mc.Tbm.Near.{Near, near_below, near_below-lt, hi_of, nhi_of}
use prefix_lookup_mc.Tbm.Entry.{near, IsEntry, has_child_of_ptr, has_child_of_child}
use prefix_lookup_mc.Tbm.Changes.{Agrees-IsEntry, short-Agrees_hidden}
use prefix_lookup_mc.Tbm.Sweep.{Swept, set_entry-Sweep, keep-Sweep}
use prefix_lookup_mc.Tbm.Cover.{prefix_hi-IsEntry}
use prefix_lookup_mc.Tbm.Uncover.{called, own_nhi, uncover_ptr_lem, uncover_child_lem}

-- What destroy_nhi has been called with: nothing so far, or the deleted route's info, once.
abbrev pub Paid : Bool → Nhi → DeleteState → Type 0
Paid destroy v s =
    ((s.destroyed ≡ []) × (s.destroy ≡ destroy))
    ⊎ ((s.destroyed ≡ called destroy v) × (s.destroy ≡ false))

called-append : (destroy : Bool) (v : Nhi) → called destroy v ++ [] ≡ called destroy v
called-append true v = refl
called-append false v = refl

Paid-once :
    (destroy : Bool) (v : Nhi) (s : DeleteState) (gone : List Nhi)
    → Paid destroy v s
    → gone ≡ called s.destroy v
    → s.destroyed ++ gone ≡ called destroy v
Paid-once destroy v s gone (inl (e, e')) g = rw (e, g, e') refl
Paid-once destroy v s gone (inr (e, e')) g = rw (e, g, e') (called-append destroy v)

module _ (a : Address) (word : IsWord a) (tabled : IsTabled a word) (f : Routes) (bits c : ℕ)
    (v : Nhi) (short : c ≤ 13) (some_bits : 0 < c) (there : f bits c ≡ some v)
    (no_default : (b : ℕ) → f b 0 ≡ none) (narrow : Narrow a (update f bits c none)) where
  abbrev after : Routes
  after = update f bits c none

  abbrev pub place : Near
  place = near_below f bits c c

  module _ (index : ℕ) (s : DeleteState) (up : Node) (covered : index / 2 ^ (13 - c) ≡ bits)
      (room : index < 8192) (swept : Swept a word tabled f after index up s.trie) (destroy : Bool)
      (paid : Paid destroy v s) where
    abbrev Next : Option DeleteState → Type 0
    Next =
        Gives λ (s' : DeleteState).
          Swept a word tabled f after (index + 1) up s'.trie × Paid destroy v s'

    n : InitNode
    n = s.trie.init index

    hi_byte : IsEntry a word f index n → prefix_hi n % u8_mod ≡ hi_of (near f index)
    hi_byte e =
        let low = near_below-lt f index 13 14 (omega arith) in
        omega (arith, prefix_hi-IsEntry a word f index n e, low)

    replace_entry :
        (n' : InitNode) (m : Mm) (gone : List Nhi)
        → IsEntry a word after index n'
        → gone ≡ called s.destroy v
        → Next (
            some (record {
              trie = record (s.trie) { init = set_entry s.trie.init index n'; m = m };
              destroy = false;
              destroyed = s.destroyed ++ gone;
            }))
    replace_entry n' m gone e g = gives (
      record {
        sweep = set_entry-Sweep a word tabled f after index s.trie.init n' swept.sweep e;
        same_up = swept.same_up;
      },
      inr (Paid-once destroy v s gone paid g, refl),
    )

    uncover_shown :
        ltb c (hi_of (near f index)) ≡ false
        → IsEntry a word f index n
        → Next (uncover_entry a s index c (hi_of place) (nhi_of place))
    unfolding uncover_entry n
    uncover_shown shown (inl p) =
        let no_child : has_child n ≡ false = has_child_of_ptr n (hi_of (near f index)) p.flags in
        let own : ptr n ≡ v =
          p.rule
          ∙ own_nhi a word tabled f bits c v short some_bits there no_default narrow index covered
              shown in
        rw (hi_byte (inl p), shown, no_child)
          (replace_entry (uncover_ptr a n (hi_of place) (nhi_of place)) s.trie.m
            (if s.destroy then ptr n ∷ [] else [])
            (inl (
              uncover_ptr_lem a word tabled f bits c v short some_bits there no_default narrow index
                covered shown s.trie.m n s.destroy p))
            (ap (called s.destroy) own))
    uncover_shown shown (inr e) =
        let child : has_child n ≡ true = has_child_of_child n (hi_of (near f index)) e.flags in
        rw (hi_byte (inr e), shown, child)
          (Gives-bind
            (uncover_child_lem a word tabled f bits c v short some_bits there no_default narrow
              index covered shown s.trie.m n s.destroy e)
            λ r e'. replace_entry r.0 r.1 r.2 e'.0 e'.1)

    uncover_entry_lem : Next (uncover_entry a s index c (hi_of place) (nhi_of place))
    unfolding uncover_entry n
    uncover_entry_lem =
        let e : IsEntry a word f index n = swept.sweep.todo index room (omega arith) in
        elim (Bool-cases (ltb c (hi_of (near f index)))) [
          | inr shown ↦ uncover_shown shown e
          | inl hidden ↦
              rw (hi_byte e, hidden)
                (gives (
                  record {
                    sweep = keep-Sweep a word tabled f after index s.trie.init swept.sweep (
                        Agrees-IsEntry a word tabled f after index n
                          (short-Agrees_hidden f bits c none short index hidden) e);
                    same_up = swept.same_up;
                  },
                  paid,
                ))
        ]

  pub uncover_loop_lem :
      (rounds index : ℕ) (s : DeleteState) (up : Node) (destroy : Bool)
      → index + rounds ≤ 8192
      → ((i : ℕ) → index ≤ i → i < index + rounds → i / 2 ^ (13 - c) ≡ bits)
      → Swept a word tabled f after index up s.trie
      → Paid destroy v s
      → Gives
          (λ (s' : DeleteState).
            Swept a word tabled f after (index + rounds) up s'.trie × Paid destroy v s')
          (uncover_loop a rounds s index c (hi_of place) (nhi_of place))
  unfolding uncover_loop
  uncover_loop_lem zero index s up destroy room all swept paid =
      let same : index + 0 ≡ index = omega arith in rw same (gives (swept, paid))
  uncover_loop_lem (suc rounds) index s up destroy room all swept paid =
      let inside : ltb index table_size ≡ true = ground (arith, room) in
      let same : index + suc rounds ≡ index + 1 + rounds = omega arith in
      rw (inside, same)
        (Gives-bind
          (uncover_entry_lem index s up (all index (omega arith) (omega arith)) (omega arith) swept
            destroy paid)
          λ s' next.
            uncover_loop_lem rounds (index + 1) s' up destroy (omega arith)
              (λ i l l'. all i (omega arith) (omega arith)) next.0 next.1)
