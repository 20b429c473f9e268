-- ===== src/Trie/Pruned.antt =====
-- No child of a trie is an empty node: `update_nodes` takes such children away on its way up.
use prefix_lookup_mc.Base.{
  ℕ, zero, suc, ◌<◌, ◌≡◌, ◌≢◌, sym, ap, ◌∙◌, arith, true, false, Option, none, some, List, [], ◌∷◌,
  Bool-cases, inl, inr, ◌==◌, ◌>>=◌, set, remove_at,
}
use prefix_lookup_mc.Bits.Digits.{bit, ones_from, clear_bit, zero-bit, bit_ext}
use prefix_lookup_mc.Bits.Packed.{
  entry_at, entry_at_lem, entry_at-set_self, entry_at-set_ne, entry_at-remove_self,
  entry_at-remove_ne,
}
use prefix_lookup_mc.Node.Nodes.{Node, Nhi, external, internal, rules, children, zero_node}
use prefix_lookup_mc.Node.Layout.{build, child_at, child_at-build}
use prefix_lookup_mc.Trie.{is_empty}
use prefix_lookup_mc.Trie.Path.{find, AreStrides}
use prefix_lookup_mc.Trie.Shape.{IsTrie, IsTrie-node}
use prefix_lookup_mc.Trie.Child.{set_child, child_lem}
use prefix_lookup_mc.Trie.Drop.{drop_child, find-is_empty}

abbrev pub IsPruned : ℕ → Node → Type 0
IsPruned zero n = Unit
IsPruned (suc d) n =
    (s : ℕ) → s < 64 → (c : Node) → child_at n s ≡ some c → (is_empty c ≡ false) × IsPruned d c

-- The children but the one at `s`.
abbrev pub ArePruned : ℕ → Node → ℕ → Type 0
ArePruned d n s =
    (t : ℕ)
    → t < 64
    → s ≢ t
    → (c : Node) → child_at n t ≡ some c
    → (is_empty c ≡ false) × IsPruned d c

pub zero_node-IsPruned : (d : ℕ) → IsPruned d zero_node
zero_node-IsPruned zero = tt
zero_node-IsPruned (suc d) = λ s l c e.
    let gone : ◌≡◌ {A = Option Node} none (some c) = rw zero-bit at e in absurd (ground arith)

pub same_children-IsPruned :
    (d : ℕ) (n : Node) (int : ℕ) (rs : List Nhi)
    → IsPruned d n
    → IsPruned d (build (external n) int rs (children n))
same_children-IsPruned zero n int rs h = tt
same_children-IsPruned (suc d) n int rs h =
    λ s l c e. h s l c (sym (child_at-build (external n) int rs (children n) s) ∙ e)

pub same_node : {x y : Node} → ◌≡◌ {A = Option Node} (some x) (some y) → x ≡ y
same_node e = ground arith

module _ (d : ℕ) (n : Node) (h : IsTrie (suc d) n) (s : ℕ) (low : s < 64)
    (on : bit (external n) s ≡ true) (others : ArePruned d n s) where
  pub set_child-IsPruned :
      (c' : Node) → is_empty c' ≡ false → IsPruned d c' → IsPruned (suc d) (set_child n s c')
  set_child-IsPruned c' full pruned t l c e =
      let cs = set (children n) (ones_from 64 (external n) (suc s)) c' in
      let at_t : entry_at (external n) cs t ≡ some c =
        sym (child_at-build (external n) (internal n) (rules n) cs t) ∙ e in
      elim (Bool-cases (s == t)) [
        | inl same ↦
            let here : s ≡ t = ground arith in
            let is_c : c' ≡ c = same_node (
              sym (entry_at-set_self (external n) (children n) h.0.is_node.has_children s low on c')
              ∙ ap (entry_at (external n) cs) here
              ∙ at_t) in
            rw (← is_c) (full, pruned)
        | inr apart ↦
            let ne : s ≢ t = λ same. absurd (ground (arith, apart, same)) in
            others t l ne c (
              sym (
                entry_at-set_ne (external n) (children n) h.0.is_node.has_children s low on c' t l
                  ne)
              ∙ at_t)
      ]

  pub set_child-ArePruned : (c' : Node) → ArePruned d (set_child n s c') s
  set_child-ArePruned c' t l ne c e =
      let cs = set (children n) (ones_from 64 (external n) (suc s)) c' in
      others t l ne c (
        sym (entry_at-set_ne (external n) (children n) h.0.is_node.has_children s low on c' t l ne)
        ∙ sym (child_at-build (external n) (internal n) (rules n) cs t)
        ∙ e)

  pub drop_child-IsPruned : IsPruned (suc d) (drop_child n s)
  drop_child-IsPruned t l c e =
      let cs = remove_at (ones_from 64 (external n) (suc s)) (children n) in
      let ext = clear_bit (external n) s in
      let at_t : entry_at ext cs t ≡ some c =
        sym (child_at-build ext (internal n) (rules n) cs t) ∙ e in
      elim (Bool-cases (s == t)) [
        | inl same ↦
            let here : s ≡ t = ground arith in
            let gone : ◌≡◌ {A = Option Node} none (some c) =
              sym (entry_at-remove_self (external n) (children n) h.0.is_node.has_children s low on)
              ∙ ap (entry_at ext cs) here
              ∙ at_t in
            absurd (ground arith)
        | inr apart ↦
            let ne : s ≢ t = λ same. absurd (ground (arith, apart, same)) in
            others t l ne c (
              sym (
                entry_at-remove_ne (external n) (children n) h.0.is_node.has_children s low on t l
                  ne)
              ∙ at_t)
      ]

pub full_lem :
    (n : Node) (path : List ℕ) (p : ℕ) {v : Nhi} → find n path p ≡ some v → is_empty n ≡ false
full_lem n path p {v} found = elim (Bool-cases (is_empty n)) [
  | inr full ↦ full
  | inl empty ↦
      let both : ◌≡◌ {A = Option Nhi} none (some v) = sym (find-is_empty n path p empty) ∙ found in
      absurd (ground arith)
]

no_rules :
    (d : ℕ) (n : Node) → IsTrie d n → ((p : ℕ) → p < 63 → find n [] p ≡ none) → internal n ≡ 0
unfolding find
no_rules d n h nothing =
    let node' = IsTrie-node d n h in
    bit_ext 63 (internal n) 0 node'.no_last (omega arith) (λ p l.
      elim (Bool-cases (bit (internal n) p)) [
        | inr off ↦ off ∙ sym (zero-bit p)
        | inl on ↦
            let (v, there) =
              entry_at_lem (internal n) (rules n) node'.is_node.has_rules p (omega arith) on in
            let both : ◌≡◌ {A = Option Nhi} none (some v) = sym (nothing p l) ∙ there in
            absurd (ground arith)
      ])

-- A pruned trie that holds nothing is empty.
pub pruned_lem :
    (d : ℕ) (n : Node)
    → IsTrie d n
    → IsPruned d n
    → ((path : List ℕ) (p : ℕ) → AreStrides path → p < 63 → find n path p ≡ none)
    → (internal n ≡ 0) × (external n ≡ 0)
unfolding find
pruned_lem zero n h pruned nothing = (no_rules zero n h (λ p l. nothing [] p tt l), h.1)
pruned_lem (suc d) n h pruned nothing =
    let below : (c : Node)
        → IsTrie d c
        → IsPruned d c
        → ((path : List ℕ) (p : ℕ) → AreStrides path → p < 63 → find c path p ≡ none)
        → (internal c ≡ 0) × (external c ≡ 0) =
      λ c. pruned_lem d c in
    (
      no_rules (suc d) n h (λ p l. nothing [] p tt l),
      bit_ext 64 (external n) 0 h.0.is_node.has_children.fits (omega arith) (λ s l.
          elim (Bool-cases (bit (external n) s)) [
            | inr off ↦ off ∙ sym (zero-bit s)
            | inl on ↦
                let (c, there, child, hc) = child_lem d n h s l on in
                let full = pruned s l c child in
                let empty = below c hc full.1 (λ path p k l'.
                  sym (ap (λ o. o >>= λ x. find x path p) child)
                  ∙ nothing (s ∷ path) p (l, k) l') in
                absurd (ground (arith, full.0, empty.0, empty.1))
          ]),
    )
