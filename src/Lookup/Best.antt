-- ===== src/Lookup/Best.antt =====
-- The longest match as an independent description: the rules for the leading bits of an address, and
-- of these the one with the most bits. The match inside one node is the same over its 6 lengths.
use prefix_lookup_mc.Base.{
  ℕ, zero, suc, ◌+◌, ◌-◌, ◌*◌, ◌/◌, ◌^◌, ◌≤◌, ◌<◌, ◌≡◌, refl, sym, ap, ◌∙◌, arith, true, false,
  Option, none, some, ltb, if◌then◌else◌, ◌>>=◌, Bool-cases, inl, inr,
}
use native.Mathlib.Nat.{pow-suc}
use prefix_lookup_mc.Address.{Address, stride_of, shift}
use prefix_lookup_mc.Bits.{count_inl_bitmap}
use prefix_lookup_mc.Bits.Digits.{bit}
use prefix_lookup_mc.Bits.Words.{test_bitmap_lem, count_inl_bitmap-lt}
use prefix_lookup_mc.Bits.Packed.{entry_at_lem}
use prefix_lookup_mc.Node.{load_nhi}
use prefix_lookup_mc.Node.Nodes.{Node, Nhi, internal, rules}
use prefix_lookup_mc.Node.Layout.{rule_at, child_at, load_nhi_lem}
use prefix_lookup_mc.TreeFunction.{match_loop}
use prefix_lookup_mc.TreeFunction.Equal.{tree_function_lem}
use prefix_lookup_mc.Trie.Shape.{IsTrieNode}
use prefix_lookup_mc.Lookup.{node_match, or_else}

module _ (a : Address) where
  -- The rule for the `k` leading bits of an address, in a trie of depth `d`.
  unfoldable pub rule_for : ℕ → Node → a.Ip → ℕ → Option Nhi
  rule_for zero n ip k =
      if ltb k 6 then rule_at n (count_inl_bitmap (stride_of a ip 6 / 2 ^ (6 - k)) k) else none
  rule_for (suc d) n ip k =
      if ltb k 6
      then rule_at n (count_inl_bitmap (stride_of a ip 6 / 2 ^ (6 - k)) k)
      else (child_at n (stride_of a ip 6) >>= λ c. rule_for d c (shift a ip) (k - 6))

  -- Of the lengths below `k`, the rule of the greatest that has one.
  unfoldable pub best : ℕ → Node → a.Ip → ℕ → Option Nhi
  best d n ip zero = none
  best d n ip (suc k) = or_else (rule_for d n ip k) (best d n ip k)

  -- Of all lengths.
  abbrev pub longest_match : ℕ → Node → a.Ip → Option Nhi
  longest_match d n ip = best d n ip ((d + 1) * 6)

pub or_else_assoc : (x y z : Option Nhi) → or_else (or_else x y) z ≡ or_else x (or_else y z)
or_else_assoc none y z = refl
or_else_assoc (some x) y z = refl

-- The rules that the loop of `tree_function` passes, with `i` rounds left.
unfoldable pub node_best : ℕ → ℕ → Node → Option Nhi
node_best zero stride n = none
node_best (suc i) stride n =
    or_else (rule_at n (count_inl_bitmap (stride / 2) i)) (node_best i (stride / 2) n)

match_rule : Node → Option ℕ → Option (Option Nhi)
match_rule n found = elim found [
  | none ↦ some none
  | some pos ↦ load_nhi n pos >>= λ v. some (some v)
]

match_rule_loop :
    (i stride : ℕ) (n : Node)
    → IsTrieNode n
    → i ≤ 6
    → stride < 2 ^ i
    → match_rule n (match_loop i stride (internal n)) ≡ some (node_best i stride n)
unfolding match_loop node_best match_rule
match_rule_loop zero stride n h k l = refl
match_rule_loop (suc i) stride n h k l =
    let half : stride / 2 < 2 ^ i = omega (arith, pow-suc 2 i) in
    let pos = count_inl_bitmap (stride / 2) i in
    let low = count_inl_bitmap-lt (stride / 2) i (omega arith) half in
    elim (Bool-cases (bit (internal n) pos)) [
      | inr off ↦ rw (test_bitmap_lem, off) (match_rule_loop i (stride / 2) n h (omega arith) half)
      | inl on ↦
          let (v, there) =
            entry_at_lem (internal n) (rules n) h.is_node.has_rules pos (omega (arith, low)) on in
          rw (
            test_bitmap_lem,
            on,
            load_nhi_lem n pos h.is_node (omega (arith, low)) on,
            on,
            rw on at there,
          )
    ]

-- The match in a node is the best of the rules that the node has for the stride.
pub node_match_lem :
    (stride : ℕ) (n : Node)
    → IsTrieNode n
    → stride < 64
    → node_match n stride ≡ some (node_best 6 stride n)
unfolding node_match match_rule
node_match_lem stride n h k =
    ap (match_rule n) (tree_function_lem (internal n) stride h.is_node.has_rules.fits k)
    ∙ match_rule_loop 6 stride n h (omega arith) k

halves : (i stride : ℕ) → i < 6 → stride / 2 ^ (6 - suc i) / 2 ≡ stride / 2 ^ (6 - i)
halves zero s h = omega arith
halves (suc zero) s h = omega arith
halves (suc (suc zero)) s h = omega arith
halves (suc (suc (suc zero))) s h = omega arith
halves (suc (suc (suc (suc zero)))) s h = omega arith
halves (suc (suc (suc (suc (suc zero))))) s h = omega arith
halves (suc (suc (suc (suc (suc (suc i)))))) s h = absurd (omega arith)

pub one_more : (j : ℕ) → suc j + 6 ≡ suc (j + 6)
one_more j = omega arith

module _ (a : Address) (n : Node) (ip : a.Ip) where
  pub rule_for_short :
      (d k : ℕ)
      → k < 6
      → rule_for a d n ip k ≡ rule_at n (count_inl_bitmap (stride_of a ip 6 / 2 ^ (6 - k)) k)
  unfolding rule_for
  rule_for_short zero k h = let short : ltb k 6 ≡ true = ground arith in rw short
  rule_for_short (suc d) k h = let short : ltb k 6 ≡ true = ground arith in rw short

  best_short : (d i : ℕ) → i ≤ 6 → best a d n ip i ≡ node_best i (stride_of a ip 6 / 2 ^ (6 - i)) n
  unfolding best node_best
  best_short d zero h = refl
  best_short d (suc i) h = rw (
    halves i (stride_of a ip 6) (omega arith),
    rule_for_short d i (omega arith),
    best_short d i (omega arith),
  )

  -- The lengths of one stride.
  pub best_in_node : (d : ℕ) → best a d n ip 6 ≡ node_best 6 (stride_of a ip 6) n
  best_in_node d = best_short d 6 (omega arith) ∙ ap (λ (t : ℕ). node_best 6 t n) (omega arith)

  -- The longer ones, with no child on the way and with one.
  pub best_without :
      (d j : ℕ)
      → child_at n (stride_of a ip 6) ≡ none
      → best a (suc d) n ip (j + 6) ≡ best a (suc d) n ip 6
  unfolding best rule_for
  best_without d zero h = refl
  best_without d (suc j) h =
      let long : ltb (j + 6) 6 ≡ false = ground arith in
      rw (one_more j, long, h) (best_without d j h)

  pub best_with :
      (d j : ℕ) (c : Node)
      → child_at n (stride_of a ip 6) ≡ some c
      → best a (suc d) n ip (j + 6) ≡ or_else (best a d c (shift a ip) j) (best a (suc d) n ip 6)
  unfolding best rule_for
  best_with d zero c h = refl
  best_with d (suc j) c h =
      let long : ltb (j + 6) 6 ≡ false = ground arith in
      let less : j + 6 - 6 ≡ j = omega arith in
      rw (one_more j, long, h, less, best_with d j c h)
        (sym (
          or_else_assoc (rule_for a d c (shift a ip) j) (best a d c (shift a ip) j)
            (best a (suc d) n ip 6)))
