-- ===== src/Trie/Insert.antt =====
-- `insert_prefix` on a path: it returns, keeps the invariant, and changes the trie at that path alone.
use prefix_lookup_mc.Base.{
  ℕ, zero, suc, ◌+◌, ◌≤◌, ◌<◌, ◌≡◌, ◌≢◌, refl, sym, ap, ap₂, ◌∙◌, arith, true, false, Option, none,
  some, List, [], ◌∷◌, length, length-set, length-insert_at, set, insert_at, Bool-cases, inl, inr,
  ◌==◌, ◌>>=◌,
}
use prefix_lookup_mc.Bits.Digits.{bit, ones_from, set_bit, set_bit-lt}
use prefix_lookup_mc.Bits.Words.{test_bitmap_lem}
use prefix_lookup_mc.Bits.Packed.{
  entry_at, entry_at_lem, insert-IsPacked, entry_at-insert_self, entry_at-insert_ne, set-IsPacked,
  entry_at-set_self, entry_at-set_ne,
}
use prefix_lookup_mc.Mm.{Mm}
use prefix_lookup_mc.Node.Nodes.{Node, Nhi, external, internal, rules, children, list_of-nodes_of}
use prefix_lookup_mc.Node.Layout.{
  build, build-IsNode, child_at-build, store_nhi_lem, rule_at, child_at,
}
use prefix_lookup_mc.Node.Rules.{resize, extend_rule_lem}
use prefix_lookup_mc.Node.{block_cnt}
use prefix_lookup_mc.Node.Account.{
  IsBalanced, used_lem, used-build, total, refl-IsBalanced, resize-IsBalanced, child-IsBalanced,
  trans-IsBalanced,
}
use prefix_lookup_mc.Trie.{put_rule}
use prefix_lookup_mc.Trie.Path.{find, AreStrides, insert_path}
use prefix_lookup_mc.Trie.Shape.{IsTrie, IsTrieNode, IsTrie-node}
use prefix_lookup_mc.Trie.Child.{
  set_child, child_lem, put_child_lem, set_child-IsTrie, find-set_child_self, find-set_child_ne,
}
use prefix_lookup_mc.Trie.Pruned.{IsPruned, same_children-IsPruned, set_child-IsPruned, full_lem}
use prefix_lookup_mc.Trie.Enter.{enter_child_lem}

-- 1 for a rule that is there, 0 for one that is not.
abbrev pub present : Option Nhi → ℕ
present none = 0
present (some v) = 1

-- `result` is a return after which the trie holds `v` at the path and is unchanged elsewhere, and the
-- statistics have gone along with its blocks.
pub record Inserted (d : ℕ) (m : Mm) (n : Node) (path : List ℕ) (p : ℕ) (v : Nhi)
    (result : Option (ℕ × Node × Mm)) : Type 0 where
  pub after : Node
  pub stats : Mm
  pub returns : result ≡ some (present (find n path p), after, stats)
  pub shape : IsTrie d after
  pub balanced : IsBalanced m n stats after
  pub pruned : IsPruned d n → IsPruned d after
  pub found : find after path p ≡ some v
  pub others :
      (path' : List ℕ) (p' : ℕ)
      → AreStrides path'
      → p' < 63
      → ¬ ((path ≡ path') × (p ≡ p'))
      → find after path' p' ≡ find n path' p'

-- Other rules and children for the node of a trie, in place.
unfoldable pub with_rules : Node → ℕ → List Nhi → Node
with_rules n int rs = build (external n) int rs (children n)

pub with_rules-IsTrie :
    (d : ℕ) (n : Node) (int : ℕ) (rs : List Nhi)
    → IsTrie d n
    → IsTrieNode (with_rules n int rs)
    → IsTrie d (with_rules n int rs)
unfolding with_rules
with_rules-IsTrie zero n int rs h k = (k, h.1)
with_rules-IsTrie (suc d) n int rs h k = (k, rw (list_of-nodes_of (children n)) h.1)

find-with_rules :
    (n : Node) (int : ℕ) (rs : List Nhi) (s : ℕ) (path : List ℕ) (p : ℕ)
    → find (with_rules n int rs) (s ∷ path) p ≡ find n (s ∷ path) p
unfolding find with_rules
find-with_rules n int rs s path p = rw (child_at-build (external n) int rs (children n) s)

pub others_kept :
    (n : Node) (int : ℕ) (rs : List Nhi) (p : ℕ)
    → ((q : ℕ) → q < 63 → p ≢ q → entry_at int rs q ≡ rule_at n q)
    → (path : List ℕ) (q : ℕ) → AreStrides path
    → q < 63
    → ¬ (([] ≡ path) × (p ≡ q))
    → find (with_rules n int rs) path q ≡ find n path q
unfolding find with_rules
others_kept n int rs p kept [] q k l ne = kept q l (λ e. ne (refl, e))
others_kept n int rs p kept (s ∷ path) q k l ne = find-with_rules n int rs s path q

module _ (d : ℕ) (m : Mm) (n : Node) (level p : ℕ) (v : Nhi) (h : IsTrie d n) (low : p < 63) where
  put_rule_old : bit (internal n) p ≡ true → Inserted d m n [] p v (put_rule m n level p v)
  unfolding with_rules
  put_rule_old on =
      let node' = IsTrie-node d n h in
      let packed = node'.is_node.has_rules in
      let low' : p < 64 = omega arith in
      let there = entry_at_lem (internal n) (rules n) packed p low' on in
      let rs = set (rules n) (ones_from 64 (internal n) (suc p)) v in
      record {
        after = with_rules n (internal n) rs;
        stats = m;
        returns =
            unfold put_rule find in
            rw (test_bitmap_lem, on, store_nhi_lem n p v node'.is_node low' on, rw on at (there.1));
        shape = with_rules-IsTrie d n (internal n) rs h (record {
          is_node =
              build-IsNode (external n) (internal n) rs (children n)
                (set-IsPacked (internal n) (rules n) packed p low' on v) node'.is_node.has_children;
          no_last = node'.no_last;
        });
        balanced = refl-IsBalanced m n (with_rules n (internal n) rs) (
            used_lem n
            ∙ ap (λ t. block_cnt (length (children n)) t + total (children n))
                (sym (length-set (rules n) (ones_from 64 (internal n) (suc p)) v))
            ∙ sym (used-build (external n) (internal n) rs (children n)));
        pruned = same_children-IsPruned d n (internal n) rs;
        found = unfold find in entry_at-set_self (internal n) (rules n) packed p low' on v;
        others = others_kept n (internal n) rs p (λ q k ne.
            entry_at-set_ne (internal n) (rules n) packed p low' on v q (omega arith) ne);
      }

  put_rule_new : bit (internal n) p ≡ false → Inserted d m n [] p v (put_rule m n level p v)
  unfolding with_rules
  put_rule_new off =
      let node' = IsTrie-node d n h in
      let packed = node'.is_node.has_rules in
      let low' : p < 64 = omega arith in
      let rs = insert_at (ones_from 64 (internal n) (suc p)) v (rules n) in
      record {
        after = with_rules n (set_bit (internal n) p) rs;
        stats = resize m n (length (children n)) (length (rules n) + 1) level;
        returns =
            unfold put_rule find in
            rw (test_bitmap_lem, off, extend_rule_lem m n p level v node'.is_node low' off);
        shape = with_rules-IsTrie d n (set_bit (internal n) p) rs h (record {
          is_node =
              build-IsNode (external n) (set_bit (internal n) p) rs (children n)
                (insert-IsPacked (internal n) (rules n) packed p low' v off)
                node'.is_node.has_children;
          no_last = set_bit-lt 63 (internal n) p node'.no_last low;
        });
        balanced =
            resize-IsBalanced m n (external n) (set_bit (internal n) p) rs (children n)
              (length (children n)) (length (rules n) + 1) level refl
              (omega (arith, length-insert_at (ones_from 64 (internal n) (suc p)) v (rules n)))
              refl;
        pruned = same_children-IsPruned d n (set_bit (internal n) p) rs;
        found = unfold find in entry_at-insert_self (internal n) (rules n) packed p low' v off;
        others = others_kept n (set_bit (internal n) p) rs p (λ q k ne.
            entry_at-insert_ne (internal n) (rules n) packed p low' v off q (omega arith) ne);
      }

  pub put_rule_lem : Inserted d m n [] p v (put_rule m n level p v)
  put_rule_lem = elim (Bool-cases (bit (internal n) p)) [
    | inl on ↦ put_rule_old on
    | inr off ↦ put_rule_new off
  ]

-- A path below another child than `s`, or none below it, is not touched by a change below `s`.
pub others_below :
    (d : ℕ) (n n1 : Node) (s : ℕ) (c c' : Node) (path : List ℕ) (p : ℕ)
    → IsTrie (suc d) n1
    → s < 64
    → bit (external n1) s ≡ true
    → child_at n1 s ≡ some c
    → ((path' : List ℕ) (p' : ℕ) → AreStrides path' → find n1 path' p' ≡ find n path' p')
    → ((path' : List ℕ) (p' : ℕ)
        → AreStrides path'
        → p' < 63
        → ¬ ((path ≡ path') × (p ≡ p'))
        → find c' path' p' ≡ find c path' p')
    → (path' : List ℕ) (p' : ℕ) → AreStrides path'
    → p' < 63
    → ¬ ((s ∷ path ≡ path') × (p ≡ p'))
    → find (set_child n1 s c') path' p' ≡ find n path' p'
unfolding find
others_below d n n1 s c c' path p h low on there same kept [] p' k l ne = same [] p' tt
others_below d n n1 s c c' path p h low on there same kept (t ∷ path') p' k l ne =
    elim (Bool-cases (s == t)) [
      | inr apart ↦
          find-set_child_ne d n1 h s low on c' t path' p' k.0 (ground arith) ∙ same (t ∷ path') p' k
      | inl e ↦
          let e' : s ≡ t = ground arith in
          rw (← e') (
            find-set_child_self d n1 h s low on c' path' p'
            ∙ kept path' p' k.1 l (λ q. ne (ap₂ ◌∷◌ e' q.0, q.1))
            ∙ sym (ap (λ o. o >>= λ x. find x path' p') there)
            ∙ same (s ∷ path') p' (low, k.1))
    ]

reads_below :
    (n n1 : Node) (s : ℕ) (c : Node) (path : List ℕ) (p : ℕ)
    → AreStrides (s ∷ path)
    → child_at n1 s ≡ some c
    → ((path' : List ℕ) (p' : ℕ) → AreStrides path' → find n1 path' p' ≡ find n path' p')
    → find c path p ≡ find n (s ∷ path) p
unfolding find
reads_below n n1 s c path p k there same =
    sym (ap (λ o. o >>= λ x. find x path p) there) ∙ same (s ∷ path) p k

-- With a path that is not longer than the trie is deep, the insertion returns; the trie keeps its
-- shape, holds the value at the path, and is unchanged at every other path.
pub insert_path_lem :
    (d : ℕ) (m : Mm) (n : Node) (path : List ℕ) (p level : ℕ) (v : Nhi)
    → IsTrie d n
    → length path ≤ d
    → AreStrides path
    → p < 63
    → Inserted d m n path p v (insert_path m n path p level v)
unfolding insert_path
insert_path_lem d m n [] p level v h short k low = put_rule_lem d m n level p v h low
insert_path_lem zero m n (s ∷ path) p level v h short k low = absurd (omega arith)
insert_path_lem (suc d) m n (s ∷ path) p level v h short k low =
    let entered = enter_child_lem d m n level s h k.0 in
    let (c, there, child, hc) = child_lem d entered.parent entered.shape s k.0 entered.on in
    let below = insert_path_lem d entered.stats c path p (level + 1) v hc (omega arith) k.1 low in
    record {
      after = set_child entered.parent s below.after;
      stats = below.stats;
      returns =
          rw
            (
              entered.returns,
              there,
              below.returns,
              put_child_lem d entered.parent entered.shape s k.0 entered.on below.after,
            )
            (ap (λ o. some (present o, set_child entered.parent s below.after, below.stats))
              (reads_below n entered.parent s c path p k child entered.same));
      shape =
          set_child-IsTrie d entered.parent entered.shape s k.0 entered.on below.after below.shape;
      balanced =
          trans-IsBalanced m entered.stats below.stats n entered.parent
            (set_child entered.parent s below.after) entered.balanced
            (child-IsBalanced entered.stats below.stats entered.parent
              (ones_from 64 (external entered.parent) (suc s)) c below.after there below.balanced);
      pruned = λ all.
          let kept = entered.pruned all in
          set_child-IsPruned d entered.parent entered.shape s k.0 entered.on kept.0 below.after
            (full_lem below.after path p below.found) (below.pruned (kept.1 c child));
      found =
          find-set_child_self d entered.parent entered.shape s k.0 entered.on below.after path p
          ∙ below.found;
      others =
          others_below d n entered.parent s c below.after path p entered.shape k.0 entered.on child
            entered.same below.others;
    }
