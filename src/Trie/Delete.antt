-- ===== src/Trie/Delete.antt =====
-- `delete_prefix` on a path: it returns, keeps the invariant, and changes the trie at that path alone.
use prefix_lookup_mc.Base.{
  ℕ, zero, suc, ◌+◌, ◌-◌, ◌≤◌, ◌<◌, ◌≡◌, refl, sym, ap, ◌∙◌, arith, Bool, true, false, Option, none,
  some, List, [], ◌∷◌, length, length-remove_at, get_elem?, remove_at, set, Bool-cases, inl, inr,
  if◌then◌else◌, ◌>>=◌, ltb,
}
use prefix_lookup_mc.Address.{Address, shift}
use prefix_lookup_mc.Bits.Digits.{bit, ones_from, clear_bit, clear_bit-le}
use prefix_lookup_mc.Bits.Words.{count_ones_lem}
use prefix_lookup_mc.Bits.Packed.{
  rank-lt, remove-IsPacked, entry_at-remove_self, entry_at-remove_ne, entry_at-set_self,
}
use prefix_lookup_mc.Bits.{count_ones}
use prefix_lookup_mc.Mm.{Mm}
use prefix_lookup_mc.Node.{next_child, load_nhi}
use prefix_lookup_mc.Node.Nodes.{Node, Nhi, external, internal, rules, children}
use prefix_lookup_mc.Node.Layout.{
  build-IsNode, child_at, load_nhi_lem, child_at-build, next_child_lem,
}
use prefix_lookup_mc.Node.Rules.{resize, reduce_rule_lem}
use prefix_lookup_mc.Node.Children.{reduce_child_lem}
use prefix_lookup_mc.Node.Account.{
  IsBalanced, used, used_of_empty, total-remove_at, resize-IsBalanced, child-IsBalanced,
  trans-IsBalanced,
}
use prefix_lookup_mc.Trie.{is_empty, update_nodes, destroy_last, trace_loop}
use prefix_lookup_mc.Trie.Path.{find, AreStrides, path_of, last_of}
use prefix_lookup_mc.Trie.Shape.{IsTrie, IsTrie-node}
use prefix_lookup_mc.Trie.Child.{
  set_child, child_lem, put_child_lem, set_child-IsTrie, find-set_child_self,
}
use prefix_lookup_mc.Trie.Drop.{drop_child, drop_child-IsTrie, find-drop_child}
use prefix_lookup_mc.Trie.Pruned.{
  IsPruned, same_children-IsPruned, set_child-IsPruned, set_child-ArePruned, drop_child-IsPruned,
}
use prefix_lookup_mc.Trie.Insert.{with_rules, with_rules-IsTrie, others_kept, others_below}

unfoldable pub trace_path : Node → List ℕ → ℕ → Option (List (Node × ℕ))
trace_path n [] p = some ((n, p) ∷ [])
trace_path n (s ∷ path) p = do c ← next_child n s; rest ← trace_path c path p; some ((n, s) ∷ rest)

-- The walk follows the path.
pub trace_loop_lem :
    (a : Address) (fuel : ℕ) (n : Node) (ip : a.Ip) (cidr : ℕ)
    → cidr < fuel
    → trace_loop a fuel n ip cidr ≡ trace_path n (path_of a fuel ip cidr) (last_of a fuel ip cidr)
unfolding trace_loop trace_path path_of last_of
trace_loop_lem a zero n ip cidr h = absurd (omega arith)
trace_loop_lem a (suc fuel) n ip cidr h = elim (Bool-cases (ltb cidr 6)) [
  | inl short ↦ rw short
  | inr long ↦
      let below : (c : Node)
          → trace_loop a fuel c (shift a ip) (cidr - 6)
            ≡ trace_path c (path_of a fuel (shift a ip) (cidr - 6))
                (last_of a fuel (shift a ip) (cidr - 6)) =
        λ c. trace_loop_lem a fuel c (shift a ip) (cidr - 6) (ground arith) in
      simp (long, below)
]

-- The trace of the path, and the return of `update_nodes` on it, after which the trie holds nothing at
-- the path and is unchanged elsewhere. The Boolean says whether the root is empty.
pub record Removed (d : ℕ) (m : Mm) (n : Node) (path : List ℕ) (p level : ℕ) (v : Nhi)
    : Type 0 where
  pub first : Node × ℕ
  pub others_traced : List (Node × ℕ)
  pub after : Node
  pub stats : Mm
  pub traced : trace_path n path p ≡ some (first ∷ others_traced)
  pub returns : update_nodes m (first ∷ others_traced) level ≡ some (is_empty after, after, stats)
  pub destroyed :
      (destroy : Bool)
      → destroy_last destroy (first ∷ others_traced) ≡ some (if destroy then v ∷ [] else [])
  pub shape : IsTrie d after
  pub balanced : IsBalanced m n stats after
  pub pruned : IsPruned d n → IsPruned d after
  pub gone : find after path p ≡ none
  pub others :
      (path' : List ℕ) (p' : ℕ)
      → AreStrides path'
      → p' < 63
      → ¬ ((path ≡ path') × (p ≡ p'))
      → find after path' p' ≡ find n path' p'

handed :
    (n : Node) (p : ℕ) (v : Nhi)
    → load_nhi n p ≡ some v
    → (destroy : Bool) → destroy_last destroy ((n, p) ∷ []) ≡ some (if destroy then v ∷ [] else [])
unfolding destroy_last
handed n p v h true = rw h
handed n p v h false = refl

module _ (d : ℕ) (m : Mm) (n : Node) (level p : ℕ) (v : Nhi) (h : IsTrie d n) (low : p < 63) where
  remove_here : find n [] p ≡ some v → bit (internal n) p ≡ true → Removed d m n [] p level v
  unfolding with_rules find
  remove_here found on =
      let node' = IsTrie-node d n h in
      let packed = node'.is_node.has_rules in
      let low' : p < 64 = omega arith in
      let int = clear_bit (internal n) p in
      let rs = remove_at (ones_from 64 (internal n) (suc p)) (rules n) in
      record {
        first = (n, p);
        others_traced = [];
        after = with_rules n int rs;
        stats = resize m n (length (children n)) (length (rules n) - 1) level;
        traced = unfold trace_path in refl;
        returns = unfold update_nodes in rw (reduce_rule_lem m n p level node'.is_node low' on);
        destroyed = handed n p v (load_nhi_lem n p node'.is_node low' on ∙ found);
        shape = with_rules-IsTrie d n int rs h (record {
          is_node =
              build-IsNode (external n) int rs (children n)
                (remove-IsPacked (internal n) (rules n) packed p low' on)
                node'.is_node.has_children;
          no_last = omega (arith, clear_bit-le (internal n) p, node'.no_last);
        });
        balanced =
            resize-IsBalanced m n (external n) int rs (children n) (length (children n))
              (length (rules n) - 1) level refl
              (omega (
                arith,
                length-remove_at (ones_from 64 (internal n) (suc p)) (rules n)
                    (rank-lt (internal n) (rules n) packed p low' on),
              ))
              refl;
        pruned = same_children-IsPruned d n int rs;
        gone = entry_at-remove_self (internal n) (rules n) packed p low' on;
        others = others_kept n int rs p (λ q k ne.
            entry_at-remove_ne (internal n) (rules n) packed p low' on q (omega arith) ne);
      }

-- The way back through a node whose child `c` has become `below.after`.
module _ (d : ℕ) (m : Mm) (n : Node) (s : ℕ) (path : List ℕ) (p level : ℕ) (v : Nhi) (c : Node)
    (h : IsTrie (suc d) n) (low : s < 64) (on : bit (external n) s ≡ true)
    (child : child_at n s ≡ some c) (below : Removed d m c path p (level + 1) v) where
  abbrev kept_parent : Node
  kept_parent = set_child n s below.after

  kept_shape : IsTrie (suc d) kept_parent
  kept_shape = set_child-IsTrie d n h s low on below.after below.shape

  steps : next_child n s ≡ some c
  steps = next_child_lem n s h.0.is_node low on ∙ child

  kept_others :
      (path' : List ℕ) (p' : ℕ)
      → AreStrides path'
      → p' < 63
      → ¬ ((s ∷ path ≡ path') × (p ≡ p'))
      → find kept_parent path' p' ≡ find n path' p'
  kept_others =
      others_below d n n s c below.after path p h low on child (λ path' p' k. refl) below.others

  kept_gone : find kept_parent (s ∷ path) p ≡ none
  kept_gone = find-set_child_self d n h s low on below.after path p ∙ below.gone

  there_below : get_elem? (children n) (ones_from 64 (external n) (suc s)) ≡ some c
  there_below = rw on at child

  kept-IsBalanced : IsBalanced m n below.stats kept_parent
  kept-IsBalanced =
      child-IsBalanced m below.stats n (ones_from 64 (external n) (suc s)) c below.after there_below
        below.balanced

  index : count_ones (external n) s ≡ some (ones_from 64 (external n) (suc s))
  index = count_ones_lem (external n) s h.0.is_node.has_children.fits low on

  keep_child : is_empty below.after ≡ false → Removed (suc d) m n (s ∷ path) p level v
  keep_child full = record {
    first = (n, s);
    others_traced = below.first ∷ below.others_traced;
    after = kept_parent;
    stats = below.stats;
    traced = unfold trace_path in rw (steps, below.traced);
    returns =
        unfold update_nodes in
        rw (below.returns, index, put_child_lem d n h s low on below.after, full);
    destroyed = λ destroy. unfold destroy_last in below.destroyed destroy;
    shape = kept_shape;
    balanced = kept-IsBalanced;
    pruned = λ all.
        set_child-IsPruned d n h s low on (λ t l ne x e. all t l x e) below.after full
          (below.pruned (all s low c child).1);
    gone = kept_gone;
    others = kept_others;
  }

  drop-IsBalanced :
      bit (external kept_parent) s ≡ true
      → child_at kept_parent s ≡ some below.after
      → is_empty below.after ≡ true
      → IsBalanced below.stats kept_parent
          (resize below.stats kept_parent
            (length (children kept_parent) - 1)
            (length (rules kept_parent))
            level)
          (drop_child kept_parent s)
  drop-IsBalanced on' there empty =
      let k = ones_from 64 (external n) (suc s) in
      let found : get_elem? (children kept_parent) k ≡ some below.after = rw on' at there in
      let no_room : used below.after ≡ 0 =
        used_of_empty below.after ((IsTrie-node d below.after below.shape).is_node) (ground arith)
          (ground arith) in
      resize-IsBalanced below.stats kept_parent (clear_bit (external n) s) (internal n) (rules n)
        (remove_at k (children kept_parent)) (length (children kept_parent) - 1)
        (length (rules kept_parent)) level
        (omega (
          arith,
          length-remove_at k (children kept_parent) (
              rank-lt (external n) (children kept_parent) kept_shape.0.is_node.has_children s low
                on'),
        ))
        refl (omega (arith, total-remove_at k (children kept_parent) found, no_room))

  lose_child :
      AreStrides (s ∷ path) → is_empty below.after ≡ true → Removed (suc d) m n (s ∷ path) p level v
  lose_child strides empty =
      let on' : bit (external kept_parent) s ≡ true = on in
      let there : child_at kept_parent s ≡ some below.after =
        child_at-build (external n) (internal n) (rules n)
          (set (children n) (ones_from 64 (external n) (suc s)) below.after) s
        ∙ entry_at-set_self (external n) (children n) h.0.is_node.has_children s low on
            below.after in
      let reduced = reduce_child_lem below.stats kept_parent s level kept_shape.0.is_node low on' in
      let same = find-drop_child d kept_parent kept_shape s low on' below.after there empty in
      record {
        first = (n, s);
        others_traced = below.first ∷ below.others_traced;
        after = drop_child kept_parent s;
        stats =
            resize below.stats kept_parent (length (children kept_parent) - 1)
              (length (rules kept_parent)) level;
        traced = unfold trace_path in rw (steps, below.traced);
        returns =
            unfold update_nodes in
            rw (below.returns, index, put_child_lem d n h s low on below.after, empty, reduced);
        destroyed = λ destroy. unfold destroy_last in below.destroyed destroy;
        shape = drop_child-IsTrie d kept_parent kept_shape s low on';
        balanced =
            trans-IsBalanced m below.stats _ n kept_parent _ kept-IsBalanced
              (drop-IsBalanced on' there empty);
        pruned = λ all.
            drop_child-IsPruned d kept_parent kept_shape s low on'
              (set_child-ArePruned d n h s low on (λ t l ne x e. all t l x e) below.after);
        gone = same (s ∷ path) p strides ∙ kept_gone;
        others = λ path' p' k l ne. same path' p' k ∙ kept_others path' p' k l ne;
      }

-- A rule that the trie holds at a path is deleted: the walk and `update_nodes` return; the trie keeps
-- its shape, holds nothing at the path, and what it held at every other one.
pub remove_path_lem :
    (d : ℕ) (m : Mm) (n : Node) (path : List ℕ) (p level : ℕ) (v : Nhi)
    → IsTrie d n
    → length path ≤ d
    → AreStrides path
    → p < 63
    → find n path p ≡ some v
    → Removed d m n path p level v
unfolding find
remove_path_lem d m n [] p level v h short k low found = elim (Bool-cases (bit (internal n) p)) [
  | inl on ↦ remove_here d m n level p v h low found on
  | inr off ↦ let e : ◌≡◌ {A = Option Nhi} none (some v) = rw off at found in absurd (ground arith)
]
remove_path_lem zero m n (s ∷ path) p level v h short k low found = absurd (omega arith)
remove_path_lem (suc d) m n (s ∷ path) p level v h short k low found =
    elim (Bool-cases (bit (external n) s)) [
      | inr off ↦
          let e : ◌≡◌ {A = Option Nhi} none (some v) = rw off at found in absurd (ground arith)
      | inl on ↦
          let (c, there, child, hc) = child_lem d n h s k.0 on in
          let found' : find c path p ≡ some v =
            sym (ap (λ o. o >>= λ x. find x path p) child) ∙ found in
          let below = remove_path_lem d m c path p (level + 1) v hc (omega arith) k.1 low found' in
          elim (Bool-cases (is_empty below.after)) [
            | inl empty ↦ lose_child d m n s path p level v c h k.0 on child below k empty
            | inr full ↦ keep_child d m n s path p level v c h k.0 on child below full
          ]
    ]
