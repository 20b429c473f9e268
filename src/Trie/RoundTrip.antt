-- ===== src/Trie/RoundTrip.antt =====
-- `delete_prefix` undoes `insert_prefix`.
use native.Mathlib.Decide.{ℕ_discrete}
use mathlib.Core.List.{List-discrete}
use prefix_lookup_mc.Base.{ℕ, ◌+◌, ◌*◌, ◌<◌, ◌≡◌, sym, ◌∙◌, false, none, some, List}
use prefix_lookup_mc.Address.{Address, IsAddress}
use prefix_lookup_mc.Mm.{Mm}
use prefix_lookup_mc.Node.Nodes.{Node, Nhi}
use prefix_lookup_mc.Trie.{insert_prefix, delete_prefix}
use prefix_lookup_mc.Trie.Path.{find, AreStrides}
use prefix_lookup_mc.Trie.Shape.{IsTrie}
use prefix_lookup_mc.Trie.Prefix.{path, last, find_prefix, insert_prefix_lem}
use prefix_lookup_mc.Trie.Remove.{Deletes, delete_prefix_lem}

-- The prefix is inserted as a new one and deleted again, with `n` the trie before.
pub record Undone (a : Address) (d : ℕ) (m : Mm) (n : Node) (ip : a.Ip) (cidr : ℕ) (v : Nhi)
    : Type 0 where
  pub between : Node
  pub stats : Mm
  pub inserted : insert_prefix a m n ip cidr v ≡ some (0, between, stats)
  pub deleted :
      Deletes d stats between
        (path a ip cidr)
        (last a ip cidr)
        v
        false
        (delete_prefix a stats between ip cidr false)
  pub same :
      (path' : List ℕ) (p' : ℕ)
      → AreStrides path'
      → p' < 63
      → find deleted.after path' p' ≡ find n path' p'

-- Two tries that agree at one place, and at the others, agree.
agree :
    (n n'' : Node) (path : List ℕ) (p : ℕ)
    → find n'' path p ≡ find n path p
    → ((q : List ℕ) (r : ℕ)
        → AreStrides q
        → r < 63
        → ¬ ((path ≡ q) × (p ≡ r))
        → find n'' q r ≡ find n q r)
    → (q : List ℕ) (r : ℕ) → AreStrides q
    → r < 63
    → find n'' q r ≡ find n q r
agree n n'' path p here elsewhere q r k l = elim (List-discrete ℕ_discrete path q) [
  | no ne ↦ elsewhere q r k l (λ e. ne e.0)
  | yes e ↦ elim (ℕ_discrete p r) [
    | no ne ↦ elsewhere q r k l (λ e'. ne e'.1)
    | yes e' ↦ rw (← e, ← e') here
  ]
]

module _ (a : Address) (laws : IsAddress a) (d : ℕ) (m : Mm) (n : Node) (ip : a.Ip) (cidr : ℕ)
    (h : IsTrie d n) (masked : laws.IsMasked ip cidr) (shallow : cidr < (d + 1) * 6) where
  -- A masked prefix that the trie does not hold, inserted and deleted again: both calls return without a
  -- fault, the insertion with code 0, and afterwards the trie holds what it held for every prefix.
  pub delete_prefix-insert_prefix :
      (v : Nhi) → find_prefix a n ip cidr ≡ none → Undone a d m n ip cidr v
  delete_prefix-insert_prefix v new =
      let ins = insert_prefix_lem a laws d m n ip cidr h masked shallow v in
      let del =
        delete_prefix_lem a laws d ins.stats ins.after ip cidr ins.shape masked shallow v false
          ins.found in
      record {
        between = ins.after;
        stats = ins.stats;
        inserted = rw new at (ins.returns);
        deleted = del;
        same =
            agree n del.after (path a ip cidr) (last a ip cidr) (del.gone ∙ sym new)
              (λ q r k l ne. del.others q r k l ne ∙ ins.others q r k l ne);
      }
