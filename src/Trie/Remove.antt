-- ===== src/Trie/Remove.antt =====
-- `delete_prefix` at an address, and after `insert_prefix`.
use prefix_lookup_mc.Base.{
  ℕ, suc, ◌+◌, ◌*◌, ◌<◌, ◌≡◌, arith, Bool, Option, none, some, List, [], ◌∷◌, if◌then◌else◌,
}
use prefix_lookup_mc.Address.{Address, IsAddress}
use prefix_lookup_mc.Mm.{Mm}
use prefix_lookup_mc.Node.Nodes.{Node, Nhi}
use prefix_lookup_mc.Node.Account.{IsBalanced}
use prefix_lookup_mc.Trie.{is_empty, delete_prefix, Deleted}
use prefix_lookup_mc.Trie.Path.{find, AreStrides}
use prefix_lookup_mc.Trie.Pruned.{IsPruned}
use prefix_lookup_mc.Trie.Shape.{IsTrie}
use prefix_lookup_mc.Trie.Prefix.{path, last, find_prefix, length-path, path-AreStrides, last-lt}
use prefix_lookup_mc.Trie.Delete.{trace_loop_lem, remove_path_lem}

-- `result` is a return that reports whether the root is empty now and hands `v` to `destroy_nhi`, if
-- there is one; the trie holds nothing at the path any more, and is unchanged elsewhere; the
-- statistics have gone along with its blocks.
pub record Deletes (d : ℕ) (m : Mm) (n : Node) (path : List ℕ) (p : ℕ) (v : Nhi) (destroy : Bool)
    (result : Option Deleted) : Type 0 where
  pub after : Node
  pub stats : Mm
  pub returns :
      result
      ≡ some (record {
        root_empty = is_empty after;
        root = after;
        mm = stats;
        destroyed = if destroy then v ∷ [] else [];
      })
  pub shape : IsTrie d after
  pub balanced : IsBalanced m n stats after
  pub pruned : IsPruned d n → IsPruned d after
  pub gone : find after path p ≡ none
  pub others :
      (path' : List ℕ) (p' : ℕ)
      → AreStrides path'
      → p' < 63
      → ¬ ((path ≡ path') × (p ≡ p'))
      → find after path' p' ≡ find n path' p'

module _ (a : Address) (laws : IsAddress a) (d : ℕ) (m : Mm) (n : Node) (ip : a.Ip) (cidr : ℕ)
    (h : IsTrie d n) (masked : laws.IsMasked ip cidr) (shallow : cidr < (d + 1) * 6) where
  -- Deleting a masked prefix that the trie holds returns without a fault, reports whether the root is
  -- empty afterwards, and hands the prefix's next hop to `destroy_nhi` if there is one; the trie keeps
  -- its shape, holds nothing for the prefix, and what it held for every other one. The counters of
  -- nodes and bytes go along with the blocks, modulo 2 ^ 32, and no child becomes empty.
  pub delete_prefix_lem :
      (v : Nhi) (destroy : Bool)
      → find_prefix a n ip cidr ≡ some v
      → Deletes d m n
          (path a ip cidr)
          (last a ip cidr)
          v
          destroy
          (delete_prefix a m n ip cidr destroy)
  delete_prefix_lem v destroy found =
      let removed =
        remove_path_lem d m n (path a ip cidr) (last a ip cidr) 0 v h
          (omega (arith, length-path a laws (suc cidr) ip cidr))
          (path-AreStrides a laws (suc cidr) ip cidr (laws.masked-IsIp ip cidr masked))
          (last-lt a laws (suc cidr) ip cidr masked (omega arith)) found in
      record {
        after = removed.after;
        stats = removed.stats;
        returns =
            unfold delete_prefix in
            rw (
              trace_loop_lem a (suc cidr) n ip cidr (omega arith),
              removed.traced,
              removed.destroyed destroy,
              removed.returns,
            );
        shape = removed.shape;
        balanced = removed.balanced;
        pruned = removed.pruned;
        gone = removed.gone;
        others = removed.others;
      }
