-- ===== src/Tests/Tries.antt =====
-- IPv4 tries of one prefix.
use prefix_lookup_mc.Base.{ℕ, ◌≡◌, refl, arith, some, true}
use prefix_lookup_mc.Node.Nodes.{zero_node}
use prefix_lookup_mc.Trie.{insert_prefix, delete_prefix, prefix_exist}
use prefix_lookup_mc.Trie.Shape.{zero_node-IsTrie, find-zero_node}
use prefix_lookup_mc.Trie.Insert.{Inserted, present}
use prefix_lookup_mc.Trie.Prefix.{insert_prefix_lem, path, last, find_prefix}
use prefix_lookup_mc.Trie.Remove.{Deletes, delete_prefix_lem}
use prefix_lookup_mc.Trie.RoundTrip.{Undone, delete_prefix-insert_prefix}
use prefix_lookup_mc.Trie.Exist.{prefix_exist_lem}
use prefix_lookup_mc.Lookup.{do_search, do_search_lazy, deref}
use prefix_lookup_mc.Lookup.Best.{longest_match}
use prefix_lookup_mc.Lookup.Longest.{do_search_lem, do_search_lazy-do_search}
use prefix_lookup_mc.Lookup.Insert.{do_search-insert_prefix}
use prefix_lookup_mc.Trie.Path.{find}
use prefix_lookup_mc.V4.{v4}
use prefix_lookup_mc.Address.Word.{Masked, Under, word_laws, word_covering}
use prefix_lookup_mc.V4.Laws.{v4_word, v4_laws, v4_covering}
use prefix_lookup_mc.Tests.{simple}

-- 10.0.0.0/8
abbrev pub ten : ℕ
ten = 167772160

pub ten-IsMasked : Masked v4 v4_word ten 8
unfolding v4_word
ten-IsMasked = record { fits = omega arith; short = omega arith; masked = refl }

insert_prefix_lem_example :
    Inserted 1 simple zero_node
      (path v4 ten 8)
      (last v4 ten 8)
      7
      (insert_prefix v4 simple zero_node ten 8 7)
unfolding v4_laws word_laws v4_word
insert_prefix_lem_example =
    insert_prefix_lem v4 v4_laws 1 simple zero_node ten 8 (zero_node-IsTrie 1) ten-IsMasked
      (omega arith) 7

-- The trie that holds 10.0.0.0/8 alone.
pub one_prefix :
    Inserted 1 simple zero_node
      (path v4 ten 8)
      (last v4 ten 8)
      7
      (insert_prefix v4 simple zero_node ten 8 7)
unfolding v4_laws word_laws v4_word
one_prefix =
    insert_prefix_lem v4 v4_laws 1 simple zero_node ten 8 (zero_node-IsTrie 1) ten-IsMasked
      (omega arith) 7

delete_prefix_lem_example :
    Deletes 1 simple
      (one_prefix.after)
      (path v4 ten 8)
      (last v4 ten 8)
      7
      true
      (delete_prefix v4 simple (one_prefix.after) ten 8 true)
unfolding v4_laws word_laws v4_word
delete_prefix_lem_example =
    delete_prefix_lem v4 v4_laws 1 simple (one_prefix.after) ten 8 (one_prefix.shape) ten-IsMasked
      (omega arith) 7 true (one_prefix.found)

delete_prefix-insert_prefix_example : Undone v4 1 simple zero_node ten 8 7
unfolding v4_laws word_laws v4_word
delete_prefix-insert_prefix_example =
    delete_prefix-insert_prefix v4 v4_laws 1 simple zero_node ten 8 (zero_node-IsTrie 1)
      ten-IsMasked (omega arith) 7 (find-zero_node (path v4 ten 8) (last v4 ten 8))

prefix_exist_lem_example :
    prefix_exist v4 (one_prefix.after) ten 8
    ≡ some (present (find_prefix v4 (one_prefix.after) ten 8))
unfolding v4_laws word_laws v4_word
prefix_exist_lem_example =
    prefix_exist_lem v4 v4_laws 1 (one_prefix.after) ten 8 (one_prefix.shape) ten-IsMasked
      (omega arith)

-- 10.1.2.3, which is under 10.0.0.0/8
abbrev pub host : ℕ
host = 167838211

do_search_lem_example :
    do_search v4 (one_prefix.after) host ≡ some (deref (longest_match v4 1 (one_prefix.after) host))
unfolding v4_laws word_laws v4_word
do_search_lem_example =
    do_search_lem v4 v4_laws 1 (one_prefix.after) host (one_prefix.shape) (omega arith)
      (omega arith)

do_search_lazy-do_search_example :
    (do_search_lazy v4 (one_prefix.after) host
      ≡ some (deref (longest_match v4 1 (one_prefix.after) host)))
    × (do_search_lazy v4 (one_prefix.after) host ≡ do_search v4 (one_prefix.after) host)
unfolding v4_laws word_laws v4_word
do_search_lazy-do_search_example =
    do_search_lazy-do_search v4 v4_laws 1 (one_prefix.after) host (one_prefix.shape) (omega arith)
      (omega arith)

-- 10.0.0.0/11, in a trie for prefixes of up to 11 bits
eleven-IsMasked : Masked v4 v4_word ten 11
unfolding v4_word
eleven-IsMasked = record { fits = omega arith; short = omega arith; masked = refl }

eleven :
    Inserted 1 simple zero_node
      (path v4 ten 11)
      (last v4 ten 11)
      9
      (insert_prefix v4 simple zero_node ten 11 9)
unfolding v4_laws word_laws v4_word
eleven =
    insert_prefix_lem v4 v4_laws 1 simple zero_node ten 11 (zero_node-IsTrie 1) eleven-IsMasked
      (omega arith) 9

eleven-Covers : Under v4 v4_word ten 11 host
unfolding v4_word
eleven-Covers = record {
  p_fits = omega arith;
  ip_fits = omega arith;
  short = omega arith;
  same = refl;
}

do_search-insert_prefix_example : do_search v4 (eleven.after) host ≡ some 9
unfolding v4_laws word_laws v4_covering word_covering v4_word
do_search-insert_prefix_example =
    do_search-insert_prefix v4 v4_laws v4_covering 1 simple (eleven.stats) zero_node (eleven.after)
      ten 11 (present (find zero_node (path v4 ten 11) (last v4 ten 11))) 9 host
      (zero_node-IsTrie 1) eleven-IsMasked (eleven.returns) eleven-Covers (omega arith)
      (omega arith) (omega arith) (λ k l l'. absurd (omega arith))
