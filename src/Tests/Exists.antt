-- ===== src/Tests/Exists.antt =====
-- `prefix_exist` around an insertion and a deletion of 10.0.0.0/8.
use prefix_lookup_mc.Base.{ℕ, ◌≡◌, ap, ◌∙◌, arith, some, true}
use prefix_lookup_mc.Address.Word.{word_laws}
use prefix_lookup_mc.Mm.{Mm}
use prefix_lookup_mc.Node.Nodes.{Node, Nhi, zero_node}
use prefix_lookup_mc.Trie.{insert_prefix, delete_prefix, prefix_exist}
use prefix_lookup_mc.Trie.Exist.{prefix_exist_lem}
use prefix_lookup_mc.Trie.Guarded.{delete_prefix-prefix_exist, insert_prefix-prefix_exist}
use prefix_lookup_mc.Trie.Insert.{present}
use prefix_lookup_mc.Trie.Prefix.{path, last, find_prefix}
use prefix_lookup_mc.Trie.Remove.{Deletes}
use prefix_lookup_mc.Trie.Shape.{zero_node-IsTrie}
use prefix_lookup_mc.Tests.{simple}
use prefix_lookup_mc.Tests.Tries.{one_prefix, ten, ten-IsMasked}
use prefix_lookup_mc.V4.{v4}
use prefix_lookup_mc.V4.Laws.{v4_word, v4_laws}

ten_exists : prefix_exist v4 one_prefix.after ten 8 ≡ some 1
unfolding v4_laws word_laws v4_word
ten_exists =
    prefix_exist_lem v4 v4_laws 1 one_prefix.after ten 8 one_prefix.shape ten-IsMasked (omega arith)
    ∙ ap (λ o. some (present o)) one_prefix.found

delete_prefix-prefix_exist_example :
    (v : Nhi) × (find_prefix v4 one_prefix.after ten 8 ≡ some v)
    × (del : Deletes 1 simple one_prefix.after
        (path v4 ten 8)
        (last v4 ten 8)
        v
        true
        (delete_prefix v4 simple one_prefix.after ten 8 true))
    × (prefix_exist v4 del.after ten 8 ≡ some 0)
unfolding v4_laws word_laws v4_word
delete_prefix-prefix_exist_example =
    delete_prefix-prefix_exist v4 v4_laws 1 simple one_prefix.after ten 8 one_prefix.shape
      ten-IsMasked (omega arith) true ten_exists

insert_prefix-prefix_exist_example :
    (code : ℕ) × (after : Node) × (stats : Mm) × (prefix_exist v4 zero_node ten 8 ≡ some code)
    × (insert_prefix v4 simple zero_node ten 8 7 ≡ some (code, after, stats))
    × (prefix_exist v4 after ten 8 ≡ some 1)
unfolding v4_laws word_laws v4_word
insert_prefix-prefix_exist_example =
    insert_prefix-prefix_exist v4 v4_laws 1 simple zero_node ten 8 (zero_node-IsTrie 1) ten-IsMasked
      (omega arith) 7
