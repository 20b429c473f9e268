-- ===== src/Routes/Updates.antt =====
-- One call of `insert_prefix` or `delete_prefix` on a trie that holds a table.
use prefix_lookup_mc.Base.{
  ℕ, ◌+◌, ◌*◌, ◌<◌, ◌≡◌, refl, sym, ◌∙◌, none, some, [], ◌∷◌, Bool, if◌then◌else◌,
}
use prefix_lookup_mc.Address.{Address}
use prefix_lookup_mc.Address.Word.{IsWord, Masked, word_laws, word_covering}
use prefix_lookup_mc.Mm.{Mm}
use prefix_lookup_mc.Node.Nodes.{Node, Nhi}
use prefix_lookup_mc.Trie.{insert_prefix, delete_prefix, is_empty}
use prefix_lookup_mc.Trie.Shape.{IsTrie}
use prefix_lookup_mc.Trie.Place.{leading}
use prefix_lookup_mc.Trie.Prefix.{find_prefix, insert_prefix_lem}
use prefix_lookup_mc.Trie.Remove.{delete_prefix_lem}
use prefix_lookup_mc.Lookup.Prefixes.{rule_for-find_prefix}
use prefix_lookup_mc.Routes.{Routes, update, Holds}
use prefix_lookup_mc.Routes.Change.{change-Holds}

module _ (a : Address) (word : IsWord a) (d : ℕ) where
  pub record Inserts (m : Mm) (n : Node) (p : a.Ip) (c : ℕ) (v : Nhi) (f : Routes) : Type 0 where
    pub code : ℕ
    pub after : Node
    pub stats : Mm
    pub returns : insert_prefix a m n p c v ≡ some (code, after, stats)
    pub shape : IsTrie d after
    pub holds : Holds a word d after (update f (leading a word p c) c (some v))

  pub record Removes (m : Mm) (n : Node) (p : a.Ip) (c : ℕ) (v : Nhi) (destroy : Bool) (f : Routes)
      : Type 0 where
    pub after : Node
    pub stats : Mm
    pub returns :
        delete_prefix a m n p c destroy
        ≡ some (record {
          root_empty = is_empty after;
          root = after;
          mm = stats;
          destroyed = if destroy then v ∷ [] else [];
        })
    pub shape : IsTrie d after
    pub holds : Holds a word d after (update f (leading a word p c) c none)

  module _ (m : Mm) (n : Node) (p : a.Ip) (c : ℕ) (f : Routes) (h : IsTrie d n)
      (masked : Masked a word p c) (shallow : c < (d + 1) * 6) (holds : Holds a word d n f) where
    pub inserts : (v : Nhi) → Inserts m n p c v f
    unfolding word_laws
    inserts v =
        let ins = insert_prefix_lem a (word_laws a word) d m n p c h masked shallow v in
        record {
          code = _;
          after = ins.after;
          stats = ins.stats;
          returns = ins.returns;
          shape = ins.shape;
          holds =
              change-Holds a word d n ins.after p c (some v) f masked shallow holds ins.found
                ins.others;
        }

    pub find-Holds : find_prefix a n p c ≡ f (leading a word p c) c
    unfolding word_laws word_covering
    find-Holds =
        sym (
          rule_for-find_prefix a (word_laws a word) (word_covering a word) d n p c p masked
            (record {
              p_fits = masked.fits;
              ip_fits = masked.fits;
              short = masked.short;
              same = refl;
            })
            shallow)
        ∙ holds p c masked.fits shallow

    pub removes :
        (v : Nhi) (destroy : Bool) → f (leading a word p c) c ≡ some v → Removes m n p c v destroy f
    unfolding word_laws
    removes v destroy there =
        let del =
          delete_prefix_lem a (word_laws a word) d m n p c h masked shallow v destroy
            (find-Holds ∙ there) in
        record {
          after = del.after;
          stats = del.stats;
          returns = del.returns;
          shape = del.shape;
          holds =
              change-Holds a word d n del.after p c none f masked shallow holds del.gone del.others;
        }
