-- ===== src/Tbm/Table.antt =====
-- The invariant of the table: its entries, and the trie of all prefixes, stand for one table of routes.
use native.Mathlib.Decide.{ℕ_discrete}
use prefix_lookup_mc.Base.{
  ℕ, zero, suc, ◌+◌, ◌-◌, ◌*◌, ◌^◌, ◌≤◌, ◌<◌, ◌≡◌, refl, sym, ap, ◌∙◌, arith, true, false, Option,
  none, ◌==◌, inl,
}
use prefix_lookup_mc.Address.{Address}
use prefix_lookup_mc.Address.Word.{IsWord, Masked}
use prefix_lookup_mc.Mm.{Mm}
use prefix_lookup_mc.Node.Nodes.{Nhi}
use prefix_lookup_mc.Trie.Place.{leading}
use prefix_lookup_mc.Trie.Shape.{IsTrie, zero_node-IsTrie}
use prefix_lookup_mc.Routes.{Routes, no_routes, update, Holds}
use prefix_lookup_mc.Routes.Narrow.{Narrow}
use prefix_lookup_mc.Routes.Change.{zero_node-Holds}
use prefix_lookup_mc.Tbm.{InitNode, TbmTrie, init_trie, set_entry, index_of}
use prefix_lookup_mc.Tbm.Laws.{IsTabled, leading_parts, leading-lt, rest_of_ip}
use prefix_lookup_mc.Tbm.Near.{near_below}
use prefix_lookup_mc.Tbm.Entry.{IsEntry}
use prefix_lookup_mc.Tbm.Changes.{short-Agrees_ne, Agrees-IsEntry, long-Agrees_ne}
use prefix_lookup_mc.Tbm.Sweep.{Swept, start-Sweep, finish-Sweep}
use prefix_lookup_mc.Tbm.Range.{before-IsOut, after-IsOut}

no_routes-near : (x w m : ℕ) → near_below no_routes x w m ≡ none
unfolding near_below
no_routes-near x w zero = refl
no_routes-near x w (suc m) = no_routes-near x w m

pub no_default-update :
    (f : Routes) (bits c : ℕ) (o : Option Nhi)
    → 0 < c
    → ((b : ℕ) → f b 0 ≡ none)
    → (b : ℕ) → update f bits c o b 0 ≡ none
unfolding update
no_default-update f bits c o l h b = ground (arith, l, h b)

module _ (a : Address) (word : IsWord a) where
  pub record IsTbm (t : TbmTrie) (f : Routes) : Type 0 where
    pub entries : (i : ℕ) → i < 8192 → IsEntry a word f i (t.init i)
    pub up_shape : IsTrie a.levels t.up_aux
    pub up_holds : Holds a word a.levels t.up_aux f
    pub no_default : (b : ℕ) → f b 0 ≡ none
    pub narrow : Narrow a f

  pub init_trie-IsTbm : (m up_m : Mm) → IsTbm (init_trie m up_m) no_routes
  unfolding init_trie Narrow
  init_trie-IsTbm m up_m = record {
    entries = λ i l. inl (record {
      flags = rw (no_routes-near i 13 14) refl;
      rule = rw (no_routes-near i 13 14) refl;
      no_rules = refl;
      shape = zero_node-IsTrie a.levels;
      none_under = λ b k l l'. refl;
    });
    up_shape = zero_node-IsTrie a.levels;
    up_holds = zero_node-Holds a word a.levels;
    no_default = λ b. refl;
    narrow = λ b k l. refl;
  }

  -- The entries alone have changed.
  pub record Entered (t t' : TbmTrie) (g : Routes) : Type 0 where
    pub entries : (i : ℕ) → i < 8192 → IsEntry a word g i (t'.init i)
    pub same_up : t'.up_aux ≡ t.up_aux

module _ (a : Address) (word : IsWord a) (tabled : IsTabled a word) (t : TbmTrie) (f : Routes)
    (ip : a.Ip) (h : IsTbm a word t f) where
  module _ (c : ℕ) (o : Option Nhi) (short : c ≤ 13) (masked : Masked a word ip c) where
    abbrev g : Routes
    g = update f (leading a word ip c) c o

    -- Before the loop over the covered entries, and after it.
    pub start : Swept a word tabled f g (index_of a ip) t.up_aux t
    start = record {
      sweep = start-Sweep a word tabled f g (index_of a ip) t.init h.entries (λ i l.
          short-Agrees_ne f (leading a word ip c) c o short i
            (before-IsOut a word tabled ip c masked short i l));
      same_up = refl;
    }

    pub finish :
        (t' : TbmTrie)
        → Swept a word tabled f g (index_of a ip + 2 ^ (13 - c)) t.up_aux t'
        → Entered a word t t' g
    finish t' s = record {
      entries =
          finish-Sweep a word tabled f g (index_of a ip + 2 ^ (13 - c)) t'.init s.sweep (λ i l.
            short-Agrees_ne f (leading a word ip c) c o short i
              (after-IsOut a word tabled ip c masked short i l));
      same_up = s.same_up;
    }

  module _ (c : ℕ) (o : Option Nhi) (long : 0 < c) (masked : Masked a word ip (13 + c)) where
    abbrev pub rest_bits : ℕ
    rest_bits = leading a word (rest_of_ip a word tabled ip) c

    pub same_bits : leading a word ip (13 + c) ≡ index_of a ip * 2 ^ c + rest_bits
    same_bits =
        leading_parts a word tabled ip c masked.fits masked.short
        ∙ ap (λ (s : ℕ). s * 2 ^ c + rest_bits) (sym (tabled.index-value ip masked.fits))

    -- After a change of the address's own entry.
    pub one_entry :
        (t' : TbmTrie) (n : InitNode)
        → IsEntry a word (update f (index_of a ip * 2 ^ c + rest_bits) (13 + c) o) (index_of a ip) n
        → t'.init ≡ set_entry t.init (index_of a ip) n
        → t'.up_aux ≡ t.up_aux
        → Entered a word t t' (update f (leading a word ip (13 + c)) (13 + c) o)
    one_entry t' n e set up = record {
      entries = λ i l.
          rw (set, same_bits)
            (elim (ℕ_discrete i (index_of a ip)) [
              | yes same ↦
                  let on : (i == index_of a ip) ≡ true = ground (arith, same) in rw (on, same) e
              | no ne ↦
                  let off : (i == index_of a ip) ≡ false = ground (arith, ne) in
                  rw off (
                    Agrees-IsEntry a word tabled f
                      (update f (index_of a ip * 2 ^ c + rest_bits) (13 + c) o) i (t.init i)
                      (long-Agrees_ne f (index_of a ip) rest_bits c o long
                        (leading-lt a word tabled (rest_of_ip a word tabled ip) c
                          (tabled.rest-IsIp ip masked.fits))
                        i ne)
                      (h.entries i l))
            ]);
      same_up = up;
    }
