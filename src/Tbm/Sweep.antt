-- ===== src/Tbm/Sweep.antt =====
-- The loops over the entries that a short prefix covers: the entries before the index stand for one
-- table of routes, those from it on for the other.
use native.Mathlib.Decide.{ℕ_discrete, dec_lt}
use prefix_lookup_mc.Base.{ℕ, ◌+◌, ◌≤◌, ◌<◌, ◌≡◌, arith, ◌==◌, true, false}
use prefix_lookup_mc.Address.{Address}
use prefix_lookup_mc.Address.Word.{IsWord}
use prefix_lookup_mc.Node.Nodes.{Node}
use prefix_lookup_mc.Routes.{Routes}
use prefix_lookup_mc.Tbm.{InitNode, TbmTrie, set_entry}
use prefix_lookup_mc.Tbm.Laws.{IsTabled}
use prefix_lookup_mc.Tbm.Entry.{Agrees, IsEntry}
use prefix_lookup_mc.Tbm.Changes.{Agrees-IsEntry}

module _ (a : Address) (word : IsWord a) (tabled : IsTabled a word) (f g : Routes) where
  pub record Sweep (index : ℕ) (init : ℕ → InitNode) : Type 0 where
    pub done : (i : ℕ) → i < 8192 → i < index → IsEntry a word g i (init i)
    pub todo : (i : ℕ) → i < 8192 → index ≤ i → IsEntry a word f i (init i)

  -- A table with `up` for the trie of all prefixes, which the loops leave alone.
  pub record Swept (index : ℕ) (up : Node) (t : TbmTrie) : Type 0 where
    pub sweep : Sweep index t.init
    pub same_up : t.up_aux ≡ up

  pub start-Sweep :
      (index : ℕ) (init : ℕ → InitNode)
      → ((i : ℕ) → i < 8192 → IsEntry a word f i (init i))
      → ((i : ℕ) → i < index → Agrees f g i)
      → Sweep index init
  start-Sweep index init all same = record {
    done = λ i l l'. Agrees-IsEntry a word tabled f g i (init i) (same i l') (all i l);
    todo = λ i l l'. all i l;
  }

  pub set_entry-Sweep :
      (index : ℕ) (init : ℕ → InitNode) (n : InitNode)
      → Sweep index init
      → IsEntry a word g index n
      → Sweep (index + 1) (set_entry init index n)
  set_entry-Sweep index init n s e = record {
    done = λ i l l'. elim (ℕ_discrete i index) [
      | yes same ↦ let on : (i == index) ≡ true = ground (arith, same) in rw (on, same) e
      | no ne ↦
          let off : (i == index) ≡ false = ground (arith, ne) in
          rw off (s.done i l (omega (arith, l', ne)))
    ];
    todo = λ i l l'.
        let off : (i == index) ≡ false = ground (arith, l') in rw off (s.todo i l (omega arith));
  }

  pub keep-Sweep :
      (index : ℕ) (init : ℕ → InitNode)
      → Sweep index init
      → IsEntry a word g index (init index)
      → Sweep (index + 1) init
  keep-Sweep index init s e = record {
    done = λ i l l'. elim (ℕ_discrete i index) [
      | yes same ↦ rw same e
      | no ne ↦ s.done i l (omega (arith, l', ne))
    ];
    todo = λ i l l'. s.todo i l (omega arith);
  }

  pub finish-Sweep :
      (index : ℕ) (init : ℕ → InitNode)
      → Sweep index init
      → ((i : ℕ) → index ≤ i → Agrees f g i)
      → (i : ℕ) → i < 8192
      → IsEntry a word g i (init i)
  finish-Sweep index init s same i l = elim (dec_lt i index) [
    | yes before ↦ s.done i l before
    | no after ↦
        Agrees-IsEntry a word tabled f g i (init i) (same i (omega arith))
          (s.todo i l (omega arith))
  ]
