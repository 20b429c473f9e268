-- ===== src/Tbm/Dropped.antt =====
-- `tbm_delete_prefix` of a prefix of more than 13 bits: the trie of its entry.
use prefix_lookup_mc.Base.{
  ℕ, ◌+◌, ◌-◌, ◌*◌, ◌/◌, ◌^◌, ◌<◌, ◌≡◌, refl, sym, ap, ◌∙◌, arith, Bool, true, Option, none, some,
  List, ltb, inl, inr, Bool-cases, Gives, gives,
}
use prefix_lookup_mc.Address.{Address}
use prefix_lookup_mc.Address.Word.{IsWord, Masked}
use prefix_lookup_mc.Node.Nodes.{Nhi}
use prefix_lookup_mc.Trie.{is_empty}
use prefix_lookup_mc.Trie.Place.{leading}
use prefix_lookup_mc.Trie.Shape.{IsTrie}
use prefix_lookup_mc.Lookup.{detect_overlap_generic, null_nhi}
use prefix_lookup_mc.Routes.{Routes, update, Holds}
use prefix_lookup_mc.Routes.Narrow.{Narrow}
use prefix_lookup_mc.Routes.Updates.{removes}
use prefix_lookup_mc.Tbm.{InitNode, with_ptr, TbmTrie, set_entry, index_of, child_flags}
use prefix_lookup_mc.Tbm.Delete.{uncover_ptr, delete_below}
use prefix_lookup_mc.Tbm.Laws.{IsTabled, rest_of_ip, rest-Masked, leading-lt}
use prefix_lookup_mc.Tbm.Near.{Near, near_below, near_below_short, with_length, hi_of}
use prefix_lookup_mc.Tbm.Overlap.{limit_of, detect_overlap_generic_lem}
use prefix_lookup_mc.Tbm.Entry.{near, under, under_long_routes, IsChild, IsEntry}
use prefix_lookup_mc.Tbm.Changes.{Holds-ext, near_long, under_long}
use prefix_lookup_mc.Tbm.Uncover.{called}
use prefix_lookup_mc.Tbm.Emptied.{emptied-near, emptied-IsPtr}

with_length-none : (k : ℕ) (o : Option Nhi) (x : Near) → with_length k o x ≡ none → x ≡ none
with_length-none k none x e = e
with_length-none k (some v) x e = absurd (ground (arith, e))

-- Nothing of at most 13 bits, nothing of fewer.
near-none : (f : Routes) (i : ℕ) → near f i ≡ none → near_below f i 13 13 ≡ none
unfolding near_below
near-none f i e = with_length-none 13 (f (i / 2 ^ (13 - 13)) 13) (near_below f i 13 13) e

module _ (a : Address) (word : IsWord a) (tabled : IsTabled a word) (f : Routes) (t : TbmTrie)
    (ip : a.Ip) (c : ℕ) (v : Nhi) (long : 0 < c) (masked : Masked a word ip (13 + c)) where
  abbrev pub j : ℕ
  j = index_of a ip

  abbrev pub b : ℕ
  b = leading a word (rest_of_ip a word tabled ip) c

  abbrev g : Routes
  g = update f (j * 2 ^ c + b) (13 + c) none

  -- The entry of the address alone is another one.
  pub record Drops (t' : TbmTrie) : Type 0 where
    pub entry : InitNode
    pub stands : IsEntry a word g j entry
    pub set : t'.init ≡ set_entry t.init j entry
    pub same_up : t'.up_aux ≡ t.up_aux

  -- What `up_aux` has above the prefix, when the entry's trie is left empty.
  nothing_over :
      IsTrie a.levels t.up_aux
      → Holds a word a.levels t.up_aux f
      → ((bits : ℕ) → f bits 0 ≡ none)
      → near f j ≡ none
      → detect_overlap_generic a t.up_aux ip (13 + c) 13 ≡ some (0, none)
  nothing_over shape holds no_default e =
      let longer : ltb 13 (13 + c) ≡ true = ground (arith, long) in
      let limit : limit_of (13 + c) 13 ≡ 13 = rw longer refl in
      let no_near : near_below f (word.value ip) a.width 13 ≡ none =
        near_below_short f (word.value ip) a.width 13 13 (omega (arith, tabled.long)) (omega arith)
        ∙ ap (λ (s : ℕ). near_below f s 13 13) (sym (tabled.index-value ip masked.fits))
        ∙ near-none f (index_of a ip) e in
      detect_overlap_generic_lem a word a.levels t.up_aux f ip (13 + c) 13 holds masked.fits
        (omega (arith, limit, tabled.long, tabled.deep)) shape no_default (omega (arith, limit))
      ∙ rw (limit, no_near) refl

  pub delete_below_lem :
      (destroy : Bool)
      → IsChild a word f j (t.init j)
      → IsTrie a.levels t.up_aux
      → Holds a word a.levels t.up_aux f
      → ((bits : ℕ) → f bits 0 ≡ none)
      → Narrow a g
      → f (j * 2 ^ c + b) (13 + c) ≡ some v
      → Gives
          (λ (r : TbmTrie × List Nhi). Drops r.0 × (r.1 ≡ called destroy v))
          (delete_below a t ip (13 + c) destroy)
  unfolding delete_below uncover_ptr
  delete_below_lem destroy e shape holds no_default narrow there =
      let length : 13 + c - 13 ≡ c = omega arith in
      let rest = rest-Masked a word tabled ip c masked.fits masked.short masked in
      let low : b < 2 ^ c = leading-lt a word tabled (rest_of_ip a word tabled ip) c rest.fits in
      let del =
        removes a word a.levels t.m (t.init j).e (rest_of_ip a word tabled ip) c (under f j) e.shape
          rest (omega (arith, tabled.deep, masked.short)) e.holds v destroy
          (under_long_routes f j b c long ∙ there) in
      let below : Holds a word a.levels del.after (under g j) =
        Holds-ext a word tabled a.levels del.after (update (under f j) b c none) (under g j)
          (under_long f j b c none long low) del.holds in
      let same : near g j ≡ near f j = near_long f j b c none long low j in
      rw (length, del.returns)
        (elim (Bool-cases (is_empty del.after)) [
          | inl empty ↦
              let gone : near f j ≡ none =
                sym same ∙ emptied-near a word tabled g j del.after del.shape below narrow empty in
              rw (empty, nothing_over shape holds no_default gone)
                (gives (
                  record {
                    entry = record { flags = 0; e = with_ptr del.after null_nhi };
                    stands =
                        inl
                          (emptied-IsPtr a word tabled g j del.after del.shape below narrow empty);
                    set = refl;
                    same_up = refl;
                  },
                  refl,
                ))
          | inr left ↦ rw left (
              gives (
                record {
                  entry = record { flags = (t.init j).flags; e = del.after };
                  stands = inr (record {
                    flags = e.flags ∙ ap (λ o. child_flags (hi_of o)) (sym same);
                    shape = del.shape;
                    holds = below;
                  });
                  set = refl;
                  same_up = refl;
                },
                refl,
              ))
        ])
