-- ===== src/Tbm/Remove.antt =====
-- `tbm_delete_prefix` as a change of the table of routes.
use native.Mathlib.Decide.{dec_lt}
use prefix_lookup_mc.Base.{
  ℕ, ◌+◌, ◌-◌, ◌*◌, ◌^◌, ◌≤◌, ◌<◌, ◌≡◌, refl, sym, ap, ◌∙◌, arith, Bool, true, false, Option, none,
  some, List, [], leb, ltb, ◌==◌, if◌then◌else◌, ◌>>=◌, inl, inr, Gives, gives, Gives-bind,
  Gives-map, Gives-value, ◌⊎◌,
}
use prefix_lookup_mc.Address.{Address}
use prefix_lookup_mc.Address.Word.{IsWord, Masked}
use prefix_lookup_mc.Node.Nodes.{Nhi}
use prefix_lookup_mc.Trie.Place.{leading}
use prefix_lookup_mc.Lookup.{detect_overlap_generic, deref}
use prefix_lookup_mc.Routes.{Routes, update}
use prefix_lookup_mc.Routes.Narrow.{Narrow, Narrow-update}
use prefix_lookup_mc.Routes.Updates.{removes}
use prefix_lookup_mc.Tbm.{TbmTrie, has_child, index_of, initial_bits}
use prefix_lookup_mc.Tbm.Delete.{uncover_loop, delete_below, tbm_delete_prefix}
use prefix_lookup_mc.Tbm.Laws.{IsTabled, index-lt, leading-lt, rest_of_ip}
use prefix_lookup_mc.Tbm.Near.{Near, near_below, near_below_short, hi_of, nhi_of, rule_of}
use prefix_lookup_mc.Tbm.Overlap.{limit_of, detect_overlap_generic_lem}
use prefix_lookup_mc.Tbm.Entry.{near, has_child_of_child}
use prefix_lookup_mc.Tbm.Range.{covered-IsIn, covered_room}
use prefix_lookup_mc.Tbm.Uncover.{called}
use prefix_lookup_mc.Tbm.Uncovered.{uncover_loop_lem}
use prefix_lookup_mc.Tbm.Dropped.{delete_below_lem}
use prefix_lookup_mc.Tbm.Table.{
  IsTbm, Entered, start, finish, one_entry, same_bits, rest_bits, no_default-update,
}

pub deref-rule_of : (o : Near) → deref (rule_of o) ≡ nhi_of o
deref-rule_of none = refl
deref-rule_of (some (k, v)) = refl

module _ (a : Address) (word : IsWord a) (tabled : IsTabled a word) (t : TbmTrie) (f : Routes)
    (ip : a.Ip) (destroy : Bool) (h : IsTbm a word t f) where
  abbrev g : ℕ → Routes
  g c = update f (leading a word ip c) c none

  -- The infos handed to destroy_nhi: the deleted route's, if there is a destroy_nhi. For a short prefix it
  -- may be none, where longer prefixes hide it in every entry.
  abbrev pub Gone : ℕ → Nhi → List Nhi → Type 0
  Gone c v gone = ((c ≤ 13) × (gone ≡ [])) ⊎ (gone ≡ called destroy v)

  abbrev Removed : ℕ → Nhi → TbmTrie × List Nhi → Type 0
  Removed c v r = Entered a word t r.0 (g c) × Gone c v r.1

  -- The entries, by the length of the prefix, and the infos that go.
  delete_entries : ℕ → Option (TbmTrie × List Nhi)
  delete_entries c =
      if leb c initial_bits
      then (detect_overlap_generic a t.up_aux ip c initial_bits >>= λ near.
          uncover_loop a (2 ^ (initial_bits - c))
            (record { trie = t; destroy = destroy; destroyed = [] }) (index_of a ip) c near.0
            (deref near.1)
          >>= λ s. some (s.trie, s.destroyed))
      else if has_child (t.init (index_of a ip))
      then delete_below a t ip c destroy
      else some (t, [])

  module _ (c : ℕ) (v : Nhi) (masked : Masked a word ip c)
      (there : f (leading a word ip c) c ≡ some v) (some_bits : 0 < c) where
    narrow : Narrow a (g c)
    narrow = Narrow-update a f (leading a word ip c) c none h.narrow masked.short

    delete_entries_short : c ≤ 13 → Gives (Removed c v) (delete_entries c)
    unfolding delete_entries
    delete_entries_short short =
        let below : leb c 13 ≡ true = ground (arith, short) in
        let not_above : ltb 13 c ≡ false = ground (arith, short) in
        let limit : limit_of c 13 ≡ c = rw not_above refl in
        let over = near_below f (leading a word ip c) c c in
        let same : near_below f (word.value ip) a.width c ≡ over =
          near_below_short f (word.value ip) a.width c c masked.short (omega arith) in
        let found : detect_overlap_generic a t.up_aux ip c 13 ≡ some (hi_of over, rule_of over) =
          detect_overlap_generic_lem a word a.levels t.up_aux f ip c 13 h.up_holds masked.fits
            (omega (arith, limit, short, tabled.deep, tabled.long)) h.up_shape h.no_default
            (omega (arith, limit, short))
          ∙ rw (limit, same) refl in
        rw (below, found, deref-rule_of over)
          (Gives-bind
            (uncover_loop_lem a word tabled f (leading a word ip c) c v short some_bits there
              h.no_default narrow (2 ^ (13 - c)) (index_of a ip)
              (record { trie = t; destroy = destroy; destroyed = [] }) t.up_aux destroy
              (covered_room a word tabled ip c masked short)
              (covered-IsIn a word tabled ip c masked short)
              (start a word tabled t f ip h c none short masked) (inl (refl, refl)))
            λ s r. gives (
              finish a word tabled t f ip h c none short masked s.trie r.0,
              elim r.1 [ inl e ↦ inl (short, e.0) | inr e ↦ inr e.0 ],
            ))

  delete_entries_long :
      (c : ℕ) (v : Nhi)
      → 0 < c
      → Masked a word ip (13 + c)
      → f (leading a word ip (13 + c)) (13 + c) ≡ some v
      → Gives (Removed (13 + c) v) (delete_entries (13 + c))
  unfolding delete_entries
  delete_entries_long c v long masked there =
      let j = index_of a ip in
      let b = rest_bits a word tabled t f ip h c none long masked in
      let bits : leading a word ip (13 + c) ≡ j * 2 ^ c + b =
        same_bits a word tabled t f ip h c none long masked in
      let there' : f (j * 2 ^ c + b) (13 + c) ≡ some v =
        ap (λ (s : ℕ). f s (13 + c)) (sym bits) ∙ there in
      let low : b < 2 ^ c =
        leading-lt a word tabled (rest_of_ip a word tabled ip) c
          (tabled.rest-IsIp ip masked.fits) in
      let above : leb (13 + c) 13 ≡ false = ground (arith, long) in
      elim (h.entries j (index-lt a word tabled ip masked.fits)) [
        | inl p ↦ absurd (ground (arith, p.none_under b c long low, there'))
        | inr e ↦
            let child : has_child (t.init j) ≡ true =
              has_child_of_child (t.init j) (hi_of (near f j)) e.flags in
            rw (above, child)
              (Gives-map
                (delete_below_lem a word tabled f t ip c v long masked destroy e h.up_shape
                  h.up_holds h.no_default
                  (Narrow-update a f (j * 2 ^ c + b) (13 + c) none h.narrow masked.short) there')
                λ r d. (
                  one_entry a word tabled t f ip h c none long masked r.0 d.0.entry d.0.stands
                      d.0.set d.0.same_up,
                  inr d.1,
                ))
      ]

  pub record RemovesRoute (c : ℕ) (v : Nhi) : Type 0 where
    pub after : TbmTrie
    pub gone : List Nhi
    pub returns : tbm_delete_prefix a t ip c destroy ≡ some (true, after, gone)
    pub destroyed : Gone c v gone
    pub stands : IsTbm a word after (g c)

  delete_entries_lem :
      (c : ℕ) (v : Nhi)
      → Masked a word ip c
      → 0 < c
      → f (leading a word ip c) c ≡ some v
      → Gives (Removed c v) (delete_entries c)
  delete_entries_lem c v masked some_bits there = elim (dec_lt 13 c) [
    | no short ↦ delete_entries_short c v masked there some_bits (omega (arith, short))
    | yes long ↦
        let same : c ≡ 13 + (c - 13) = omega (arith, long) in
        rw same (
          delete_entries_long (c - 13) v (omega (arith, long)) (rw same at masked)
            (rw same at there))
  ]

  -- For a table that stands for a table of routes, and a masked prefix of at least one bit that has a route,
  -- tbm_delete_prefix returns 0 without a fault, and the table then stands for the routes without that one:
  -- the entries that showed it show the next shorter route, if there is one, and an entry whose trie is
  -- left empty has none any more. If there is a destroy_nhi, it is called once, with the deleted route's
  -- information, or, for a prefix of at most 13 bits only, not at all.
  pub tbm_delete_prefix_lem :
      (c : ℕ) (v : Nhi)
      → Masked a word ip c
      → 0 < c
      → f (leading a word ip c) c ≡ some v
      → RemovesRoute c v
  unfolding tbm_delete_prefix delete_entries
  tbm_delete_prefix_lem c v masked some_bits there =
      let not_default : (c == 0) ≡ false = ground (arith, some_bits) in
      let (r, (e, paid), entered) = Gives-value (delete_entries_lem c v masked some_bits there) in
      let up =
        removes a word a.levels (r.0).up_m (r.0).up_aux ip c f (rw e.same_up h.up_shape) masked
          (omega (arith, tabled.deep, masked.short)) (rw e.same_up h.up_holds) v false there in
      record {
        after = record (r.0) { up_aux = up.after; up_m = up.stats };
        gone = r.1;
        destroyed = paid;
        returns = rw (not_default, entered, up.returns) refl;
        stands = record {
          entries = e.entries;
          up_shape = up.shape;
          up_holds = up.holds;
          no_default = no_default-update f (leading a word ip c) c none some_bits h.no_default;
          narrow = Narrow-update a f (leading a word ip c) c none h.narrow masked.short;
        };
      }

  pub tbm_delete_prefix-default : tbm_delete_prefix a t ip 0 destroy ≡ some (false, t, [])
  unfolding tbm_delete_prefix
  tbm_delete_prefix-default = refl
