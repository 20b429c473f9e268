-- ===== src/Tbm/Insert.antt =====
-- `tbm_insert_prefix` as a change of the table of routes.
use native.Mathlib.Decide.{dec_lt}
use prefix_lookup_mc.Base.{
  ℕ, ◌+◌, ◌-◌, ◌^◌, ◌≤◌, ◌<◌, ◌≡◌, refl, arith, true, false, Option, some, leb, ◌==◌, if◌then◌else◌,
  ◌>>=◌, Gives, gives, Gives-bind, Gives-map, Gives-value,
}
use prefix_lookup_mc.Address.{Address}
use prefix_lookup_mc.Address.Word.{IsWord, Masked}
use prefix_lookup_mc.Node.Nodes.{Nhi}
use prefix_lookup_mc.Trie.Place.{leading}
use prefix_lookup_mc.Routes.{Routes, update}
use prefix_lookup_mc.Routes.Narrow.{Narrow-update}
use prefix_lookup_mc.Routes.Updates.{inserts}
use prefix_lookup_mc.Tbm.{
  TbmTrie, tbm_insert_prefix, cover_loop, insert_below, set_entry, index_of, initial_bits,
}
use prefix_lookup_mc.Tbm.Laws.{IsTabled, index-lt}
use prefix_lookup_mc.Tbm.Range.{covered-IsIn, covered_room}
use prefix_lookup_mc.Tbm.Cover.{cover_loop_lem}
use prefix_lookup_mc.Tbm.Below.{insert_below_lem}
use prefix_lookup_mc.Tbm.Table.{IsTbm, Entered, start, finish, one_entry, no_default-update}

module _ (a : Address) (word : IsWord a) (tabled : IsTabled a word) (t : TbmTrie) (f : Routes)
    (ip : a.Ip) (v : Nhi) (h : IsTbm a word t f) where
  abbrev g : ℕ → Routes
  g c = update f (leading a word ip c) c (some v)

  -- The entries, by the length of the prefix.
  insert_entries : ℕ → Option TbmTrie
  insert_entries c =
      if leb c initial_bits
      then cover_loop a (2 ^ (initial_bits - c)) t (index_of a ip) c v
      else (insert_below a t.m (t.init (index_of a ip)) ip c v >>= λ r.
          some (record t { init = set_entry t.init (index_of a ip) r.0; m = r.1 }))

  insert_entries_short :
      (c : ℕ)
      → Masked a word ip c
      → c ≤ 13
      → Gives (λ t'. Entered a word t t' (g c)) (insert_entries c)
  unfolding insert_entries
  insert_entries_short c masked short =
      let below : leb c 13 ≡ true = ground (arith, short) in
      rw below (
        Gives-map
          (cover_loop_lem a word tabled f (leading a word ip c) c v short (2 ^ (13 - c))
            (index_of a ip) t (covered_room a word tabled ip c masked short)
            (covered-IsIn a word tabled ip c masked short)
            ((start a word tabled t f ip h c (some v) short masked).sweep))
          (finish a word tabled t f ip h c (some v) short masked))

  insert_entries_long :
      (c : ℕ)
      → Masked a word ip (13 + c)
      → 0 < c
      → Gives (λ t'. Entered a word t t' (g (13 + c))) (insert_entries (13 + c))
  unfolding insert_entries
  insert_entries_long c masked long =
      let above : leb (13 + c) 13 ≡ false = ground (arith, long) in
      rw above (
        Gives-bind
          (insert_below_lem a word tabled f (index_of a ip) h.no_default t.m
            (t.init (index_of a ip)) ip c v long masked
            (h.entries (index_of a ip) (index-lt a word tabled ip masked.fits)))
          λ r e. gives (
            one_entry a word tabled t f ip h c (some v) long masked
              (record t { init = set_entry t.init (index_of a ip) r.0; m = r.1 }) r.0 e refl refl))

  insert_entries_lem :
      (c : ℕ) → Masked a word ip c → Gives (λ t'. Entered a word t t' (g c)) (insert_entries c)
  insert_entries_lem c masked = elim (dec_lt 13 c) [
    | no short ↦ insert_entries_short c masked (omega (arith, short))
    | yes long ↦
        let same : c ≡ 13 + (c - 13) = omega (arith, long) in
        rw same (insert_entries_long (c - 13) (rw same at masked) (omega (arith, long)))
  ]

  pub record InsertsRoute (c : ℕ) : Type 0 where
    pub after : TbmTrie
    pub returns : tbm_insert_prefix a t ip c v ≡ some (true, after)
    pub stands : IsTbm a word after (g c)

  -- For a table that stands for a table of routes, and a masked prefix of at least one bit, tbm_insert_prefix
  -- returns 0 without a fault, and the table then stands for the routes with the new one for the prefix:
  -- every entry has its nearest route and the longer ones under it, and up_aux has all of them.
  pub tbm_insert_prefix_lem : (c : ℕ) → Masked a word ip c → 0 < c → InsertsRoute c
  unfolding tbm_insert_prefix insert_entries
  tbm_insert_prefix_lem c masked some_bits =
      let not_default : (c == 0) ≡ false = ground (arith, some_bits) in
      let (t', e, entered) = Gives-value (insert_entries_lem c masked) in
      let up =
        inserts a word a.levels t'.up_m t'.up_aux ip c f (rw e.same_up h.up_shape) masked
          (omega (arith, tabled.deep, masked.short)) (rw e.same_up h.up_holds) v in
      record {
        after = record t' { up_aux = up.after; up_m = up.stats };
        returns = rw (not_default, entered, up.returns) refl;
        stands = record {
          entries = e.entries;
          up_shape = up.shape;
          up_holds = up.holds;
          no_default = no_default-update f (leading a word ip c) c (some v) some_bits h.no_default;
          narrow = Narrow-update a f (leading a word ip c) c (some v) h.narrow masked.short;
        };
      }

  pub tbm_insert_prefix-default : tbm_insert_prefix a t ip 0 v ≡ some (false, t)
  unfolding tbm_insert_prefix
  tbm_insert_prefix-default = refl
