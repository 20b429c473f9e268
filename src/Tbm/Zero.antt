-- ===== src/Tbm/Zero.antt =====
-- The empty prefix of an entry's trie, which stands for the nearest route of the entry.
use native.Mathlib.Nat.{zero-div, zero-mod}
use prefix_lookup_mc.Base.{
  ℕ, zero, suc, ◌+◌, ◌-◌, ◌*◌, ◌^◌, ◌<◌, ◌≡◌, sym, arith, Option, true, ◌==◌,
}
use prefix_lookup_mc.Address.{Address}
use prefix_lookup_mc.Address.Word.{IsWord, Masked}
use prefix_lookup_mc.Node.Nodes.{Node, Nhi}
use prefix_lookup_mc.Trie.Place.{leading}
use prefix_lookup_mc.Routes.{Routes, update, Holds}
use prefix_lookup_mc.Tbm.Laws.{IsTabled}
use prefix_lookup_mc.Tbm.Near.{rule_of}
use prefix_lookup_mc.Tbm.Entry.{near, under}
use prefix_lookup_mc.Tbm.Changes.{Holds-ext}

module _ (a : Address) (word : IsWord a) (tabled : IsTabled a word) where
  pub zero_ip-Masked : Masked a word a.zero_ip 0
  zero_ip-Masked = record {
    fits = tabled.zero-IsIp;
    short = omega arith;
    masked = rw (tabled.zero-value) (zero-mod (2 ^ (a.width - 0)));
  }

  pub zero_ip-leading : leading a word a.zero_ip 0 ≡ 0
  zero_ip-leading = rw (tabled.zero-value) (zero-div (2 ^ (a.width - 0)))

  -- The trie of an entry after a change at its empty prefix.
  module _ (h g : Routes) (i : ℕ) (o : Option Nhi)
      (same : (bits k : ℕ) → 0 < k → bits < 2 ^ k → h bits k ≡ g (i * 2 ^ k + bits) (13 + k))
      (now : rule_of (near g i) ≡ o) where
    under_zero :
        (bits k : ℕ)
        → bits < 2 ^ k
        → update h (leading a word a.zero_ip 0) 0 o bits k ≡ under g i bits k
    unfolding update under
    under_zero bits zero l =
        let on : (bits == leading a word a.zero_ip 0) ≡ true = ground (arith, zero_ip-leading, l) in
        rw on (sym now)
    under_zero bits (suc k) l = ground (arith, same bits (suc k) (omega arith) l)

    pub zero_ip-Holds :
        (d : ℕ) (n : Node)
        → Holds a word d n (update h (leading a word a.zero_ip 0) 0 o)
        → Holds a word d n (under g i)
    zero_ip-Holds d n =
        Holds-ext a word tabled d n (update h (leading a word a.zero_ip 0) 0 o) (under g i)
          under_zero
