-- ===== src/Routes.antt =====
-- What a trie promises: a table of routes, which is a partial map from the leading bits of an address
-- and their number to next hop information. The calls of a client change the table at one prefix, and
-- the search is the longest match in the table.
pub mod Narrow
pub mod Change
pub mod Updates
pub mod Places
pub mod Match
pub mod Empty
pub mod Client
pub mod Account
use native.Mathlib.Decide.{ℕ_discrete}
use prefix_lookup_mc.Base.{
  ℕ, zero, suc, ◌+◌, ◌-◌, ◌*◌, ◌/◌, ◌^◌, ◌<◌, ◌≡◌, refl, ap, ap₂, Option, none, ◌==◌, ◌&&◌,
  if◌then◌else◌, arith,
}
use prefix_lookup_mc.Address.{Address}
use prefix_lookup_mc.Address.Word.{IsWord}
use prefix_lookup_mc.Node.Nodes.{Node, Nhi}
use prefix_lookup_mc.Trie.Place.{leading}
use prefix_lookup_mc.Lookup.{or_else}
use prefix_lookup_mc.Lookup.Best.{rule_for, best}

abbrev pub Routes : Type 0
Routes = ℕ → ℕ → Option Nhi

abbrev pub no_routes : Routes
no_routes bits k = none

unfoldable pub update : Routes → ℕ → ℕ → Option Nhi → Routes
update f bits k o bits' k' = if bits' == bits && k' == k then o else f bits' k'

-- The longest match of fewer than `k` bits, for a word of `width` bits.
unfoldable pub longest_prefix : Routes → ℕ → ℕ → ℕ → Option Nhi
longest_prefix f width x zero = none
longest_prefix f width x (suc k) = or_else (f (x / 2 ^ (width - k)) k) (longest_prefix f width x k)

module _ (a : Address) (word : IsWord a) where
  -- The trie holds the routes of the table, and no others.
  abbrev pub Holds : ℕ → Node → Routes → Type 0
  Holds d n f =
      (ip : a.Ip) (k : ℕ)
      → word.IsIp ip
      → k < (d + 1) * 6
      → rule_for a d n ip k ≡ f (leading a word ip k) k

  pub best-longest_prefix :
      (d : ℕ) (n : Node) (f : Routes) (ip : a.Ip) (m : ℕ)
      → Holds d n f
      → word.IsIp ip
      → m < (d + 1) * 6 + 1
      → best a d n ip m ≡ longest_prefix f a.width (word.value ip) m
  unfolding best longest_prefix
  best-longest_prefix d n f ip zero h i l = refl
  best-longest_prefix d n f ip (suc m) h i l =
      ap₂ or_else (h ip m i (omega arith)) (best-longest_prefix d n f ip m h i (omega arith))
