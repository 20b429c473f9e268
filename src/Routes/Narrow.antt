-- ===== src/Routes/Narrow.antt =====
-- Tables of routes that fit an address.
use prefix_lookup_mc.Base.{
  ℕ, zero, suc, ◌+◌, ◌-◌, ◌/◌, ◌^◌, ◌<◌, ◌≤◌, ◌≡◌, ap, ◌∙◌, Option, none, arith,
}
use prefix_lookup_mc.Address.{Address}
use prefix_lookup_mc.Node.Nodes.{Nhi}
use prefix_lookup_mc.Routes.{Routes, update, longest_prefix}

-- No table has a route of more bits than an address.
unfoldable pub Narrow : (a : Address) → Routes → Type 0
Narrow a f = (bits k : ℕ) → a.width < k → f bits k ≡ none

pub Narrow-update :
    (a : Address) (f : Routes) (bits k : ℕ) (o : Option Nhi)
    → Narrow a f
    → k ≤ a.width
    → Narrow a (update f bits k o)
unfolding Narrow update
Narrow-update a f bits k o h l bits' k' l' = ground (arith, h bits' k' l')

pub longest_prefix-Narrow :
    (a : Address) (f : Routes) (x extra : ℕ)
    → Narrow a f
    → longest_prefix f a.width x (extra + suc a.width) ≡ longest_prefix f a.width x (suc a.width)
unfolding longest_prefix Narrow
longest_prefix-Narrow a f x zero h =
    let none_more : 0 + suc a.width ≡ suc a.width = omega arith in
    ap (longest_prefix f a.width x) none_more
longest_prefix-Narrow a f x (suc extra) h =
    let more : suc extra + suc a.width ≡ suc (extra + suc a.width) = omega arith in
    ap (longest_prefix f a.width x) more
    ∙ rw (h (x / 2 ^ (a.width - (extra + suc a.width))) (extra + suc a.width) (omega arith))
        (longest_prefix-Narrow a f x extra h)
