-- ===== src/Trie/Path.antt =====
-- A prefix as a path: the strides down to its node, and the position of its rule there. The abstract
-- view of a trie is the partial map `find` from paths and positions to next hop information.
use prefix_lookup_mc.Base.{
  ℕ, zero, suc, ◌+◌, ◌-◌, ◌<◌, ◌≡◌, arith, Option, some, List, [], ◌∷◌, get_elem?, ltb,
  if◌then◌else◌, ◌>>=◌, All, Bool-cases, inl, inr,
}
use prefix_lookup_mc.Address.{Address, shift, inl_pos, enl_pos}
use prefix_lookup_mc.Mm.{Mm}
use prefix_lookup_mc.Node.Nodes.{Node, Nhi, children}
use prefix_lookup_mc.Node.Layout.{rule_at, child_at}
use prefix_lookup_mc.Trie.{put_child, enter_child, put_rule, insert_loop}

unfoldable pub find : Node → List ℕ → ℕ → Option Nhi
find n [] p = rule_at n p
find n (s ∷ path) p = child_at n s >>= λ c. find c path p

-- The strides of a path are below 64.
abbrev pub AreStrides : List ℕ → Type 0
AreStrides = All (λ s. s < 64)

unfoldable pub insert_path : Mm → Node → List ℕ → ℕ → ℕ → Nhi → Option (ℕ × Node × Mm)
insert_path m n [] p level nhi = put_rule m n level p nhi
insert_path m n (s ∷ path) p level nhi = do
  entered ← enter_child m n level s
  c ← get_elem? (children entered.0) entered.1
  below ← insert_path entered.2 c path p (level + 1) nhi
  n' ← put_child entered.0 entered.1 below.1
  some (below.0, n', below.2)

module _ (a : Address) where
  unfoldable pub path_of : ℕ → a.Ip → ℕ → List ℕ
  path_of zero ip cidr = []
  path_of (suc fuel) ip cidr =
      if ltb cidr 6 then [] else enl_pos a ip ∷ path_of fuel (shift a ip) (cidr - 6)

  unfoldable pub last_of : ℕ → a.Ip → ℕ → ℕ
  last_of zero ip cidr = 0
  last_of (suc fuel) ip cidr =
      if ltb cidr 6 then inl_pos a ip cidr else last_of fuel (shift a ip) (cidr - 6)

  -- The loop follows the path.
  pub insert_loop_lem :
      (fuel : ℕ) (m : Mm) (n : Node) (ip : a.Ip) (cidr level : ℕ) (nhi : Nhi)
      → cidr < fuel
      → insert_loop a fuel m n ip cidr level nhi
        ≡ insert_path m n (path_of fuel ip cidr) (last_of fuel ip cidr) level nhi
  unfolding insert_loop insert_path path_of last_of
  insert_loop_lem zero m n ip cidr level nhi h = absurd (omega arith)
  insert_loop_lem (suc fuel) m n ip cidr level nhi h = elim (Bool-cases (ltb cidr 6)) [
    | inl short ↦ rw short
    | inr long ↦
        let below : (m' : Mm) (c : Node) (l : ℕ)
            → insert_loop a fuel m' c (shift a ip) (cidr - 6) l nhi
              ≡ insert_path m' c (path_of fuel (shift a ip) (cidr - 6))
                  (last_of fuel (shift a ip) (cidr - 6)) l nhi =
          λ m' c l. insert_loop_lem fuel m' c (shift a ip) (cidr - 6) l nhi (ground arith) in
        simp (long, below)
  ]
