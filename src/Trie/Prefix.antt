-- ===== src/Trie/Prefix.antt =====
-- The operations at an address: a masked prefix is a path of the trie, and the theorems about paths
-- carry over to `insert_prefix` and `prefix_exist`.
use prefix_lookup_mc.Base.{
  ℕ, zero, suc, ◌+◌, ◌-◌, ◌*◌, ◌/◌, ◌^◌, ◌≤◌, ◌<◌, arith, Option, List, length, ltb, Bool-cases,
  inl, inr,
}
use prefix_lookup_mc.Address.{Address, IsAddress, stride_of, shift, inl_pos, enl_pos}
use prefix_lookup_mc.Bits.Words.{count_inl_bitmap-lt}
use prefix_lookup_mc.Mm.{Mm}
use prefix_lookup_mc.Node.Nodes.{Node, Nhi}
use prefix_lookup_mc.Trie.{insert_prefix}
use prefix_lookup_mc.Trie.Path.{find, AreStrides, path_of, last_of, insert_loop_lem}
use prefix_lookup_mc.Trie.Shape.{IsTrie}
use prefix_lookup_mc.Trie.Insert.{Inserted, insert_path_lem}

-- The path and the position of the prefix `ip/cidr`.
abbrev pub path : (a : Address) → a.Ip → ℕ → List ℕ
path a ip cidr = path_of a (suc cidr) ip cidr

abbrev pub last : (a : Address) → a.Ip → ℕ → ℕ
last a ip cidr = last_of a (suc cidr) ip cidr

-- What the trie holds for the prefix.
abbrev pub find_prefix : (a : Address) → Node → a.Ip → ℕ → Option Nhi
find_prefix a n ip cidr = find n (path a ip cidr) (last a ip cidr)

pub head_bound : (x k : ℕ) → x < 64 → k < 6 → x / 2 ^ (6 - k) < 2 ^ k
head_bound x zero h k = omega arith
head_bound x (suc zero) h k = omega arith
head_bound x (suc (suc zero)) h k = omega arith
head_bound x (suc (suc (suc zero))) h k = omega arith
head_bound x (suc (suc (suc (suc zero)))) h k = omega arith
head_bound x (suc (suc (suc (suc (suc zero))))) h k = omega arith
head_bound x (suc (suc (suc (suc (suc (suc c)))))) h k = absurd (omega arith)

module _ (a : Address) (laws : IsAddress a) where
  pub enl_pos-lt : (ip : a.Ip) → laws.IsIp ip → enl_pos a ip < 64
  enl_pos-lt ip h = omega (arith, laws.stride-lt ip h)

  pub path-AreStrides :
      (fuel : ℕ) (ip : a.Ip) (cidr : ℕ) → laws.IsIp ip → AreStrides (path_of a fuel ip cidr)
  unfolding path_of
  path-AreStrides zero ip cidr h = tt
  path-AreStrides (suc fuel) ip cidr h = elim (Bool-cases (ltb cidr 6)) [
    | inl short ↦ rw short tt
    | inr long ↦
        rw long
          (enl_pos-lt ip h, path-AreStrides fuel (shift a ip) (cidr - 6) (laws.shift-IsIp ip h))
  ]

  pub inl_pos-lt :
      (ip : a.Ip) (cidr : ℕ) → laws.IsMasked ip cidr → cidr < 6 → inl_pos a ip cidr < 63
  inl_pos-lt ip cidr h k =
      let stride = laws.stride-lt ip (laws.masked-IsIp ip cidr h) in
      let head : stride_of a ip cidr < 2 ^ cidr =
        rw (laws.masked_head ip cidr h k) (head_bound (stride_of a ip 6) cidr stride k) in
      omega (arith, count_inl_bitmap-lt (stride_of a ip cidr) cidr k head)

  pub last-lt :
      (fuel : ℕ) (ip : a.Ip) (cidr : ℕ)
      → laws.IsMasked ip cidr
      → cidr < fuel
      → last_of a fuel ip cidr < 63
  unfolding last_of
  last-lt zero ip cidr h k = absurd (omega arith)
  last-lt (suc fuel) ip cidr h k = elim (Bool-cases (ltb cidr 6)) [
    | inl short ↦ rw short (inl_pos-lt ip cidr h (ground arith))
    | inr long ↦ rw long (
        last-lt fuel (shift a ip) (cidr - 6) (laws.shift-IsMasked ip cidr h (ground arith))
          (ground arith))
  ]

  pub length-path : (fuel : ℕ) (ip : a.Ip) (cidr : ℕ) → length (path_of a fuel ip cidr) * 6 ≤ cidr
  unfolding path_of
  length-path zero ip cidr = omega arith
  length-path (suc fuel) ip cidr = elim (Bool-cases (ltb cidr 6)) [
    | inl short ↦ rw short (omega arith)
    | inr long ↦ rw long (ground (arith, length-path fuel (shift a ip) (cidr - 6)))
  ]

  module _ (d : ℕ) (m : Mm) (n : Node) (ip : a.Ip) (cidr : ℕ) (h : IsTrie d n)
      (masked : laws.IsMasked ip cidr) (shallow : cidr < (d + 1) * 6) where
    -- Inserting a masked prefix into a trie deep enough for it returns, without an access outside
    -- the blocks; the code is 1 if the prefix was there and 0 if not; the trie keeps its shape,
    -- holds the new information for the prefix, and what it held for every other one. The counters of
    -- nodes and bytes go along with the blocks, modulo 2 ^ 32, and no child becomes empty.
    pub insert_prefix_lem :
        (v : Nhi)
        → Inserted d m n (path a ip cidr) (last a ip cidr) v (insert_prefix a m n ip cidr v)
    unfolding insert_prefix
    insert_prefix_lem v = rw (insert_loop_lem a (suc cidr) m n ip cidr 0 v (omega arith)) (
        insert_path_lem d m n (path a ip cidr) (last a ip cidr) 0 v h
          (omega (arith, length-path (suc cidr) ip cidr))
          (path-AreStrides (suc cidr) ip cidr (laws.masked-IsIp ip cidr masked))
          (last-lt (suc cidr) ip cidr masked (omega arith)))
