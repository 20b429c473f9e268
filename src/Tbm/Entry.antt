-- ===== src/Tbm/Entry.antt =====
-- What an entry of the table stands for: the nearest route of its index, and the longer routes under it.
use prefix_lookup_mc.Base.{
  ℕ, zero, suc, ◌+◌, ◌*◌, ◌^◌, bit_and, bit_or, ◌<◌, ◌≡◌, refl, ap, ◌∙◌, arith, true, false, none,
  ◌⊎◌,
}
use prefix_lookup_mc.Address.{Address}
use prefix_lookup_mc.Address.Word.{IsWord}
use prefix_lookup_mc.Bits.Digits.{bit}
use prefix_lookup_mc.Bits.Words.{bit_and-pow}
use prefix_lookup_mc.Bits.Shifted.{bit_or-shifted}
use prefix_lookup_mc.Node.Nodes.{internal}
use prefix_lookup_mc.Routes.{Routes, Holds}
use prefix_lookup_mc.Tbm.{InitNode, ptr, with_ptr, has_child, prefix_hi, child_flags, ptr_flags}
use prefix_lookup_mc.Tbm.Near.{Near, near_below, hi_of, nhi_of, rule_of}
use prefix_lookup_mc.Trie.Shape.{IsTrie}
use prefix_lookup_mc.Lookup.{null_nhi}

-- Reading the flags.
even_and : (x : ℕ) → bit_and (x * 2 ^ 16) 1 ≡ 0
unfolding bit
even_and x = bit_and-pow (x * 2 ^ 16) 0 ∙ ground arith

odd_and : (x : ℕ) → bit_and (x * 2 ^ 16 + 1) 1 ≡ 1
unfolding bit
odd_and x = bit_and-pow (x * 2 ^ 16 + 1) 0 ∙ ground arith

pub even_or : (x : ℕ) → bit_or (x * 2 ^ 16) 1 ≡ x * 2 ^ 16 + 1
even_or x =
    ap (λ (t : ℕ). bit_or t 1) (omega arith)
    ∙ bit_or-shifted 1 (x * 2 ^ 15) 1 (omega arith)
    ∙ omega arith

pub has_child_of_ptr : (n : InitNode) (k : ℕ) → n.flags ≡ ptr_flags k → has_child n ≡ false
has_child_of_ptr n k e = rw (e, even_and k) refl

pub has_child_of_child : (n : InitNode) (k : ℕ) → n.flags ≡ child_flags k → has_child n ≡ true
has_child_of_child n k e = rw (e, odd_and k) refl

pub prefix_hi_of_ptr : (n : InitNode) (k : ℕ) → n.flags ≡ ptr_flags k → prefix_hi n ≡ k
prefix_hi_of_ptr n k e = rw e (omega arith)

pub prefix_hi_of_child : (n : InitNode) (k : ℕ) → n.flags ≡ child_flags k → prefix_hi n ≡ k
prefix_hi_of_child n k e = rw e (omega arith)

-- The nearest route of an index, of at most 13 bits.
abbrev pub near : Routes → ℕ → Near
near f i = near_below f i 13 14

-- The table behind an index: its nearest route for every address, and the longer routes under it.
unfoldable pub under : Routes → ℕ → Routes
under f i bits zero = rule_of (near f i)
under f i bits (suc k) = f (i * 2 ^ suc k + bits) (13 + suc k)

pub under_long_routes :
    (f : Routes) (i bits k : ℕ) → 0 < k → under f i bits k ≡ f (i * 2 ^ k + bits) (13 + k)
unfolding under
under_long_routes f i bits zero l = absurd (omega arith)
under_long_routes f i bits (suc k) l = refl

module _ (a : Address) (word : IsWord a) where
  -- An entry with a rule of its own, or with none, and no trie.
  pub record IsPtr (f : Routes) (i : ℕ) (n : InitNode) : Type 0 where
    pub flags : n.flags ≡ ptr_flags (hi_of (near f i))
    pub rule : ptr n ≡ nhi_of (near f i)
    pub no_rules : internal n.e ≡ 0
    pub shape : IsTrie a.levels (with_ptr n.e null_nhi)
    pub none_under : (bits k : ℕ) → 0 < k → bits < 2 ^ k → f (i * 2 ^ k + bits) (13 + k) ≡ none

  -- An entry with a trie.
  pub record IsChild (f : Routes) (i : ℕ) (n : InitNode) : Type 0 where
    pub flags : n.flags ≡ child_flags (hi_of (near f i))
    pub shape : IsTrie a.levels n.e
    pub holds : Holds a word a.levels n.e (under f i)

  abbrev pub IsEntry : Routes → ℕ → InitNode → Type 0
  IsEntry f i n = IsPtr f i n ⊎ IsChild f i n

-- What the entries depend on.
pub record Agrees (f g : Routes) (i : ℕ) : Type 0 where
  pub nears : near f i ≡ near g i
  pub unders :
      (bits k : ℕ)
      → 0 < k
      → bits < 2 ^ k
      → f (i * 2 ^ k + bits) (13 + k) ≡ g (i * 2 ^ k + bits) (13 + k)
