-- ===== src/Mm.antt =====
-- lib/mm.h and lib/mm.c: the allocators that are registered, the statistics that every allocation
-- and release keeps, and the choice of an allocator by its type. What calloc and free do with the
-- heap is not modelled here: a block's contents stand in the node that owns it.
pub mod Registry
use prefix_lookup_mc.Base.{
  ℕ, ◌+◌, ◌-◌, ◌*◌, ◌%◌, ◌^◌, ◌==◌, ltb, if◌then◌else◌, Option, none, some, List, [], ◌∷◌, ◌++◌,
  Bool,
}

-- sizeof(struct mb_node): two bitmaps and a pointer.
abbrev pub node_size : ℕ
node_size = 24

-- uint32_t arithmetic
abbrev pub add_u32 : ℕ → ℕ → ℕ
add_u32 a b = (a + b) % 2 ^ 32

abbrev pub sub_u32 : ℕ → ℕ → ℕ
sub_u32 a b = (a + 2 ^ 32 - b % 2 ^ 32) % 2 ^ 32

-- The arrays by level are functions of the level.
pub record MemStat : Type 0 where
  pub mem : ℕ
  pub node : ℕ
  pub lmem : ℕ → ℕ
  pub lnode : ℕ → ℕ

-- `has_init` and `has_uinit` say which optional functions an allocator fills in.
pub record MemOp : Type 0 where
  pub type : ℕ
  pub priv_size : ℕ
  pub has_init : Bool
  pub has_uinit : Bool

pub record Mm : Type 0 where
  pub ms : MemStat
  pub op : MemOp

abbrev pub no_stat : MemStat
no_stat = record { mem = 0; node = 0; lmem = λ _. 0; lnode = λ _. 0 }

-- One entry of an array by level, changed.
abbrev pub at_level : (ℕ → ℕ) → ℕ → (ℕ → ℕ) → ℕ → ℕ
at_level a level f l = if l == level then f (a l) else a l

unfoldable pub alloc_node : Mm → ℕ → ℕ → Mm
alloc_node m node_num level = record m {
  ms = record {
    mem = add_u32 m.ms.mem (node_num * node_size);
    node = add_u32 m.ms.node node_num;
    lmem = at_level m.ms.lmem level (λ x. add_u32 x (node_num * node_size));
    lnode = at_level m.ms.lnode level (λ x. add_u32 x node_num);
  };
}

unfoldable pub dealloc_node : Mm → ℕ → ℕ → Mm
dealloc_node m node_num level = record m {
  ms = record {
    mem = sub_u32 m.ms.mem (node_num * node_size);
    node = sub_u32 m.ms.node node_num;
    lmem = at_level m.ms.lmem level (λ x. sub_u32 x (node_num * node_size));
    lnode = at_level m.ms.lnode level (λ x. sub_u32 x node_num);
  };
}

-- The list `allocators`, searched from its head.
unfoldable pub find_allocator : List MemOp → ℕ → Option MemOp
find_allocator [] type = none
find_allocator (op ∷ ops) type = if op.type == type then some op else find_allocator ops type

-- `none` is the -1 of a type that is registered already; else the list with `op` at its tail.
unfoldable pub add_allocator : List MemOp → MemOp → Option (List MemOp)
add_allocator ops op = elim (find_allocator ops op.type) [
  | some found ↦ none
  | none ↦ some (ops ++ (op ∷ []))
]

-- The failed assertion on an unknown type is `none`. `result` is what the allocator's `init` returns,
-- an int as a number below 2 ^ 32; it is called if there is one.
unfoldable pub mm_init : List MemOp → ℕ → ℕ → Option (Mm × ℕ)
mm_init ops type result = elim (find_allocator ops type) [
  | none ↦ none
  | some op ↦ some (record { ms = no_stat; op = op }, if op.has_init then result else 0)
]

-- `mm_uinit` with the result of the allocator's own function, which is called if there is one. The
-- Boolean says whether `priv` is freed.
unfoldable pub mm_uinit : Mm → ℕ → ℕ × Bool
mm_uinit m result = (if m.op.has_uinit then result else 0, ltb 0 m.op.priv_size)
