-- ===== src/Mm/Registry.antt =====
-- The registry of allocators, and the counters of an allocation that is taken back.
use prefix_lookup_mc.Base.{
  ℕ, ◌^◌, ◌<◌, ◌≡◌, ◌≢◌, refl, arith, true, false, ◌==◌, if◌then◌else◌, Option, none, some, List,
  [], ◌∷◌, ◌++◌, Bool-cases, Option-cases, inl, inr, ◌⊎◌,
}
use prefix_lookup_mc.Mm.{
  MemOp, Mm, find_allocator, add_allocator, mm_init, no_stat, alloc_node, dealloc_node,
}

-- One more at the tail is found by its type, if that was not there, and by no other.
find-tail_self :
    (ops : List MemOp) (op : MemOp)
    → find_allocator ops op.type ≡ none
    → find_allocator (ops ++ (op ∷ [])) op.type ≡ some op
unfolding find_allocator
find-tail_self [] op e = let same : (op.type == op.type) ≡ true = ground arith in rw same refl
find-tail_self (o ∷ ops) op e = elim (Bool-cases (o.type == op.type)) [
  | inl same ↦
      let here : ◌≡◌ {A = Option MemOp} (some o) none = rw same at e in absurd (ground arith)
  | inr apart ↦ rw apart (find-tail_self ops op (rw apart at e))
]

find-tail_ne :
    (ops : List MemOp) (op : MemOp) (type : ℕ)
    → type ≢ op.type
    → find_allocator (ops ++ (op ∷ [])) type ≡ find_allocator ops type
unfolding find_allocator
find-tail_ne [] op type ne =
    let apart : (op.type == type) ≡ false = ground (arith, ne) in rw apart refl
find-tail_ne (o ∷ ops) op type ne = elim (Bool-cases (o.type == type)) [
  | inl same ↦ rw same refl
  | inr apart ↦ rw apart (find-tail_ne ops op type ne)
]

-- A type that is registered already is refused. Any other one is registered: the allocator is then
-- found by its type, `mm_init` with the type starts it with all counters 0 and returns what its `init` returns, 0 if it has
-- none, and every other type is
-- found as before.
pub add_allocator_lem :
    (ops : List MemOp) (op : MemOp)
    → ((find_allocator ops op.type ≢ none) × (add_allocator ops op ≡ none))
      ⊎ ((ops' : List MemOp) × (find_allocator ops op.type ≡ none)
          × (add_allocator ops op ≡ some ops')
          × ((result : ℕ)
              → mm_init ops' op.type result
                ≡ some (record { ms = no_stat; op = op }, if op.has_init then result else 0))
          × ((type : ℕ) → type ≢ op.type → find_allocator ops' type ≡ find_allocator ops type))
unfolding add_allocator mm_init
add_allocator_lem ops op = elim (Option-cases (find_allocator ops op.type)) [
  | inr (found, e) ↦ inl (λ n. absurd (ground arith), rw (e, add_allocator) refl)
  | inl e ↦ inr (
    ops ++ (op ∷ []),
    e,
    rw (e, add_allocator) refl,
    λ result. rw (find-tail_self ops op e, mm_init) refl,
    λ type ne. find-tail_ne ops op type ne,
  )
]

-- What an allocation counts, the release of as many nodes on the same level takes back, as long as the
-- counters are uint32_t; neither of the two changes the counters of nodes and of bytes of any other level.
pub dealloc_node-alloc_node :
    (m : Mm) (n level l : ℕ)
    → m.ms.node < 2 ^ 32
    → m.ms.mem < 2 ^ 32
    → m.ms.lnode l < 2 ^ 32
    → m.ms.lmem l < 2 ^ 32
    → ((dealloc_node (alloc_node m n level) n level).ms.node ≡ m.ms.node)
      × ((dealloc_node (alloc_node m n level) n level).ms.mem ≡ m.ms.mem)
      × ((dealloc_node (alloc_node m n level) n level).ms.lnode l ≡ m.ms.lnode l)
      × ((dealloc_node (alloc_node m n level) n level).ms.lmem l ≡ m.ms.lmem l)
      × (l ≢ level
          → ((alloc_node m n level).ms.lnode l ≡ m.ms.lnode l)
            × ((alloc_node m n level).ms.lmem l ≡ m.ms.lmem l)
            × ((dealloc_node m n level).ms.lnode l ≡ m.ms.lnode l)
            × ((dealloc_node m n level).ms.lmem l ≡ m.ms.lmem l))
unfolding dealloc_node alloc_node
dealloc_node-alloc_node m n level l a b c d = (
  omega (arith, a),
  omega (arith, b),
  ground (arith, c),
  ground (arith, d),
  λ ne. (ground (arith, ne), ground (arith, ne), ground (arith, ne), ground (arith, ne)),
)
