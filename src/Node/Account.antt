-- ===== src/Node/Account.antt =====
-- The room that the blocks of a trie take, and the statistics that count it.
use prefix_lookup_mc.Base.{
  ℕ, zero, suc, ◌+◌, ◌*◌, ◌%◌, ◌^◌, ◌<◌, ◌≡◌, refl, ap, ◌∙◌, arith, some, List, [], ◌∷◌, length,
  get_elem?, length-set, set, insert_at, remove_at,
}
use prefix_lookup_mc.Mm.{Mm, alloc_node, dealloc_node, node_size}
use prefix_lookup_mc.Node.{free_node, block_cnt, up_rule}
use prefix_lookup_mc.Node.Nodes.{
  Node, Block, Nodes, node, null, mem, nil, cons, Nhi, list_of, list_of-nodes_of, external,
  internal, rules, children, zero_node,
}
use prefix_lookup_mc.Node.Layout.{build, IsNode}
use prefix_lookup_mc.Bits.Digits.{ones_from, zero-ones_from}
use prefix_lookup_mc.Node.Rules.{resize}

-- The nodes' room in the blocks of a trie.
unfoldable mutual
  pub used : Node → ℕ
  used (node e i b) = used_in b

  used_in : Block → ℕ
  used_in null = 0
  used_in (mem rs cs) = block_cnt (length (list_of cs)) (length rs) + used_all cs

  used_all : Nodes → ℕ
  used_all nil = 0
  used_all (cons n ns) = used n + used_all ns

unfoldable pub total : List Node → ℕ
total [] = 0
total (n ∷ ns) = used n + total ns

used_all-total : (ns : Nodes) → used_all ns ≡ total (list_of ns)
unfolding used total
used_all-total nil = refl
used_all-total (cons n ns) = ap (λ t. used n + t) (used_all-total ns)

-- A node's own block, and those of its children.
pub used_lem :
    (n : Node) → used n ≡ block_cnt (length (children n)) (length (rules n)) + total (children n)
unfolding used up_rule total
used_lem (node e i null) = refl
used_lem (node e i (mem rs cs)) =
    ap (λ t. block_cnt (length (list_of cs)) (length rs) + t) (used_all-total cs)

pub used-build :
    (ext int : ℕ) (rs : List Nhi) (cs : List Node)
    → used (build ext int rs cs) ≡ block_cnt (length cs) (length rs) + total cs
used-build ext int rs cs =
    used_lem (build ext int rs cs)
    ∙ ap (λ ns. block_cnt (length ns) (length rs) + total ns) (list_of-nodes_of cs)

-- Children that are inserted, removed or replaced.
pub total-insert_at :
    (k : ℕ) (n : Node) (ns : List Node) → total (insert_at k n ns) ≡ used n + total ns
unfolding total
total-insert_at zero n ns = refl
total-insert_at (suc k) n [] = refl
total-insert_at (suc k) n (c ∷ ns) = omega (arith, total-insert_at k n ns)

same_used : {x y : Node} → some x ≡ some y → used x ≡ used y
same_used e = ground arith

pub total-remove_at :
    (k : ℕ) (ns : List Node) {n : Node}
    → get_elem? ns k ≡ some n
    → total (remove_at k ns) + used n ≡ total ns
unfolding total
total-remove_at k [] e = absurd (ground arith)
total-remove_at zero (c ∷ ns) e = omega (arith, same_used e)
total-remove_at (suc k) (c ∷ ns) e = omega (arith, total-remove_at k ns e)

pub total-set :
    (k : ℕ) (ns : List Node) (n' : Node) {n : Node}
    → get_elem? ns k ≡ some n
    → total (set ns k n') + used n ≡ total ns + used n'
unfolding total
total-set k [] n' e = absurd (ground arith)
total-set zero (c ∷ ns) n' e = omega (arith, same_used e)
total-set (suc k) (c ∷ ns) n' e = omega (arith, total-set k ns n' e)

pub total-insert_at_zero : (k : ℕ) (ns : List Node) → total (insert_at k zero_node ns) ≡ total ns
unfolding used
total-insert_at_zero k ns = omega (arith, total-insert_at k zero_node ns)

nothing : (ns : List Node) → length ns ≡ 0 → total ns ≡ 0
unfolding total
nothing [] e = refl
nothing (n ∷ ns) e = absurd (omega arith)

pub used_of_empty : (n : Node) → IsNode n → internal n ≡ 0 → external n ≡ 0 → used n ≡ 0
unfolding up_rule
used_of_empty n h e e' =
    let rs : length (rules n) ≡ 0 =
      h.has_rules.counted ∙ ap (λ b. ones_from 64 b 0) e ∙ zero-ones_from 64 0 in
    let cs : length (children n) ≡ 0 =
      h.has_children.counted ∙ ap (λ b. ones_from 64 b 0) e' ∙ zero-ones_from 64 0 in
    rw (used_lem n, rs, cs, nothing (children n) cs) refl

-- The counters of nodes and of bytes have gone up, or down, by what the trie takes more, or less, now.
-- Both are uint32_t and wrap around.
pub record IsBalanced (m : Mm) (n : Node) (m' : Mm) (n' : Node) : Type 0 where
  pub nodes : (m.ms.node + used n') % 2 ^ 32 ≡ (m'.ms.node + used n) % 2 ^ 32
  pub bytes : (m.ms.mem + used n' * node_size) % 2 ^ 32 ≡ (m'.ms.mem + used n * node_size) % 2 ^ 32
  pub nodes_fit : m.ms.node < 2 ^ 32 → m'.ms.node < 2 ^ 32
  pub bytes_fit : m.ms.mem < 2 ^ 32 → m'.ms.mem < 2 ^ 32

pub refl-IsBalanced : (m : Mm) (n n' : Node) → used n ≡ used n' → IsBalanced m n m n'
refl-IsBalanced m n n' e = record {
  nodes = rw e refl;
  bytes = rw e refl;
  nodes_fit = λ l. l;
  bytes_fit = λ l. l;
}

freed :
    (m : Mm) (n : Node) (c r level : ℕ)
    → ((resize m n c r level).ms.node + block_cnt (length (children n)) (length (rules n))) % 2 ^ 32
      ≡ (m.ms.node + block_cnt c r) % 2 ^ 32
unfolding free_node alloc_node dealloc_node up_rule
freed m (node e i null) c r level = omega arith
freed m (node e i (mem rs cs)) c r level = omega arith

freed_bytes :
    (m : Mm) (n : Node) (c r level : ℕ)
    → ((resize m n c r level).ms.mem
          + block_cnt (length (children n)) (length (rules n)) * node_size)
        % 2 ^ 32
      ≡ (m.ms.mem + block_cnt c r * node_size) % 2 ^ 32
unfolding free_node alloc_node dealloc_node up_rule
freed_bytes m (node e i null) c r level = omega arith
freed_bytes m (node e i (mem rs cs)) c r level = omega arith

resize-lt :
    (m : Mm) (n : Node) (c r level : ℕ)
    → ((resize m n c r level).ms.node < 2 ^ 32) × ((resize m n c r level).ms.mem < 2 ^ 32)
unfolding free_node alloc_node dealloc_node
resize-lt m (node e i null) c r level = (omega arith, omega arith)
resize-lt m (node e i (mem rs cs)) c r level = (omega arith, omega arith)

-- A block in place of the node's own, with children that take as much.
pub resize-IsBalanced :
    (m : Mm) (n : Node) (ext int : ℕ) (rs : List Nhi) (cs : List Node) (c r level : ℕ)
    → length cs ≡ c
    → length rs ≡ r
    → total cs ≡ total (children n)
    → IsBalanced m n (resize m n c r level) (build ext int rs cs)
resize-IsBalanced m n ext int rs cs c r level ec er et =
    let size : used (build ext int rs cs) ≡ block_cnt c r + total (children n) =
      rw (used-build ext int rs cs, ec, er, et) refl in
    record {
      nodes = omega (arith, size, used_lem n, freed m n c r level);
      bytes = omega (arith, size, used_lem n, freed_bytes m n c r level);
      nodes_fit = λ l. (resize-lt m n c r level).0;
      bytes_fit = λ l. (resize-lt m n c r level).1;
    }

-- A change of a child is a change of the node.
pub child-IsBalanced :
    (m m' : Mm) (n : Node) (k : ℕ) (c c' : Node)
    → get_elem? (children n) k ≡ some c
    → IsBalanced m c m' c'
    → IsBalanced m n m' (build (external n) (internal n) (rules n) (set (children n) k c'))
child-IsBalanced m m' n k c c' there b =
    let set_size = used-build (external n) (internal n) (rules n) (set (children n) k c') in
    let same : length (set (children n) k c') ≡ length (children n) =
      length-set (children n) k c' in
    let size : used (build (external n) (internal n) (rules n) (set (children n) k c')) + used c
        ≡ used n + used c' =
      omega (
        arith,
        set_size,
        ap (λ t. block_cnt t (length (rules n))) same,
        used_lem n,
        total-set k (children n) c' there,
      ) in
    record {
      nodes = omega (arith, size, b.nodes);
      bytes = omega (arith, size, b.bytes);
      nodes_fit = b.nodes_fit;
      bytes_fit = b.bytes_fit;
    }

pub trans-IsBalanced :
    (m m' m'' : Mm) (n n' n'' : Node)
    → IsBalanced m n m' n'
    → IsBalanced m' n' m'' n''
    → IsBalanced m n m'' n''
trans-IsBalanced m m' m'' n n' n'' b b' = record {
  nodes = omega (arith, b.nodes, b'.nodes);
  bytes = omega (arith, b.bytes, b'.bytes);
  nodes_fit = λ l. b'.nodes_fit (b.nodes_fit l);
  bytes_fit = λ l. b'.bytes_fit (b.bytes_fit l);
}
