-- ===== src/Node/Nodes.antt =====
-- `struct mb_node` with the block that it owns, and the fields of a node.
use prefix_lookup_mc.Base.{ℕ, List, [], ◌∷◌, ◌≡◌, refl, ap}

-- `void *` next hop information: a number, 0 for NULL.
abbrev pub Nhi : Type 0
Nhi = ℕ

-- A node has an external bitmap, an internal bitmap and a child_ptr.
mutual
  pub data Node : Type 0 where
    node : ℕ → ℕ → Block → Node

  pub data Block : Type 0 where
    null : Block
    mem : List Nhi → Nodes → Block

  pub data Nodes : Type 0 where
    nil : Nodes
    cons : Node → Nodes → Nodes

abbrev pub list_of : Nodes → List Node
list_of nil = []
list_of (cons n ns) = n ∷ list_of ns

abbrev pub nodes_of : List Node → Nodes
nodes_of [] = nil
nodes_of (n ∷ ns) = cons n (nodes_of ns)

pub list_of-nodes_of : (ns : List Node) → list_of (nodes_of ns) ≡ ns
list_of-nodes_of [] = refl
list_of-nodes_of (n ∷ ns) = ap (λ t. n ∷ t) (list_of-nodes_of ns)

abbrev pub external : Node → ℕ
external (node e i b) = e

abbrev pub internal : Node → ℕ
internal (node e i b) = i

abbrev pub child_ptr : Node → Block
child_ptr (node e i b) = b

abbrev pub rules_in : Block → List Nhi
rules_in null = []
rules_in (mem rs cs) = rs

abbrev pub children_in : Block → List Node
children_in null = []
children_in (mem rs cs) = list_of cs

abbrev pub rules : Node → List Nhi
rules n = rules_in (child_ptr n)

abbrev pub children : Node → List Node
children n = children_in (child_ptr n)

-- A block of rules and children.
abbrev pub block : List Nhi → List Node → Block
block rs cs = mem rs (nodes_of cs)

-- The node that calloc leaves: all its bytes are zero.
abbrev pub zero_node : Node
zero_node = node 0 0 null
