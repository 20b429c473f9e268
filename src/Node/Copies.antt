-- ===== src/Node/Copies.antt =====
-- The copies between blocks, each as one operation on the list of entries.
use prefix_lookup_mc.Base.{
  ℕ, zero, suc, ◌+◌, ◌-◌, ◌<◌, ◌≤◌, ◌≡◌, refl, ap, arith, some, List, [], ◌∷◌, length, ◌==◌, ltb,
  Bool-cases, inl, inr, replicate, copy_all, copies_insert, copies_remove, insert_at, remove_at,
}
use prefix_lookup_mc.Node.{
  copy_children, copy_rules, open_slot, close_slot, open_child, close_child,
}
use prefix_lookup_mc.Node.Nodes.{Node, rules, children, zero_node}

no_entry {ℓ} : {A : Type ℓ} (xs : List A) (z : A) → length xs ≡ 0 → replicate (length xs) z ≡ xs
no_entry [] z e = refl
no_entry (x ∷ xs) z e = absurd (omega arith)

one_slot {ℓ} :
    {A : Type ℓ} (xs : List A) (k : ℕ) (z : A)
    → length xs ≡ 0
    → k ≤ length xs
    → replicate (suc (length xs)) z ≡ insert_at k z xs
one_slot [] k z e h = let front : k ≡ 0 = omega arith in rw front
one_slot (x ∷ xs) k z e h = absurd (omega arith)

pub copy_children_lem :
    (n : Node)
    → copy_children (replicate (length (children n)) zero_node) n (length (children n))
      ≡ some (children n)
unfolding copy_children
copy_children_lem n = elim (Bool-cases (length (children n) == 0)) [
  | inr more ↦ rw more (copy_all (children n) zero_node (length (children n)) refl)
  | inl done ↦ rw done (ap some (no_entry (children n) zero_node (ground arith)))
]

pub copy_rules_lem :
    (n : Node) → copy_rules (replicate (length (rules n)) 0) n (length (rules n)) ≡ some (rules n)
unfolding copy_rules
copy_rules_lem n =
    let zero' : length (rules n) - length (rules n) ≡ 0 = omega arith in
    elim (Bool-cases (length (rules n) == 0)) [
      | inr more ↦ rw (more, zero') (copy_all (rules n) 0 (length (rules n)) refl)
      | inl done ↦ rw done (ap some (no_entry (rules n) 0 (ground arith)))
    ]

pub open_child_lem :
    (n : Node) (k : ℕ)
    → k ≤ length (children n)
    → open_child (replicate (length (children n) + 1) zero_node) n k (length (children n))
      ≡ some (insert_at k zero_node (children n))
unfolding open_child
open_child_lem n k h =
    let after : k + 1 ≡ suc k = omega arith in
    let longer : length (children n) + 1 ≡ suc (length (children n)) = omega arith in
    elim (Bool-cases (length (children n) == 0)) [
      | inr more ↦
          rw (more, after, longer)
            (copies_insert (children n) zero_node k (length (children n)) refl h)
      | inl done ↦ rw (done, longer) (ap some (one_slot (children n) k zero_node (ground arith) h))
    ]

pub open_slot_lem :
    (n : Node) (k : ℕ)
    → k ≤ length (rules n)
    → open_slot (replicate (length (rules n) + 1) 0) n k (length (rules n))
      ≡ some (insert_at k 0 (rules n))
unfolding open_slot
open_slot_lem n k h =
    let len = length (rules n) in
    let front : k - k ≡ 0 = omega arith in
    let to : len + 1 - (len - k) ≡ suc k = omega arith in
    let from : len - (len - k) ≡ k = omega arith in
    let longer : len + 1 ≡ suc len = omega arith in
    elim (Bool-cases (length (rules n) == 0)) [
      | inr more ↦ rw (more, front, to, from, longer) (copies_insert (rules n) 0 k len refl h)
      | inl done ↦ rw (done, longer) (ap some (one_slot (rules n) k 0 (ground arith) h))
    ]

last_entry {ℓ} :
    {A : Type ℓ} (xs : List A) (k : ℕ) (z : A)
    → length xs ≡ 1
    → k < length xs
    → replicate (length xs - 1) z ≡ remove_at k xs
last_entry [] k z e h = absurd (omega arith)
last_entry (x ∷ []) zero z e h = refl
last_entry (x ∷ []) (suc k) z e h = absurd (omega arith)
last_entry (x ∷ y ∷ xs) k z e h = absurd (omega arith)

pub close_child_lem :
    (n : Node) (k : ℕ)
    → k < length (children n)
    → close_child (replicate (length (children n) - 1) zero_node) n k (length (children n))
      ≡ some (remove_at k (children n))
unfolding close_child
close_child_lem n k h =
    let len = length (children n) in
    let after : k + 1 ≡ suc k = omega arith in
    let left : len - k - 1 ≡ len - 1 - k = omega arith in
    elim (Bool-cases (ltb 1 (length (children n)))) [
      | inl more ↦
          rw (more, after, left)
            (copies_remove (children n) zero_node k (len - 1) (omega arith) (omega arith))
      | inr done ↦ rw done (ap some (last_entry (children n) k zero_node (ground arith) h))
    ]

pub close_slot_lem :
    (n : Node) (k : ℕ)
    → k < length (rules n)
    → close_slot (replicate (length (rules n) - 1) 0) n k (length (rules n))
      ≡ some (remove_at k (rules n))
unfolding close_slot
close_slot_lem n k h =
    let len = length (rules n) in
    let front : k - k ≡ 0 = omega arith in
    let to : len - 1 - (len - (k + 1)) ≡ k = omega arith in
    let from : len - (len - (k + 1)) ≡ suc k = omega arith in
    let left : len - (k + 1) ≡ len - 1 - k = omega arith in
    elim (Bool-cases (ltb 1 (length (rules n)))) [
      | inl more ↦
          rw (more, front, to, from, left)
            (copies_remove (rules n) 0 k (len - 1) (omega arith) (omega arith))
      | inr done ↦ rw done (ap some (last_entry (rules n) k 0 (ground arith) h))
    ]
