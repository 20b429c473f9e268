-- ===== src/Visit/Subtrie.antt =====
-- `destroy_subtrie` of lib/mb_node.c over all levels.
use mathlib.Core.List.{Memᴰ}
use mathlib.Core.Option.{some-injective}
use prefix_lookup_mc.Base.{
  ℕ, zero, suc, ◌+◌, ◌<◌, ◌≡◌, ◌≢◌, refl, ◌>>=◌, sym, ◌∙◌, arith, Bool, true, Option, some, List,
  [], ◌∷◌, inl, inr, Gives, gives, Gives-bind, Gives-map, >>=-eq-some, Bool-cases,
}
use prefix_lookup_mc.Bits.{count_inl_bitmap}
use prefix_lookup_mc.Bits.Words.{count_inl_bitmap-lt}
use prefix_lookup_mc.Bits.Digits.{bit, zero-bit}
use prefix_lookup_mc.Mm.{Mm}
use prefix_lookup_mc.Node.Nodes.{Node, Nhi, external, zero_node}
use prefix_lookup_mc.Node.Layout.{rule_at, child_at}
use prefix_lookup_mc.Trie.Shape.{IsTrie, IsTrie-node}
use prefix_lookup_mc.Trie.Child.{child_lem}
use prefix_lookup_mc.Trie.Path.{find, AreStrides}
use prefix_lookup_mc.Visit.{for_rules, for_children, destroy_subtrie}
use prefix_lookup_mc.Visit.Loops.{for_rules_lem, for_children_lem}
use prefix_lookup_mc.Visit.Destroyed.{
  Held, Handed, Extends, Extends-refl, Extends-trans, Extends-wider, Destroys, Put, put, put_lem,
}

child-Held :
    (n c : Node) (stride : ℕ) (v : Nhi)
    → stride < 64
    → child_at n stride ≡ some c
    → Held c v
    → Held n v
unfolding find
child-Held n c stride v low there held = record {
  path = stride ∷ held.path;
  pos = held.pos;
  strides = (low, held.strides);
  low = held.low;
  found = rw there held.found;
  not_null = held.not_null;
}

module _ (n : Node) (destroy : Bool) where
  rules_lem :
      (d : ℕ)
      → IsTrie d n
      → (gone : List Nhi)
      → Gives
          (λ g.
            Extends (Handed n destroy) gone g
            × ((p : ℕ) (v : Nhi) → p < 63 → rule_at n p ≡ some v → Put n destroy p v g))
          (for_rules n gone (put n destroy))
  rules_lem d h gone =
      for_rules_lem (Extends (Handed n destroy)) (Extends-refl (Handed n destroy))
        (Extends-trans (Handed n destroy)) n ((IsTrie-node d n h).is_node) (Put n destroy)
        (λ p v s t r done on v_some. r.kept v (done on v_some)) (put n destroy)
        (λ cidr bits v s l l' there.
          put_lem n destroy (count_inl_bitmap bits cidr) v s (count_inl_bitmap-lt bits cidr l l')
            there)
        gone

  abbrev Below : Mm × List Nhi → Mm × List Nhi → Type 0
  Below s t = Extends (Handed n destroy) s.1 t.1

  abbrev AllOf : ℕ → Node → Mm × List Nhi → Type 0
  AllOf stride c t = destroy ≡ true → (v : Nhi) → Held c v → Memᴰ v t.1

  children_lem :
      (d : ℕ)
      → IsTrie d n
      → (round : ℕ → Node → Mm × List Nhi → Option (Mm × List Nhi))
      → ((stride : ℕ) (c : Node) (s : Mm × List Nhi)
          → child_at n stride ≡ some c
          → stride < 64
          → Gives (λ r. Destroys c destroy s.1 r.1) (round stride c s))
      → (s : Mm × List Nhi)
      → Gives
          (λ t.
            Below s t
            × ((stride : ℕ) (c : Node)
                → stride < 64
                → child_at n stride ≡ some c
                → AllOf stride c t))
          (for_children n s round)
  children_lem d h round each s =
      for_children_lem Below (λ t. Extends-refl (Handed n destroy) t.1)
        (λ s t u. Extends-trans (Handed n destroy) s.1 t.1 u.1) n ((IsTrie-node d n h).is_node)
        AllOf (λ stride c t u r done on v held. r.kept v (done on v held)) round
        (λ stride c t low there. Gives-map (each stride c t there low) λ u x. (
          Extends-wider (Handed c destroy) (Handed n destroy) t.1 u.1
              (λ v x. (x.0, child-Held n c stride v low there x.1)) x.extends,
          x.all,
        ))
        s

  -- A node's rules and what its children hold are all that it holds.
  gather :
      (gone here below : List Nhi)
      → Extends (Handed n destroy) gone here
      → ((p : ℕ) (v : Nhi) → p < 63 → rule_at n p ≡ some v → Put n destroy p v here)
      → Extends (Handed n destroy) here below
      → ((stride : ℕ) (c : Node)
          → stride < 64
          → child_at n stride ≡ some c
          → destroy ≡ true
          → (v : Nhi) → Held c v
          → Memᴰ v below)
      → Destroys n destroy gone below
  unfolding find
  gather gone here below e own e' under = record {
    extends = Extends-trans (Handed n destroy) gone here below e e';
    all =
        λ on v held. held_in on v held.path held.pos held.strides held.low held.found held.not_null;
  }
    where
      held_in :
          destroy ≡ true
          → (v : Nhi) (path : List ℕ) (pos : ℕ) → AreStrides path
          → pos < 63
          → find n path pos ≡ some v
          → v ≢ 0
          → Memᴰ v below
      held_in on v [] pos strides low found v_some = e'.kept v (own pos v low found on v_some)
      held_in on v (stride ∷ path) pos strides low found v_some =
          let (c, there, found') = >>=-eq-some (child_at n stride) (λ c. find c path pos) found in
          under stride c strides.0 there on v (record {
            path = path;
            pos = pos;
            strides = strides.1;
            low = low;
            found = found';
            not_null = v_some;
          })

-- A trie's child is a trie one level lower.
child-IsTrie :
    (d : ℕ) (n c : Node) (stride : ℕ)
    → IsTrie (suc d) n
    → stride < 64
    → child_at n stride ≡ some c
    → IsTrie d c
child-IsTrie d n c stride h low there = elim (Bool-cases (bit (external n) stride)) [
  | inr off ↦ let missing = rw off at there in absurd (ground (arith, missing))
  | inl on ↦
      let (c', found, child, hc) = child_lem d n h stride low on in
      let same : c' ≡ c = some-injective _ _ (sym child ∙ there) in rw (← same) hc
]

-- For a trie with at most `d` levels below its root, and fuel for as many and one, destroy_subtrie returns
-- without a fault and leaves the root all zero. It keeps the list of the infos handed to destroy_nhi before;
-- what it puts to it are infos that the trie holds, none of them NULL, and nothing if there is no destroy_nhi;
-- and if there is one, every info that the trie holds for some prefix, and that is not NULL, is on the list.
pub destroy_subtrie_lem :
    (d fuel : ℕ) (n : Node) (m : Mm) (destroy : Bool) (depth : ℕ) (gone : List Nhi)
    → IsTrie d n
    → d < fuel
    → Gives
        (λ (r : (Mm × List Nhi) × Node). Destroys n destroy gone r.0.1 × (r.1 ≡ zero_node))
        (destroy_subtrie fuel m n destroy depth gone)
unfolding destroy_subtrie
destroy_subtrie_lem d zero n m destroy depth gone h room = absurd (omega (arith, room))
destroy_subtrie_lem zero (suc fuel) n m destroy depth gone h room =
    Gives-bind (rules_lem n destroy 0 h gone) λ here own.
      Gives-bind
        (children_lem n destroy 0 h
          (λ stride c s. destroy_subtrie fuel s.0 c destroy (depth + 1) s.1 >>= λ r. some r.0)
          (λ stride c s there low. absurd (ground (arith, rw (h.1, zero-bit) at there))) (m, here))
        λ s below. gives (gather n destroy gone here s.1 own.0 own.1 below.0 below.1, refl)
destroy_subtrie_lem (suc d) (suc fuel) n m destroy depth gone h room =
    Gives-bind (rules_lem n destroy (suc d) h gone) λ here own.
      Gives-bind
        (children_lem n destroy (suc d) h
          (λ stride c s. destroy_subtrie fuel s.0 c destroy (depth + 1) s.1 >>= λ r. some r.0)
          (λ stride c s there low.
            Gives-bind
              (destroy_subtrie_lem d fuel c s.0 destroy (depth + 1) s.1
                (child-IsTrie d n c stride h low there) (omega (arith, room)))
              λ r done. gives done.0)
          (m, here))
        λ s below. gives (gather n destroy gone here s.1 own.0 own.1 below.0 below.1, refl)
