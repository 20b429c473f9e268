-- ===== src/Routes/Places.antt =====
-- A trie that is changed at masked prefixes alone holds nothing at other places.
use native.Mathlib.Decide.{ℕ_discrete}
use mathlib.Core.List.{List-discrete}
use prefix_lookup_mc.Base.{ℕ, ◌<◌, ◌≡◌, ◌∙◌, none, List, ◌⊎◌, inl, inr}
use prefix_lookup_mc.Address.{Address}
use prefix_lookup_mc.Address.Word.{IsWord, Masked}
use prefix_lookup_mc.Node.Nodes.{Node, zero_node}
use prefix_lookup_mc.Trie.Path.{find, AreStrides}
use prefix_lookup_mc.Trie.Prefix.{path, last}
use prefix_lookup_mc.Trie.Shape.{find-zero_node}

module _ (a : Address) (word : IsWord a) where
  -- A place either holds nothing, or is that of a masked prefix.
  unfoldable pub OnlyPrefixes : Node → Type 0
  OnlyPrefixes n =
      (at : List ℕ) (p : ℕ)
      → AreStrides at
      → p < 63
      → (find n at p ≡ none)
        ⊎ ((q : a.Ip) × (c : ℕ) × Masked a word q c × (path a q c ≡ at) × (last a q c ≡ p))

  pub zero_node-OnlyPrefixes : OnlyPrefixes zero_node
  unfolding OnlyPrefixes
  zero_node-OnlyPrefixes at p k l = inl (find-zero_node at p)

  pub change-OnlyPrefixes :
      (n n' : Node) (q : a.Ip) (c : ℕ)
      → Masked a word q c
      → ((at : List ℕ) (p : ℕ)
          → AreStrides at
          → p < 63
          → ¬ ((path a q c ≡ at) × (last a q c ≡ p))
          → find n' at p ≡ find n at p)
      → OnlyPrefixes n
      → OnlyPrefixes n'
  unfolding OnlyPrefixes
  change-OnlyPrefixes n n' q c masked others h at p k l =
      elim (List-discrete ℕ_discrete (path a q c) at) [
        | no ne ↦ kept (others at p k l (λ e. ne e.0)) (h at p k l)
        | yes e ↦ elim (ℕ_discrete (last a q c) p) [
          | no ne ↦ kept (others at p k l (λ e'. ne e'.1)) (h at p k l)
          | yes e' ↦ inr (q, c, masked, e, e')
        ]
      ]
    where
      kept :
          find n' at p ≡ find n at p
          → (find n at p ≡ none)
            ⊎ ((q : a.Ip) × (c : ℕ) × Masked a word q c × (path a q c ≡ at) × (last a q c ≡ p))
          → (find n' at p ≡ none)
            ⊎ ((q : a.Ip) × (c : ℕ) × Masked a word q c × (path a q c ≡ at) × (last a q c ≡ p))
      kept same (inl none_there) = inl (same ∙ none_there)
      kept same (inr place) = inr place
