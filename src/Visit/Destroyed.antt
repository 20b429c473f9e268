-- ===== src/Visit/Destroyed.antt =====
-- `destroy_subtrie` of lib/mb_node.c: which infos it hands to `destroy_nhi`.
use mathlib.Core.List.{Memᴰ}
use mathlib.Core.List.Memᴰ
use prefix_lookup_mc.Base.{
  ℕ, ◌<◌, ◌≡◌, ◌≢◌, refl, ◌∙◌, arith, Bool, true, not, ◌&&◌, Option, some, List, [], ◌∷◌, ◌++◌, ◌⊎◌,
  inl, inr, if◌then◌else◌, ◌==◌, Bool-cases, Gives, gives,
}
use prefix_lookup_mc.Node.Nodes.{Node, Nhi}
use prefix_lookup_mc.Node.Layout.{rule_at}
use prefix_lookup_mc.Trie.Path.{find, AreStrides}

-- An info that the trie holds somewhere, and that is not NULL.
pub record Held (n : Node) (v : Nhi) : Type 0 where
  pub path : List ℕ
  pub pos : ℕ
  pub strides : AreStrides path
  pub low : pos < 63
  pub found : find n path pos ≡ some v
  pub not_null : v ≢ 0

-- An info that the destruction of the trie hands to `destroy_nhi`, if there is one.
abbrev pub Handed : Node → Bool → Nhi → Type 0
Handed n destroy v = (destroy ≡ true) × Held n v

-- Nothing is taken from the list, and nothing but what `A` allows is put to it; if that is nothing, the list
-- stays as it is.
pub record Extends (A : Nhi → Type 0) (gone gone' : List Nhi) : Type 0 where
  pub kept : (v : Nhi) → Memᴰ v gone → Memᴰ v gone'
  pub new : (v : Nhi) → Memᴰ v gone' → Memᴰ v gone ⊎ A v
  pub same : ((v : Nhi) → ¬ A v) → gone' ≡ gone

module _ (A : Nhi → Type 0) where
  pub Extends-refl : (g : List Nhi) → Extends A g g
  Extends-refl g = record { kept = λ v m. m; new = λ v m. inl m; same = λ none_new. refl }

  pub Extends-trans : (g g' g'' : List Nhi) → Extends A g g' → Extends A g' g'' → Extends A g g''
  Extends-trans g g' g'' e e' = record {
    kept = λ v m. e'.kept v (e.kept v m);
    new = λ v m. elim (e'.new v m) [ inl m' ↦ e.new v m' | inr x ↦ inr x ];
    same = λ none_new. e'.same none_new ∙ e.same none_new;
  }

  Extends-put : (g : List Nhi) (w : Nhi) → A w → Extends A g (g ++ (w ∷ []))
  Extends-put g w x = record {
    kept = λ v m. Memᴰ.append_left (w ∷ []) m;
    new = λ v m. elim (Memᴰ.append_cases g m) [
      | inl m' ↦ inl m'
      | inr m' ↦ inr (rw (Memᴰ.eq_of_singleton m') x)
    ];
    same = λ none_new. absurd (none_new w x);
  }

pub Extends-wider :
    (A B : Nhi → Type 0) (g g' : List Nhi)
    → ((v : Nhi) → A v → B v)
    → Extends A g g'
    → Extends B g g'
Extends-wider A B g g' wider e = record {
  kept = e.kept;
  new = λ v m. elim (e.new v m) [ inl m' ↦ inl m' | inr x ↦ inr (wider v x) ];
  same = λ none_new. e.same (λ v x. none_new v (wider v x));
}

-- The infos handed over when a trie is destroyed: the non-NULL ones that it holds, if there is a
-- `destroy_nhi`.
pub record Destroys (n : Node) (destroy : Bool) (gone gone' : List Nhi) : Type 0 where
  pub extends : Extends (Handed n destroy) gone gone'
  pub all : destroy ≡ true → (v : Nhi) → Held n v → Memᴰ v gone'

module _ (n : Node) (destroy : Bool) where
  abbrev pub put : ℕ → ℕ → Nhi → List Nhi → Option (List Nhi)
  put cidr bits nhi g = if destroy && not (nhi == 0) then some (g ++ (nhi ∷ [])) else some g

  abbrev pub Put : ℕ → Nhi → List Nhi → Type 0
  Put p v g = destroy ≡ true → v ≢ 0 → Memᴰ v g

  pub put_lem :
      (p : ℕ) (v : Nhi) (g : List Nhi)
      → p < 63
      → rule_at n p ≡ some v
      → Gives
          (λ g'. Extends (Handed n destroy) g g' × Put p v g')
          (if destroy && not (v == 0) then some (g ++ (v ∷ [])) else some g)
  unfolding find
  put_lem p v g low there = elim (Bool-cases (destroy && not (v == 0))) [
    | inl on ↦
        let v_some : v ≢ 0 = λ e. absurd (ground (arith, on, e)) in
        rw on (
          gives (
            Extends-put (Handed n destroy) g v (
              ground (arith, on),
              record {
                path = [];
                pos = p;
                strides = tt;
                low = low;
                found = there;
                not_null = v_some;
              },
            ),
            λ d v_some. Memᴰ.append_right g (Memᴰ.head refl),
          ))
    | inr off ↦ rw off (
        gives
          (Extends-refl (Handed n destroy) g, λ d v_some. absurd (ground (arith, off, d, v_some))))
  ]
