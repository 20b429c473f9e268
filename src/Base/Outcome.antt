-- ===== src/Base/Outcome.antt =====
-- Runs that end in a value with a property, for loops that may fault.
use mathlib.Core.Path.{◌≡◌, refl}
use mathlib.Core.Option.{Option, some}
use prefix_lookup_mc.Base.Fault.{◌>>=◌}

pub data Gives {ℓ κ} {A : Type ℓ} (P : A → Type κ) : Option A → Type (ℓ ⊔ κ) where
  gives : {x : A} → P x → Gives P (some x)

module _ {ℓ κ} {A : Type ℓ} {P : A → Type κ} where
  pub Gives-bind {ℓ' κ'} :
      {B : Type ℓ'} {Q : B → Type κ'} {r : Option A} {f : A → Option B}
      → Gives P r
      → ((x : A) → P x → Gives Q (f x))
      → Gives Q (r >>= f)
  Gives-bind (gives p) k = k _ p

  pub Gives-value : {r : Option A} → Gives P r → (x : A) × P x × (r ≡ some x)
  Gives-value (gives p) = (_, p, refl)

  pub Gives-map {κ'} :
      {Q : A → Type κ'} {r : Option A} → Gives P r → ((x : A) → P x → Q x) → Gives Q r
  Gives-map (gives p) k = gives (k _ p)
