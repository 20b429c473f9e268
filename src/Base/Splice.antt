-- ===== src/Base/Splice.antt =====
-- Insertion and removal at an index, and `memcpy` between two arrays: the copies that move the
-- entries of a block into a larger or a smaller one.
use Prim.Native.Nat.{ℕ, zero, suc, ◌+◌, ◌≤◌, ◌<◌}
use mathlib.Core.Path.{◌≡◌, refl, ap}
use mathlib.Core.List.{List, [], ◌∷◌, ◌++◌}
use mathlib.Core.Option.{Option, none, some}
use native.Mathlib.Omega.{arith}
use prefix_lookup_mc.Base.Tests.{leb, if◌then◌else◌}
use prefix_lookup_mc.Base.Lists.{length, get_elem?, take, drop, All}

module _ {ℓ} {A : Type ℓ} where
  abbrev pub insert_at : ℕ → A → List A → List A
  insert_at zero v xs = v ∷ xs
  insert_at (suc i) v [] = v ∷ []
  insert_at (suc i) v (x ∷ xs) = x ∷ insert_at i v xs

  abbrev pub remove_at : ℕ → List A → List A
  remove_at i [] = []
  remove_at zero (x ∷ xs) = xs
  remove_at (suc i) (x ∷ xs) = x ∷ remove_at i xs

  -- `memcpy(dst + to, src + from, n)`: a copy past the end of either array is a fault.
  unfoldable pub memcpy : List A → ℕ → List A → ℕ → ℕ → Option (List A)
  memcpy dst to src from n =
      if leb (to + n) (length dst)
      then if leb (from + n) (length src)
        then some (take to dst ++ (take n (drop from src) ++ drop (to + n) dst))
        else none
      else none

module _ {ℓ} {A : Type ℓ} where
  pub length-insert_at : (i : ℕ) (v : A) (xs : List A) → length (insert_at i v xs) ≡ suc (length xs)
  length-insert_at zero v xs = refl
  length-insert_at (suc i) v [] = refl
  length-insert_at (suc i) v (x ∷ xs) = ap suc (length-insert_at i v xs)

  pub get_elem?-insert_at_lt :
      (i j : ℕ) (v : A) (xs : List A)
      → j < i
      → i ≤ length xs
      → get_elem? (insert_at i v xs) j ≡ get_elem? xs j
  get_elem?-insert_at_lt zero j v xs h k = absurd (omega arith)
  get_elem?-insert_at_lt (suc i) j v [] h k = absurd (omega arith)
  get_elem?-insert_at_lt (suc i) zero v (x ∷ xs) h k = refl
  get_elem?-insert_at_lt (suc i) (suc j) v (x ∷ xs) h k =
      get_elem?-insert_at_lt i j v xs (omega arith) (omega arith)

  pub get_elem?-insert_at_self :
      (i : ℕ) (v : A) (xs : List A) → i ≤ length xs → get_elem? (insert_at i v xs) i ≡ some v
  get_elem?-insert_at_self zero v xs k = refl
  get_elem?-insert_at_self (suc i) v [] k = absurd (omega arith)
  get_elem?-insert_at_self (suc i) v (x ∷ xs) k = get_elem?-insert_at_self i v xs (omega arith)

  pub get_elem?-insert_at_gt :
      (i j : ℕ) (v : A) (xs : List A)
      → i ≤ j
      → get_elem? (insert_at i v xs) (suc j) ≡ get_elem? xs j
  get_elem?-insert_at_gt zero j v xs h = refl
  get_elem?-insert_at_gt (suc i) j v [] h = refl
  get_elem?-insert_at_gt (suc i) zero v (x ∷ xs) h = absurd (omega arith)
  get_elem?-insert_at_gt (suc i) (suc j) v (x ∷ xs) h =
      get_elem?-insert_at_gt i j v xs (omega arith)

  pub length-remove_at :
      (i : ℕ) (xs : List A) → i < length xs → suc (length (remove_at i xs)) ≡ length xs
  length-remove_at i [] h = absurd (omega arith)
  length-remove_at zero (x ∷ xs) h = refl
  length-remove_at (suc i) (x ∷ xs) h = ap suc (length-remove_at i xs (omega arith))

  pub get_elem?-remove_at_lt :
      (i j : ℕ) (xs : List A) → j < i → get_elem? (remove_at i xs) j ≡ get_elem? xs j
  get_elem?-remove_at_lt i j [] h = refl
  get_elem?-remove_at_lt zero j (x ∷ xs) h = absurd (omega arith)
  get_elem?-remove_at_lt (suc i) zero (x ∷ xs) h = refl
  get_elem?-remove_at_lt (suc i) (suc j) (x ∷ xs) h = get_elem?-remove_at_lt i j xs (omega arith)

  pub get_elem?-remove_at_ge :
      (i j : ℕ) (xs : List A) → i ≤ j → get_elem? (remove_at i xs) j ≡ get_elem? xs (suc j)
  get_elem?-remove_at_ge i j [] h = refl
  get_elem?-remove_at_ge zero j (x ∷ xs) h = refl
  get_elem?-remove_at_ge (suc i) zero (x ∷ xs) h = absurd (omega arith)
  get_elem?-remove_at_ge (suc i) (suc j) (x ∷ xs) h = get_elem?-remove_at_ge i j xs (omega arith)

  pub All-insert_at {κ} :
      (P : A → Type κ) (i : ℕ) (v : A) (xs : List A) → All P xs → P v → All P (insert_at i v xs)
  All-insert_at P zero v xs h p = (p, h)
  All-insert_at P (suc i) v [] h p = (p, tt)
  All-insert_at P (suc i) v (x ∷ xs) h p = (h.0, All-insert_at P i v xs h.1 p)

  pub All-remove_at {κ} : (P : A → Type κ) (i : ℕ) (xs : List A) → All P xs → All P (remove_at i xs)
  All-remove_at P i [] h = tt
  All-remove_at P zero (x ∷ xs) h = h.1
  All-remove_at P (suc i) (x ∷ xs) h = (h.0, All-remove_at P i xs h.1)

  -- The pieces that the copies leave are the insertion and the removal.
  pub insert_at_lem :
      (i : ℕ) (v : A) (xs : List A)
      → i ≤ length xs
      → take i xs ++ (v ∷ drop i xs) ≡ insert_at i v xs
  insert_at_lem zero v xs h = refl
  insert_at_lem (suc i) v [] h = absurd (omega arith)
  insert_at_lem (suc i) v (x ∷ xs) h = ap (λ t. x ∷ t) (insert_at_lem i v xs (omega arith))

  pub remove_at_lem :
      (i : ℕ) (xs : List A) → i < length xs → take i xs ++ drop (suc i) xs ≡ remove_at i xs
  remove_at_lem i [] h = absurd (omega arith)
  remove_at_lem zero (x ∷ xs) h = refl
  remove_at_lem (suc i) (x ∷ xs) h = ap (λ t. x ∷ t) (remove_at_lem i xs (omega arith))
