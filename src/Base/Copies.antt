-- ===== src/Base/Copies.antt =====
-- Copies by `memcpy` into a fresh block of zeroes: the two copies that leave a gap for a new entry,
-- the two that leave an entry out, and the copy of a whole array.
use Prim.Native.Nat.{ℕ, zero, suc, ◌+◌, ◌-◌, ◌≤◌, ◌<◌}
use mathlib.Core.Path.{◌≡◌, refl, ap, sym, ◌∙◌}
use mathlib.Core.List.{List, [], ◌∷◌, ◌++◌, append-nil, append_assoc}
use mathlib.Core.Option.{Option, none, some}
use native.Mathlib.Omega.{arith}
use prefix_lookup_mc.Base.Tests.{ltb, le→leb, lt→ltb, if◌then◌else◌}
use prefix_lookup_mc.Base.Lists.{
  length, set, take, drop, replicate, length-append, length-replicate,
}
use prefix_lookup_mc.Base.Splice.{
  insert_at, remove_at, memcpy, insert_at_lem, remove_at_lem, length-insert_at,
}
use prefix_lookup_mc.Base.Fault.{◌>>=◌}

module _ {ℓ} {A : Type ℓ} where
  -- A write through an index: past the end it is a fault.
  unfoldable pub store : List A → ℕ → A → Option (List A)
  store xs i v = if ltb i (length xs) then some (set xs i v) else none

  -- `memcpy(dst - to, src - from, n)`, where the arrays run downwards from their pointers.
  abbrev pub copy_below : List A → ℕ → List A → ℕ → ℕ → Option (List A)
  copy_below dst to src from n = memcpy dst (to - n) src (from - n) n

  length-take : (k : ℕ) (xs : List A) → k ≤ length xs → length (take k xs) ≡ k
  length-take zero xs h = refl
  length-take (suc k) [] h = absurd (omega arith)
  length-take (suc k) (x ∷ xs) h = ap suc (length-take k xs (omega arith))

  take-append : (k : ℕ) (xs ys : List A) → k ≡ length xs → take k (xs ++ ys) ≡ xs
  take-append zero [] ys h = refl
  take-append zero (x ∷ xs) ys h = absurd (omega arith)
  take-append (suc k) [] ys h = absurd (omega arith)
  take-append (suc k) (x ∷ xs) ys h = ap (λ t. x ∷ t) (take-append k xs ys (omega arith))

  take-append_suc :
      (k : ℕ) (xs : List A) (y : A) (ys : List A)
      → k ≡ length xs
      → take (suc k) (xs ++ (y ∷ ys)) ≡ xs ++ (y ∷ [])
  take-append_suc zero [] y ys h = refl
  take-append_suc zero (x ∷ xs) y ys h = absurd (omega arith)
  take-append_suc (suc k) [] y ys h = absurd (omega arith)
  take-append_suc (suc k) (x ∷ xs) y ys h =
      ap (λ t. x ∷ t) (take-append_suc k xs y ys (omega arith))

  take-ge : (k : ℕ) (xs : List A) → length xs ≤ k → take k xs ≡ xs
  take-ge zero [] h = refl
  take-ge zero (x ∷ xs) h = absurd (omega arith)
  take-ge (suc k) [] h = refl
  take-ge (suc k) (x ∷ xs) h = ap (λ t. x ∷ t) (take-ge k xs (omega arith))

  drop-ge : (k : ℕ) (xs : List A) → length xs ≤ k → drop k xs ≡ []
  drop-ge zero [] h = refl
  drop-ge zero (x ∷ xs) h = absurd (omega arith)
  drop-ge (suc k) [] h = refl
  drop-ge (suc k) (x ∷ xs) h = drop-ge k xs (omega arith)

  length-drop : (k : ℕ) (xs : List A) → length (drop k xs) ≡ length xs - k
  length-drop zero xs = omega arith
  length-drop (suc k) [] = omega arith
  length-drop (suc k) (x ∷ xs) = omega (arith, length-drop k xs)

  drop-replicate : (k n : ℕ) (z : A) → drop k (replicate (k + n) z) ≡ replicate n z
  drop-replicate zero n z = let same : 0 + n ≡ n = omega arith in ap (λ m. replicate m z) same
  drop-replicate (suc k) n z =
      let same : suc k + n ≡ suc (k + n) = omega arith in
      ap (λ m. drop (suc k) (replicate m z)) same ∙ drop-replicate k n z

  memcpy_lem :
      (dst : List A) (to : ℕ) (src : List A) (from n : ℕ)
      → to + n ≤ length dst
      → from + n ≤ length src
      → memcpy dst to src from n
        ≡ some (take to dst ++ (take n (drop from src) ++ drop (to + n) dst))
  unfolding memcpy
  memcpy_lem dst to src from n h k = rw (le→leb _ _ h, le→leb _ _ k)

  -- The first copy fills the front of the fresh block.
  first_copy :
      (xs : List A) (z : A) (k m : ℕ)
      → k ≤ length xs
      → memcpy (replicate (k + m) z) 0 xs 0 k ≡ some (take k xs ++ replicate m z)
  first_copy xs z k m h =
      let same : 0 + k ≡ k = omega arith in
      memcpy_lem (replicate (k + m) z) 0 xs 0 k (omega (arith, length-replicate (k + m) z))
        (omega arith)
      ∙ ap (λ i. some (take k xs ++ drop i (replicate (k + m) z))) same
      ∙ ap (λ t. some (take k xs ++ t)) (drop-replicate k m z)

  set-insert_at :
      (k : ℕ) (z v : A) (xs : List A)
      → k ≤ length xs
      → set (insert_at k z xs) k v ≡ insert_at k v xs
  set-insert_at zero z v xs h = refl
  set-insert_at (suc k) z v [] h = absurd (omega arith)
  set-insert_at (suc k) z v (x ∷ xs) h = ap (λ t. x ∷ t) (set-insert_at k z v xs (omega arith))

  -- The second copy moves what is left past the gap.
  second_copy_insert :
      (xs : List A) (z : A) (k m : ℕ)
      → k + m ≡ length xs
      → memcpy (take k xs ++ replicate (suc m) z) (suc k) xs k m ≡ some (insert_at k z xs)
  second_copy_insert xs z k m h =
      memcpy_lem front (suc k) xs k m (omega (arith, front-length)) (omega arith) ∙ ap some pieces
    where
      front : List A
      front = take k xs ++ replicate (suc m) z

      taken : length (take k xs) ≡ k
      taken = length-take k xs (omega arith)

      front-length : length front ≡ k + suc m
      front-length = omega (
        arith,
        length-append {ℓ} (take k xs) (replicate (suc m) z),
        taken,
        length-replicate {ℓ} m z,
      )

      pieces :
          take (suc k) front ++ (take m (drop k xs) ++ drop (suc k + m) front) ≡ insert_at k z xs
      pieces =
          rw
            (
              take-append_suc k (take k xs) z (replicate m z) (sym taken),
              take-ge m (drop k xs) (omega (arith, length-drop k xs)),
              drop-ge (suc k + m) front (omega (arith, front-length)),
              append-nil,
              append_assoc,
            )
            (insert_at_lem k z xs (omega arith))

  second_copy_remove :
      (xs : List A) (z : A) (k m : ℕ)
      → suc (k + m) ≡ length xs
      → memcpy (take k xs ++ replicate m z) k xs (suc k) m ≡ some (remove_at k xs)
  second_copy_remove xs z k m h =
      memcpy_lem front k xs (suc k) m (omega (arith, front-length)) (omega arith) ∙ ap some pieces
    where
      front : List A
      front = take k xs ++ replicate m z

      taken : length (take k xs) ≡ k
      taken = length-take k xs (omega arith)

      front-length : length front ≡ k + m
      front-length =
          omega
            (arith, length-append {ℓ} (take k xs) (replicate m z), taken, length-replicate {ℓ} m z)

      pieces : take k front ++ (take m (drop (suc k) xs) ++ drop (k + m) front) ≡ remove_at k xs
      pieces =
          rw
            (
              take-append k (take k xs) (replicate m z) (sym taken),
              take-ge m (drop (suc k) xs) (omega (arith, length-drop (suc k) xs)),
              drop-ge (k + m) front (omega (arith, front-length)),
              append-nil,
            )
            (remove_at_lem k xs (omega arith))

  -- The copies around a gap at `k`, in a block of zeroes one longer than the old one.
  pub copies_insert :
      (xs : List A) (z : A) (k n : ℕ)
      → n ≡ length xs
      → k ≤ n
      → (memcpy (replicate (suc n) z) 0 xs 0 k >>= λ d. memcpy d (suc k) xs k (n - k))
        ≡ some (insert_at k z xs)
  copies_insert xs z k n e h =
      let split : suc n ≡ k + suc (n - k) = omega arith in
      let first : memcpy (replicate (suc n) z) 0 xs 0 k
          ≡ some (take k xs ++ replicate (suc (n - k)) z) =
        ap (λ m. memcpy (replicate m z) 0 xs 0 k) split
        ∙ first_copy xs z k (suc (n - k)) (omega arith) in
      ap (λ r. r >>= λ d. memcpy d (suc k) xs k (n - k)) first
      ∙ second_copy_insert xs z k (n - k) (omega arith)

  -- The copies around the entry `k`, into a block of zeroes one shorter than the old one.
  pub copies_remove :
      (xs : List A) (z : A) (k n : ℕ)
      → suc n ≡ length xs
      → k ≤ n
      → (memcpy (replicate n z) 0 xs 0 k >>= λ d. memcpy d k xs (suc k) (n - k))
        ≡ some (remove_at k xs)
  copies_remove xs z k n e h =
      let split : n ≡ k + (n - k) = omega arith in
      let first : memcpy (replicate n z) 0 xs 0 k ≡ some (take k xs ++ replicate (n - k) z) =
        ap (λ m. memcpy (replicate m z) 0 xs 0 k) split ∙ first_copy xs z k (n - k) (omega arith) in
      ap (λ r. r >>= λ d. memcpy d k xs (suc k) (n - k)) first
      ∙ second_copy_remove xs z k (n - k) (omega arith)

  pub copy_all :
      (xs : List A) (z : A) (n : ℕ) → n ≡ length xs → memcpy (replicate n z) 0 xs 0 n ≡ some xs
  copy_all xs z n e =
      let split : n ≡ n + 0 = omega arith in
      ap (λ m. memcpy (replicate m z) 0 xs 0 n) split
      ∙ first_copy xs z n 0 (omega arith)
      ∙ ap some (append-nil (take n xs) ∙ take-ge n xs (omega arith))

  pub store-insert_at :
      (k : ℕ) (z v : A) (xs : List A)
      → k ≤ length xs
      → store (insert_at k z xs) k v ≡ some (insert_at k v xs)
  unfolding store
  store-insert_at k z v xs h =
      let room : k < length (insert_at k z xs) = omega (arith, length-insert_at {ℓ} k z xs) in
      rw (lt→ltb _ _ room) (ap some (set-insert_at k z v xs h))

  pub store_lem : (xs : List A) (i : ℕ) (v : A) → i < length xs → store xs i v ≡ some (set xs i v)
  unfolding store
  store_lem xs i v h = rw (lt→ltb _ _ h)
