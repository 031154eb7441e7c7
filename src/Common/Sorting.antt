-- ===== src/Common/Sorting.antt =====
-- Stable sorting by a comparison, as `Array.prototype.sort`.
use mathlib.Core.Path.{◌≡◌, refl}
use mathlib.Core.Logic.{inl, inr}
use mathlib.Core.Bool.{Bool, true, false}
use mathlib.Core.List.{List, [], ◌∷◌}
use Prim.Native.Nat.{suc}
use native.Mathlib.Omega.{arith}
use proof_stell_backend.Common.Tests.{if◌then◌else◌, Bool-cases}
use proof_stell_backend.Common.Lists.{All, All-map, length, count}

module _ {A : Type 0} where
  -- `le a b`: `a` may stand before `b`. An element is put before those that are not less.
  unfoldable pub insert_by : (A → A → Bool) → A → List A → List A
  insert_by le a [] = a ∷ []
  insert_by le a (b ∷ bs) = let rest = insert_by le a bs in if le a b then a ∷ b ∷ bs else b ∷ rest

  unfoldable pub sort_by : (A → A → Bool) → List A → List A
  sort_by le [] = []
  sort_by le (a ∷ as') = insert_by le a (sort_by le as')

  -- Every element may stand before all that follow it.
  abbrev pub IsSortedBy : (A → A → Bool) → List A → Type 0
  IsSortedBy le [] = Unit
  IsSortedBy le (a ∷ as') = All (λ b. le a b ≡ true) as' × IsSortedBy le as'

  pub length-insert_by :
      (le : A → A → Bool) (a : A) (xs : List A) → length (insert_by le a xs) ≡ suc (length xs)
  unfolding insert_by
  length-insert_by le a [] = refl
  length-insert_by le a (x ∷ xs) = ground (arith, length-insert_by le a xs)

  pub length-sort_by : (le : A → A → Bool) (xs : List A) → length (sort_by le xs) ≡ length xs
  unfolding sort_by
  length-sort_by le [] = refl
  length-sort_by le (x ∷ xs) =
      ground (arith, length-insert_by le x (sort_by le xs), length-sort_by le xs)

  pub count-insert_by :
      (p : A → Bool) (le : A → A → Bool) (a : A) (xs : List A)
      → count p (insert_by le a xs) ≡ count p (a ∷ xs)
  unfolding insert_by
  count-insert_by p le a [] = refl
  count-insert_by p le a (x ∷ xs) = ground (arith, count-insert_by p le a xs)

  -- Sorting keeps the elements, each as often as it was there.
  pub count-sort_by :
      (p : A → Bool) (le : A → A → Bool) (xs : List A) → count p (sort_by le xs) ≡ count p xs
  unfolding sort_by
  count-sort_by p le [] = refl
  count-sort_by p le (x ∷ xs) =
      ground (arith, count-insert_by p le x (sort_by le xs), count-sort_by p le xs)

  module _ {κ} (P : A → Type κ) (le : A → A → Bool) where
    pub All-insert_by : (a : A) (xs : List A) → P a → All P xs → All P (insert_by le a xs)
    unfolding insert_by
    All-insert_by a [] p h = (p, tt)
    All-insert_by a (x ∷ xs) p (q, h) = elim (Bool-cases (le a x)) [
      | inl e ↦ rw e (p, (q, h))
      | inr e ↦ rw e (q, All-insert_by a xs p h)
    ]

    pub All-sort_by : (xs : List A) → All P xs → All P (sort_by le xs)
    unfolding sort_by
    All-sort_by [] h = tt
    All-sort_by (x ∷ xs) (p, h) = All-insert_by x (sort_by le xs) p (All-sort_by xs h)

  module _ (le : A → A → Bool) (total : (a b : A) → le a b ≡ false → le b a ≡ true)
      (trans : (a b c : A) → le a b ≡ true → le b c ≡ true → le a c ≡ true) where
    insert_by-IsSortedBy :
        (a : A) (xs : List A) → IsSortedBy le xs → IsSortedBy le (insert_by le a xs)
    unfolding insert_by
    insert_by-IsSortedBy a [] h = (tt, tt)
    insert_by-IsSortedBy a (x ∷ xs) (first, rest) = elim (Bool-cases (le a x)) [
      | inl e ↦ rw e ((e, All-map (λ b h. trans a x b e h) xs first), (first, rest))
      | inr e ↦ rw e (
        All-insert_by (λ b. le x b ≡ true) le a xs (total a x e) first,
        insert_by-IsSortedBy a xs rest,
      )
    ]

    pub sort_by-IsSortedBy : (xs : List A) → IsSortedBy le (sort_by le xs)
    unfolding sort_by
    sort_by-IsSortedBy [] = tt
    sort_by-IsSortedBy (x ∷ xs) = insert_by-IsSortedBy x (sort_by le xs) (sort_by-IsSortedBy xs)
