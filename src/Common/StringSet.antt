-- ===== src/Common/StringSet.antt =====
-- A JavaScript `Set<string>`: `has`, `add`, `delete` and `size`.
use Prim.Native.String.{String}
use mathlib.Core.Path.{◌≡◌, refl}
use mathlib.Core.Bool.{Bool, true, false, ◌||◌}
use mathlib.Core.List.{List, [], ◌∷◌}
use native.Mathlib.Omega.{arith}
use Prim.Native.Nat.{◌≤◌, ◌<◌}
use proof_stell_backend.Common.Lists.{length}
use proof_stell_backend.Common.Tests.{◌===◌, ===_iff, ===_refl, Bool-cases, if◌then◌else◌}
use mathlib.Core.Logic.{inl, inr}

unfoldable pub has : List String → String → Bool
has [] k = false
has (x ∷ xs) k = x === k || has xs k

unfoldable pub add : List String → String → List String
add xs k = if has xs k then xs else k ∷ xs

unfoldable pub delete : List String → String → List String
delete [] k = []
delete (x ∷ xs) k = let rest = delete xs k in if x === k then rest else x ∷ rest

pub has-nil : (k : String) → has [] k ≡ false
unfolding has
has-nil k = refl

pub has-add :
    (xs : List String) (k j : String) → has (add xs k) j ≡ (if k === j then true else has xs j)
unfolding has add
has-add xs k j = ground (arith, ===_iff k j)

pub has-delete :
    (xs : List String) (k j : String) → has (delete xs k) j ≡ (if k === j then false else has xs j)
unfolding has delete
has-delete [] k j = ground arith
has-delete (x ∷ xs) k j = ground (arith, has-delete xs k j, ===_iff x k, ===_iff x j, ===_iff k j)

-- The list holds each text once, as a set does.
abbrev pub NoDuplicates : List String → Type 0
NoDuplicates [] = Unit
NoDuplicates (x ∷ xs) = (has xs x ≡ false) × NoDuplicates xs

pub add-NoDuplicates : (xs : List String) (k : String) → NoDuplicates xs → NoDuplicates (add xs k)
unfolding add
add-NoDuplicates xs k h = elim (Bool-cases (has xs k)) [
  | inl old ↦ rw old h
  | inr new ↦ rw new (new, h)
]

pub length-delete-le : (xs : List String) (k : String) → length (delete xs k) ≤ length xs
unfolding delete
length-delete-le [] k = omega arith
length-delete-le (x ∷ xs) k = ground (arith, length-delete-le xs k)

pub length-delete-lt :
    (xs : List String) (k : String) → has xs k ≡ true → length (delete xs k) < length xs
unfolding delete has
length-delete-lt [] k h = cc
length-delete-lt (x ∷ xs) k h = ground (arith, length-delete-le xs k, length-delete-lt xs k)

-- A set that another list covers is not longer than that list.
pub length-le_of_covered :
    (xs ys : List String)
    → NoDuplicates xs
    → ((s : String) → has xs s ≡ true → has ys s ≡ true)
    → length xs ≤ length ys
unfolding has
length-le_of_covered [] ys _ h = omega arith
length-le_of_covered (x ∷ xs) ys (fresh, nodup) h =
    let found : has ys x ≡ true = h x (ground (arith, ===_refl x)) in
    let shorter =
      length-le_of_covered xs (delete ys x) nodup
        (λ s m. ground (arith, has-delete ys x s, h s, ===_iff x s)) in
    omega (arith, shorter, length-delete-lt ys x found)
