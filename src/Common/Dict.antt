-- ===== src/Common/Dict.antt =====
-- A dictionary with texts as its keys, as a JavaScript `Map` or object: `get` and `set`.
use Prim.Native.String.{String}
use mathlib.Core.Path.{◌≡◌, refl}
use mathlib.Core.Option.{Option, none, some}
use mathlib.Core.List.{List, [], ◌∷◌}
use native.Mathlib.Omega.{arith}
use proof_stell_backend.Common.Tests.{◌===◌, ===_iff, ===_refl, if◌then◌else◌, Bool-cases}
use proof_stell_backend.Common.Lists.{All}
use mathlib.Core.Logic.{inl, inr}
use mathlib.Core.Path.{subst}

module _ {ℓ} {V : Type ℓ} where
  unfoldable pub lookup : String → List (String × V) → Option V
  lookup k [] = none
  lookup k ((j, v) ∷ m) = let rest = lookup k m in if j === k then some v else rest

  -- A key that is there keeps its place.
  unfoldable pub insert : String → V → List (String × V) → List (String × V)
  insert k v [] = (k, v) ∷ []
  insert k v ((j, w) ∷ m) = let rest = insert k v m in if j === k then (j, v) ∷ m else (j, w) ∷ rest

  pub lookup-insert :
      (k j : String) (v : V) (m : List (String × V))
      → lookup j (insert k v m) ≡ (if k === j then some v else lookup j m)
  unfolding lookup insert
  lookup-insert k j v [] = refl
  lookup-insert k j v ((i, w) ∷ m) =
      ground (arith, ===_iff k j, ===_iff i k, ===_iff i j, lookup-insert k j v m)

  pub lookup-insert_self :
      (k : String) (v : V) (m : List (String × V)) → lookup k (insert k v m) ≡ some v
  lookup-insert_self k v m = ground (arith, lookup-insert k k v m, ===_refl k)

module _ {ℓ κ} {V : Type ℓ} (P : V → Type κ) where
  -- What holds of all values holds of one that is found.
  pub All-lookup :
      (k : String) (v : V) (m : List (String × V))
      → All (λ (e : String × V). P e.1) m
      → lookup k m ≡ some v
      → P v
  unfolding lookup
  All-lookup k v [] h e = absurd (ground (arith, e))
  All-lookup k v ((j, w) ∷ m) (first, rest) e = elim (Bool-cases (j === k)) [
    | inl same ↦ let found : w ≡ v = ground (arith, same, e) in subst P found first
    | inr other ↦ All-lookup k v m rest (ground (arith, other, e))
  ]

  pub All-insert :
      (k : String) (v : V) (m : List (String × V))
      → All (λ (e : String × V). P e.1) m
      → P v
      → All (λ (e : String × V). P e.1) (insert k v m)
  unfolding insert
  All-insert k v [] h p = (p, tt)
  All-insert k v ((j, w) ∷ m) (first, rest) p = elim (Bool-cases (j === k)) [
    | inl same ↦ rw same (p, rest)
    | inr other ↦ rw other (first, All-insert k v m rest p)
  ]
