-- ===== src/SessionReports/Chunks.antt =====
-- chunkArray of game-session/game-session.service.ts.
use proof_stell_backend.Common.{
  ℕ, zero, suc, ◌≤◌, ◌<◌, ◌≡◌, refl, ap, ◌∙◌, List, [], ◌∷◌, ◌++◌, length, length-take, length-drop,
  take, drop, take-append-drop, All, arith,
}
use proof_stell_backend.SessionReports.{chunk_loop, chunk_array}

-- The elements of the chunks, one chunk after the other
abbrev pub join {ℓ} : {A : Type ℓ} → List (List A) → List A
join [] = []
join (c ∷ cs) = c ++ join cs

module _ {ℓ} {A : Type ℓ} (size : ℕ) (positive : 0 < size) where
  chunk_loop-join :
      (fuel : ℕ) (xs : List A) → length xs ≤ fuel → join (chunk_loop fuel size xs) ≡ xs
  unfolding chunk_loop
  chunk_loop-join zero [] h = refl
  chunk_loop-join zero (x ∷ xs) h = absurd (omega (arith, h))
  chunk_loop-join (suc fuel) [] h = refl
  chunk_loop-join (suc fuel) (x ∷ xs) h =
      let shorter : length (drop size (x ∷ xs)) ≤ fuel =
        omega (arith, length-drop size (x ∷ xs), h, positive) in
      ap (λ (l : List A). take size (x ∷ xs) ++ l)
        (chunk_loop-join fuel (drop size (x ∷ xs)) shorter)
      ∙ take-append-drop size (x ∷ xs)

  chunk_loop-small :
      (fuel : ℕ) (xs : List A)
      → All (λ (c : List A). (1 ≤ length c) × (length c ≤ size)) (chunk_loop fuel size xs)
  unfolding chunk_loop
  chunk_loop-small zero xs = tt
  chunk_loop-small (suc fuel) [] = tt
  chunk_loop-small (suc fuel) (x ∷ xs) = (
    (omega (arith, length-take size (x ∷ xs), positive), omega (arith, length-take size (x ∷ xs))),
    chunk_loop-small fuel (drop size (x ∷ xs)),
  )

  -- For a positive size, the chunks of an array, one after the other, are the array, and each of
  -- them has at least one and at most that many elements.
  pub chunk_array-join :
      (xs : List A)
      → (join (chunk_array xs size) ≡ xs)
        × All (λ (c : List A). (1 ≤ length c) × (length c ≤ size)) (chunk_array xs size)
  unfolding chunk_array
  chunk_array-join xs =
      (chunk_loop-join (length xs) xs (omega arith), chunk_loop-small (length xs) xs)
