-- ===== src/SessionInputs/Sequence/Windows.antt =====
-- The counting loops bound how many inputs share a window.
use proof_stell_backend.Common.{ℕ, suc, ◌+◌, ◌≤◌, ◌≡◌, refl, ◌↔◌, List, [], ◌∷◌, count, ◌==◌, arith}
use proof_stell_backend.SessionInputs.{Reason, valid}
use proof_stell_backend.SessionInputs.Sequence.{TimedInput, bump, check_windows}

-- How many inputs fall into the window k.
abbrev pub in_window : (ℕ → ℕ) → ℕ → List TimedInput → ℕ
in_window window k = count (λ (x : TimedInput). window x.timestamp == k)

module _ (window : ℕ → ℕ) (limit : ℕ) (reason : ℕ → Reason) where
  check_windows_sound :
      (counts : ℕ → ℕ) (xs : List TimedInput)
      → ((k : ℕ) → counts k ≤ limit)
      → check_windows window limit reason counts xs ≡ valid
      → (k : ℕ) → counts k + in_window window k xs ≤ limit
  unfolding check_windows
  check_windows_sound counts [] h e k = omega (arith, h k)
  check_windows_sound counts (x ∷ xs) h e k =
      let here : suc (counts (window x.timestamp)) ≤ limit = ground arith in
      let rest =
        check_windows_sound (bump counts (window x.timestamp)) xs (λ j. ground (arith, h j))
          (ground arith) k in
      ground (arith, rest)

  check_windows_complete :
      (counts : ℕ → ℕ) (xs : List TimedInput)
      → ((k : ℕ) → counts k + in_window window k xs ≤ limit)
      → check_windows window limit reason counts xs ≡ valid
  unfolding check_windows
  check_windows_complete counts [] h = refl
  check_windows_complete counts (x ∷ xs) h =
      let here : suc (counts (window x.timestamp)) ≤ limit =
        ground (arith, h (window x.timestamp)) in
      let rest =
        check_windows_complete (bump counts (window x.timestamp)) xs (λ j. ground (arith, h j)) in
      ground (arith, rest)

  pub check_windows-valid_iff :
      (xs : List TimedInput)
      → (check_windows window limit reason (λ _. 0) xs ≡ valid)
        ↔ ((k : ℕ) → in_window window k xs ≤ limit)
  check_windows-valid_iff xs = (
    λ e k. omega (arith, check_windows_sound (λ _. 0) xs (λ _. omega arith) e k),
    λ h. check_windows_complete (λ _. 0) xs (λ k. omega (arith, h k)),
  )
