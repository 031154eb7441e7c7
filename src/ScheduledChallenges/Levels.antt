-- ===== src/ScheduledChallenges/Levels.antt =====
-- The levels that attempts lead to.
use proof_stell_backend.Common.{
  ℕ, suc, ◌+◌, ◌-◌, ◌*◌, ◌≤◌, ◌≡◌, refl, Option, none, some, List, [], ◌∷◌, arith, length, min, max,
  All,
}
use mathlib.Core.Path.{subst}
use proof_stell_backend.ScheduledChallenges.Difficulty.{
  completed, ChallengeAttempt, UserDifficultyProfile, calculate_new_difficulty, count_attempt,
  update_user_difficulty, get_user_difficulty, run_attempts,
}

abbrev IsLevel : Option UserDifficultyProfile → Type 0
IsLevel none = Unit
IsLevel (some p) = (1 ≤ p.current_difficulty) × (p.current_difficulty ≤ 5)

update-IsLevel :
    (now : ℕ) (a : ChallengeAttempt) (stored : Option UserDifficultyProfile)
    → IsLevel stored
    → IsLevel (some (update_user_difficulty now a stored))
unfolding update_user_difficulty calculate_new_difficulty count_attempt
update-IsLevel now a none h = (ground arith, ground arith)
update-IsLevel now a (some p) (low, high) = (ground arith, ground arith)

run_attempts-IsLevel :
    (attempts : List (ℕ × ChallengeAttempt)) (stored : Option UserDifficultyProfile)
    → IsLevel stored
    → IsLevel (run_attempts attempts stored)
unfolding run_attempts
run_attempts-IsLevel [] stored h = h
run_attempts-IsLevel ((now, a) ∷ rest) stored h =
    run_attempts-IsLevel rest (some (update_user_difficulty now a stored))
      (update-IsLevel now a stored h)

level-IsLevel :
    (stored : Option UserDifficultyProfile)
    → IsLevel stored
    → (1 ≤ get_user_difficulty stored) × (get_user_difficulty stored ≤ 5)
unfolding get_user_difficulty
level-IsLevel none h = (omega arith, omega arith)
level-IsLevel (some p) (low, high) = (ground arith, ground arith)

level-steps :
    (now : ℕ) (a : ChallengeAttempt) (stored : Option UserDifficultyProfile)
    → IsLevel stored
    → (let old = get_user_difficulty stored in
        let new = get_user_difficulty (some (update_user_difficulty now a stored)) in
        (new ≤ old + 1) × (old ≤ new + 1))
unfolding get_user_difficulty update_user_difficulty calculate_new_difficulty count_attempt
level-steps now a none h = (ground arith, ground arith)
level-steps now a (some p) (low, high) = (ground arith, ground arith)

-- After any attempts of a user without a profile, the level that the user is given is one of the five,
-- and one more attempt changes it by one at most.
pub run_attempts-bounds :
    (attempts : List (ℕ × ChallengeAttempt)) (now : ℕ) (a : ChallengeAttempt)
    → (let stored = run_attempts attempts none in
        let old = get_user_difficulty stored in
        let new = get_user_difficulty (some (update_user_difficulty now a stored)) in
        (1 ≤ old) × (old ≤ 5) × (new ≤ old + 1) × (old ≤ new + 1))
run_attempts-bounds attempts now a =
    let stored = run_attempts attempts none in
    let h = run_attempts-IsLevel attempts none tt in
    let (low, high) = level-IsLevel stored h in
    let (up, down) = level-steps now a stored h in (low, high, up, down)

-- A completed attempt with a score of at least 80
abbrev pub IsGood : ℕ × ChallengeAttempt → Type 0
IsGood (now, a) = (a.status ≡ completed) × (80 ≤ a.score)

-- The profile after a number of good attempts
abbrev IsClimbing : ℕ → Option UserDifficultyProfile → Type 0
IsClimbing n none = n ≡ 0
IsClimbing n (some p) =
    (p.total_attempts ≡ n)
    × (p.successful_attempts ≡ n)
    × (80 * n ≤ p.score_sum)
    × (p.current_difficulty ≡ min 5 (max 1 (n - 1)))

update-IsClimbing :
    (n now : ℕ) (a : ChallengeAttempt) (stored : Option UserDifficultyProfile)
    → IsGood (now, a)
    → IsClimbing n stored
    → IsClimbing (suc n) (some (update_user_difficulty now a stored))
unfolding update_user_difficulty calculate_new_difficulty count_attempt
update-IsClimbing n now a none (c, s) h = (omega arith, ground arith, omega arith, omega arith)
update-IsClimbing n now a (some p) (c, s) (total, successful, sum, level) =
    (omega arith, ground arith, omega arith, ground arith)

run_attempts-IsClimbing :
    (attempts : List (ℕ × ChallengeAttempt)) (n : ℕ) (stored : Option UserDifficultyProfile)
    → All IsGood attempts
    → IsClimbing n stored
    → IsClimbing (n + length attempts) (run_attempts attempts stored)
unfolding run_attempts
run_attempts-IsClimbing [] n stored good h = subst (λ m. IsClimbing m stored) (omega arith) h
run_attempts-IsClimbing ((now, a) ∷ rest) n stored (first, good) h =
    let later : IsClimbing (suc n + length rest)
        (run_attempts rest (some (update_user_difficulty now a stored))) =
      run_attempts-IsClimbing rest (suc n) (some (update_user_difficulty now a stored)) good
        (update-IsClimbing n now a stored first h) in
    subst (λ m. IsClimbing m (run_attempts rest (some (update_user_difficulty now a stored))))
      (omega arith) later

level-IsClimbing :
    (n : ℕ) (stored : Option UserDifficultyProfile)
    → IsClimbing n stored
    → get_user_difficulty stored ≡ min 5 (max 1 (n - 1))
unfolding get_user_difficulty
level-IsClimbing n none h = omega arith
level-IsClimbing n (some p) (total, successful, sum, level) = ground arith

-- A user whose every attempt is completed with a score of at least 80 keeps the first level for two
-- attempts, and climbs one level with each further attempt, up to the fifth.
pub run_attempts-climbs :
    (attempts : List (ℕ × ChallengeAttempt))
    → All IsGood attempts
    → get_user_difficulty (run_attempts attempts none) ≡ min 5 (max 1 (length attempts - 1))
run_attempts-climbs attempts good =
    level-IsClimbing (length attempts) (run_attempts attempts none) (
      subst (λ m. IsClimbing m (run_attempts attempts none)) (omega arith)
        (run_attempts-IsClimbing attempts 0 none good refl))
