-- ===== src/ScheduledChallenges/Difficulty.antt =====
-- scheduled-challenges/services/dynamic-difficulty.service.ts: the level of a user for one type of
-- challenge. An average is kept as the sum of its values, so that its comparison with a bound is
-- exact; scores and times are not negative.
use proof_stell_backend.Common.{
  ℕ, ◌+◌, ◌-◌, ◌*◌, Bool, true, false, Option, none, some, List, [], ◌∷◌, if◌then◌else◌, leb, ltb,
  ◌&&◌, ◌||◌,
}

-- enum AttemptStatus
pub data AttemptStatus : Type 0 where
  in_progress completed failed timeout : AttemptStatus

pub record ChallengeAttempt : Type 0 where
  pub status : AttemptStatus
  pub score : ℕ
  pub time_spent : ℕ

-- The entity UserDifficultyProfile of one user and one type; levels are 1 (beginner) to 5 (expert)
pub record UserDifficultyProfile : Type 0 where
  pub current_difficulty : ℕ
  pub total_attempts : ℕ
  pub successful_attempts : ℕ
  pub score_sum : ℕ
  pub time_sum : ℕ
  pub last_challenge_at : Option ℕ

abbrev pub beginner : ℕ
beginner = 1

abbrev pub expert : ℕ
expert = 5

abbrev pub new_profile : UserDifficultyProfile
new_profile = record {
  current_difficulty = beginner;
  total_attempts = 0;
  successful_attempts = 0;
  score_sum = 0;
  time_sum = 0;
  last_challenge_at = none;
}

abbrev pub is_completed : AttemptStatus → Bool
is_completed completed = true
is_completed in_progress = false
is_completed failed = false
is_completed timeout = false

-- successRate >= 0.8 && averageScore >= 80
abbrev pub should_increase : UserDifficultyProfile → Bool
should_increase p =
    leb (4 * p.total_attempts) (5 * p.successful_attempts)
    && leb (80 * p.total_attempts) p.score_sum

-- successRate <= 0.3 || averageScore <= 40
abbrev pub should_decrease : UserDifficultyProfile → Bool
should_decrease p =
    leb (10 * p.successful_attempts) (3 * p.total_attempts)
    || leb p.score_sum (40 * p.total_attempts)

-- private calculateNewDifficulty(profile)
unfoldable pub calculate_new_difficulty : UserDifficultyProfile → ℕ
calculate_new_difficulty p =
    if ltb p.total_attempts 3
    then p.current_difficulty
    else if should_increase p && ltb p.current_difficulty expert
    then p.current_difficulty + 1
    else if should_decrease p && ltb beginner p.current_difficulty
    then p.current_difficulty - 1
    else p.current_difficulty

-- The statistics of updateUserDifficulty
unfoldable pub count_attempt : ℕ → ChallengeAttempt → UserDifficultyProfile → UserDifficultyProfile
count_attempt now a p = record p {
  total_attempts = p.total_attempts + 1;
  successful_attempts =
      if is_completed a.status then p.successful_attempts + 1 else p.successful_attempts;
  score_sum = p.score_sum + a.score;
  time_sum = p.time_sum + a.time_spent;
  last_challenge_at = some now;
}

abbrev pub profile_or_new : Option UserDifficultyProfile → UserDifficultyProfile
profile_or_new none = new_profile
profile_or_new (some p) = p

-- async updateUserDifficulty(userId, challengeType, attempt), on the profile that is stored
unfoldable pub update_user_difficulty :
    ℕ → ChallengeAttempt → Option UserDifficultyProfile → UserDifficultyProfile
update_user_difficulty now a stored =
    let p = count_attempt now a (profile_or_new stored) in
    record p { current_difficulty = calculate_new_difficulty p }

-- async getUserDifficulty(userId, challengeType)
unfoldable pub get_user_difficulty : Option UserDifficultyProfile → ℕ
get_user_difficulty none = beginner
get_user_difficulty (some p) = if leb p.current_difficulty 0 then beginner else p.current_difficulty

-- async getUserDifficultyProfile(userId, challengeType): a new profile is stored
unfoldable pub get_user_difficulty_profile :
    Option UserDifficultyProfile → Option UserDifficultyProfile × UserDifficultyProfile
get_user_difficulty_profile stored = (some (profile_or_new stored), profile_or_new stored)

-- The stored profile after attempts, each with its time
unfoldable pub run_attempts :
    List (ℕ × ChallengeAttempt) → Option UserDifficultyProfile → Option UserDifficultyProfile
run_attempts [] stored = stored
run_attempts ((now, a) ∷ rest) stored =
    run_attempts rest (some (update_user_difficulty now a stored))
