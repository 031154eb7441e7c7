-- ===== src/ScheduledChallenges/Tests.antt =====
-- Runs of the jobs of scheduled challenges on concrete rows.
use proof_stell_backend.Common.{
  ℕ, ◌+◌, ◌-◌, ◌*◌, if◌then◌else◌, ◌===◌, ◌≤◌, ◌≡◌, refl, Bool, true, false, none, some, List, [],
  ◌∷◌, map, arith, length, min, max,
}
use proof_stell_backend.Common.Int.{pos}
use proof_stell_backend.Common.Sorting.{sort_by, insert_by}
use proof_stell_backend.Redis.{live, memory_redis, memory_redis-RedisLaws}
use proof_stell_backend.Lock.{redis, LockState}
use proof_stell_backend.ScheduledChallenges.{
  ScheduleStatus, pending, active, expired, ScheduledChallenge, Job, Generation, process,
  generate_each, challenge_types, generate_daily_challenges, activate, expire,
  get_active_scheduled_challenges,
}
use proof_stell_backend.ScheduledChallenges.Transitions.{brought_up, process-heals}
use proof_stell_backend.ScheduledChallenges.Jobs.{generate_daily_challenges-twice}
use proof_stell_backend.ScheduledChallenges.Difficulty.{
  AttemptStatus, ChallengeAttempt, failed, run_attempts, update_user_difficulty,
  get_user_difficulty, calculate_new_difficulty, count_attempt,
}
use proof_stell_backend.ScheduledChallenges.Levels.{run_attempts-bounds, run_attempts-climbs}

runs : Unit {0}
unfolding process activate expire generate_each get_active_scheduled_challenges run_attempts
    update_user_difficulty get_user_difficulty calculate_new_difficulty count_attempt sort_by
    insert_by
runs = tt

abbrev job : ℕ → Bool → Job
job now expiration_fails = record {
  config = record { cron_lock_ttl_ms = pos 300000; scheduler_instance_id = "worker-1" };
  acquire_link = live;
  release_link = live;
  token = "w1";
  ttl = pos 300000;
  now = now;
  activation_fails = false;
  expiration_fails = expiration_fails;
}

abbrev challenge : ℕ → ScheduleStatus → ScheduledChallenge
challenge id status = record {
  id = id;
  challenge_id = "c1";
  user_id = none;
  status = status;
  scheduled_for = 10 * id;
  expires_at = some (10 * id + 15);
  is_global = true;
}

abbrev rows : List ScheduledChallenge
rows = challenge 1 pending ∷ challenge 2 pending ∷ challenge 3 pending ∷ []

process_test :
    process (job 28 false) rows
    ≡ (challenge 1 expired ∷ challenge 2 active ∷ challenge 3 pending ∷ [], true)
unfolding runs
process_test = refl

active_test :
    get_active_scheduled_challenges (some "") (challenge 1 active ∷ challenge 2 active ∷ [])
    ≡ challenge 2 active ∷ challenge 1 active ∷ []
unfolding runs
active_test = refl

process-heals_example :
    process (job 28 false) (process (job 20 true) rows).0 ≡ (map (brought_up 28) rows, true)
process-heals_example = process-heals (job 20 true) (job 28 false) rows (omega arith) refl refl

abbrev generation : ℕ → Generation
generation first = record {
  made = λ type. if type === "quiz" then none else some (first, type);
  scheduled_for = 100;
  expires_at = 200;
}

abbrev free_state : LockState memory_redis
free_state = record {
  service = record {
    active_locks = [];
    backend = redis;
    acquisition_failures = 0;
    release_failures = 0;
  };
  store = λ k. none;
}

generate_test : length (generate_each (generation 7) challenge_types rows) ≡ 6
unfolding runs
generate_test = refl

generate_daily_challenges-twice_example :
    (let (ls, (once, _)) =
        generate_daily_challenges (job 20 false) (generation 4) free_state rows in
      (generate_daily_challenges (job 20 false) (generation 8) ls once).1 ≡ (
        generate_each
            (generation 8)
            challenge_types
            (generate_each (generation 4) challenge_types rows),
        true,
      ))
generate_daily_challenges-twice_example =
    generate_daily_challenges-twice memory_redis-RedisLaws (job 20 false) (job 20 false)
      (generation 4) (generation 8) free_state rows refl refl refl refl refl

abbrev attempt : AttemptStatus → ℕ → ℕ × ChallengeAttempt
attempt status score = (50, record { status = status; score = score; time_spent = 60 })

abbrev good_attempts : List (ℕ × ChallengeAttempt)
good_attempts =
    attempt AttemptStatus.completed 80
    ∷ attempt AttemptStatus.completed 95
    ∷ attempt AttemptStatus.completed 100
    ∷ attempt AttemptStatus.completed 90
    ∷ []

climbs_test : get_user_difficulty (run_attempts good_attempts none) ≡ 3
unfolding runs
climbs_test = refl

run_attempts-bounds_example :
    (let stored = run_attempts good_attempts none in
      let old = get_user_difficulty stored in
      let new =
        get_user_difficulty (some (update_user_difficulty 60 (attempt failed 0).1 stored)) in
      (1 ≤ old) × (old ≤ 5) × (new ≤ old + 1) × (old ≤ new + 1))
run_attempts-bounds_example = run_attempts-bounds good_attempts 60 (attempt failed 0).1

run_attempts-climbs_example :
    get_user_difficulty (run_attempts good_attempts none) ≡ min 5 (max 1 (4 - 1))
run_attempts-climbs_example =
    run_attempts-climbs good_attempts
      ((refl, omega arith), ((refl, omega arith), ((refl, omega arith), ((refl, omega arith), tt))))
