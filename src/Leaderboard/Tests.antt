-- ===== src/Leaderboard/Tests.antt =====
-- Three entries, and submissions of one of the users.
use proof_stell_backend.Common.{
  ℕ, ◌<◌, ◌≡◌, ◌↔◌, ◌⊎◌, refl, String, true, false, none, List, [], ◌∷◌, inl, inr, arith,
}
use proof_stell_backend.Common.Int.{pos}
use proof_stell_backend.Common.Dict.{lookup, insert}
use proof_stell_backend.Common.Result.{ok, err}
use proof_stell_backend.Common.StringSet.{has, add, delete}
use proof_stell_backend.Redis.{live, memory_redis}
use proof_stell_backend.Lock.{
  LockState, redis, acquire, acquire_fallback, normalize_ttl, release, release_redis,
  release_script,
}
use proof_stell_backend.Cache.Locking.{Surroundings, with_lock, acquire_lock, attempt_from, try}
use proof_stell_backend.Idempotency.{check, store, generate_key}
use proof_stell_backend.Leaderboard.{
  Entry, Board, Posting, no_lock, before, recalculate_ranks_with_manager, find_entry, set_score,
  write_score, posting_of, Submission, recalculate_locked, after_commit,
  submit_score_with_transaction, submit_score,
}
use proof_stell_backend.Leaderboard.Ranks.{recalculate-lt_iff}
use proof_stell_backend.Leaderboard.Scores.{HasAtLeast, submit_score-HasAtLeast, submit_score-deaf}

abbrev entry : ℕ → String → ℕ → ℕ → ℕ → Entry
entry id user score rank time = record {
  id = id;
  user_id = user;
  score = score;
  rank = rank;
  updated_at = time;
}

abbrev rows : List Entry
rows = entry 1 "ann" 50 1 100 ∷ entry 2 "bob" 40 2 200 ∷ entry 3 "cleo" 40 3 300 ∷ []

abbrev board : Board
board = record { rows = rows; results = []; postings = [] }

abbrev surroundings : Surroundings memory_redis
surroundings = record { link = λ i. live; token = λ i. "t"; meanwhile = λ i s. s }

abbrev submission : ℕ → Submission memory_redis
submission now = record {
  new_id = 4;
  now = now;
  batch = false;
  posted = true;
  config = record { cron_lock_ttl_ms = pos 30000; scheduler_instance_id = "i1" };
  update_lock = surroundings;
  update_link = live;
  rank_lock = surroundings;
  rank_link = live;
}

abbrev locks : LockState memory_redis
locks = record {
  service = record {
    active_locks = [];
    backend = redis;
    acquisition_failures = 0;
    release_failures = 0;
  };
  store = λ k. none;
}

runs : Unit {0}
unfolding lookup insert has add delete acquire acquire_fallback normalize_ttl release release_redis
    release_script with_lock acquire_lock attempt_from try check store generate_key
    recalculate_ranks_with_manager find_entry set_score write_score posting_of recalculate_locked
    after_commit submit_score_with_transaction submit_score
runs = tt

recalculate-lt_iff_example :
    (1 < 3) ↔ (before (entry 1 "ann" 50 1 100) (entry 3 "cleo" 40 3 300) ≡ true)
recalculate-lt_iff_example =
    recalculate-lt_iff rows (entry 1 "ann" 50 1 100) (entry 3 "cleo" 40 3 300)
      (unfold recalculate_ranks_with_manager in inl refl)
      (unfold recalculate_ranks_with_manager in inr (inr (inl refl)))

submit_score-HasAtLeast_example :
    HasAtLeast "ann" 50 (submit_score (submission 900) "bob" 60 board locks).1.0.rows
submit_score-HasAtLeast_example =
    submit_score-HasAtLeast (submission 900) "bob" "ann" 60 50 board locks
      (entry 1 "ann" 50 1 100, unfold find_entry in refl, omega arith)

abbrev after_sixty : Board
after_sixty = record {
  rows = entry 1 "ann" 50 2 100 ∷ entry 2 "bob" 60 1 900 ∷ entry 3 "cleo" 40 3 300 ∷ [];
  results =
      ("submit-score:bob", record { result = entry 2 "bob" 60 1 900; expires_at = 600900 }) ∷ [];
  postings = Posting.rank_changed "bob" 2 1 60 ∷ [];
}

submit_score-deaf_example :
    ((submit_score (submission 5000) "bob" 75 after_sixty locks).1
      ≡ (after_sixty, ok (entry 2 "bob" 60 1 900)))
    ⊎ ((submit_score (submission 5000) "bob" 75 after_sixty locks).1 ≡ (after_sixty, err no_lock))
unfolding runs
submit_score-deaf_example =
    submit_score-deaf (submission 900) (submission 5000) "bob" 60 75 board after_sixty locks locks
      (entry 2 "bob" 60 1 900) refl (omega arith)
