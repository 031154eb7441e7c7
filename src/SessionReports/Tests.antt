-- ===== src/SessionReports/Tests.antt =====
-- A session that is reported, by itself and in the saga.
use proof_stell_backend.Common.{
  ℕ, ◌≤◌, ◌≡◌, refl, true, false, none, some, List, [], ◌∷◌, length, All, arith,
}
use proof_stell_backend.Common.Int.{pos}
use proof_stell_backend.Common.Dict.{lookup}
use proof_stell_backend.Common.Result.{is_ok}
use proof_stell_backend.Redis.{live, memory_redis, memory_redis-RedisLaws}
use proof_stell_backend.Lock.{LockConfig, redis}
use proof_stell_backend.Cache.Locking.{Surroundings}
use proof_stell_backend.Idempotency.{check}
use proof_stell_backend.Leaderboard.{Submission}
use proof_stell_backend.SessionReports.{
  Session, Input, calculate_session_hash, find_session, chunk_array,
}
use proof_stell_backend.SessionReports.Steps.{Context, Report, already_reported, verify_and_save}
use proof_stell_backend.SessionReports.Saga.{ReportState, report_session}
use proof_stell_backend.SessionReports.Chunks.{join, chunk_array-join}
use proof_stell_backend.SessionReports.Verification.{verify_and_save-once}
use proof_stell_backend.SessionReports.Locked.{report_session-never}

abbrev digits : List ℕ
digits = 3 ∷ 1 ∷ 4 ∷ 1 ∷ 5 ∷ []

chunk_array-join_example :
    (join (chunk_array digits 2) ≡ digits)
    × All (λ (c : List ℕ). (1 ≤ length c) × (length c ≤ 2)) (chunk_array digits 2)
chunk_array-join_example = chunk_array-join 2 (omega arith) digits

abbrev input : Input
input = record { event_type = "click"; timestamp = 10; event_data = "{}"; client_id = none }

abbrev session : Session
session = record {
  id = "s1";
  user_id = "ann";
  challenge_id = "c1";
  score = 0;
  duration = 0;
  metadata = none;
  is_suspicious = false;
  suspicion_reason = none;
  nonce = "n1";
  nonce_used_at = none;
  is_verified = false;
  created_at = 100;
}

abbrev surroundings : Surroundings memory_redis
surroundings = record { link = λ i. live; token = λ i. "t"; meanwhile = λ i s. s }

abbrev lock_config : LockConfig
lock_config = record { cron_lock_ttl_ms = pos 30000; scheduler_instance_id = "i1" }

abbrev submission : Submission memory_redis
submission = record {
  new_id = 4;
  now = 900;
  batch = false;
  posted = true;
  config = lock_config;
  update_lock = surroundings;
  update_link = live;
  rank_lock = surroundings;
  rank_link = live;
}

abbrev a_report : Report memory_redis
a_report = record {
  user_id = "ann";
  dto = record {
    challenge_id = "c1";
    score = 60;
    duration = 5000;
    inputs = input ∷ [];
    metadata = none;
    session_id = "s1";
    signature = "n1";
  };
  is_suspicious = false;
  suspicion_reason = none;
  now = 900;
  hmac = λ nonce d. nonce;
  with_suspicion = λ m. "{}";
  award = λ user s db. (db, true);
  take_back = λ user s db. db;
  config = lock_config;
  lock = surroundings;
  release_link = live;
  submission = submission;
  undoing = submission;
}

abbrev state : ReportState memory_redis
state = record {
  db = record { sessions = session ∷ []; input_events = []; users = []; user_badges = [] };
  board = record { rows = []; results = []; postings = [] };
  locks = record {
    service = record {
      active_locks = [];
      backend = redis;
      acquisition_failures = 0;
      release_failures = 0;
    };
    store = λ k. none;
  };
  results = [];
}

abbrev context : Context memory_redis
context = record {
  db = state.db;
  board = state.board;
  locks = state.locks;
  saved_session = none;
  input_events = [];
  previous_games_played = pos 0;
  previous_total_score = pos 0;
  previous_highest_score = pos 0;
}

verify_and_save-once_example :
    (verify_and_save a_report (verify_and_save a_report context).0).1 ≡ some already_reported
verify_and_save-once_example =
    verify_and_save-once a_report a_report context
      (unfold verify_and_save find_session calculate_session_hash in refl) refl refl

report_session-never_example :
    (is_ok (report_session a_report state).1 ≡ false)
    × ((report_session a_report state).0.db ≡ state.db)
report_session-never_example =
    report_session-never memory_redis-RedisLaws a_report (λ i. refl) (λ i s taken. taken) state
      (unfold check lookup in refl)
