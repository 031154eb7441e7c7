-- ===== src/SessionReports/Steps.antt =====
-- The five steps of the saga of reportSession, game-session/game-session.service.ts, and their
-- compensations.
use Prim.Native.String.{◌++◌ as append_text}
use proof_stell_backend.Common.{
  ℕ, String, Bool, true, false, Option, none, some, List, [], ◌∷◌, ◌++◌, if◌then◌else◌, ◌===◌, ◌&&◌,
  not, map, filter,
}
use proof_stell_backend.Common.Int.{ℤ, pos, pos_part}
use proof_stell_backend.Common.Result.{ok, err}
use proof_stell_backend.Redis.{Redis, Link}
use proof_stell_backend.Lock.{LockConfig, LockState, AcquiredLock}
use proof_stell_backend.Cache.Locking.{Surroundings, acquire_lock, release_lock}
use proof_stell_backend.Users.{find_row, save_row, has_id}
use proof_stell_backend.Users.Service.{plus, raised}
use proof_stell_backend.Leaderboard.{Board, BoardError, Submission, submit_score, lock_ttl}
use proof_stell_backend.SessionReports.{
  Session, Input, InputEvent, ReportSession, Database, HashedData, calculate_session_hash,
  chunk_array, find_session, save_session,
}

pub data ReportError : Type 0 where
  session_not_found already_reported bad_signature user_not_found not_locked : ReportError
  from_leaderboard : BoardError → ReportError
  from_achievements : ReportError

-- interface SessionReportContext with what its steps reach: the transaction, the leaderboard, the locks
pub record Context (R : Redis) : Type 0 where
  pub db : Database
  pub board : Board
  pub locks : LockState R
  pub saved_session : Option Session
  pub input_events : List InputEvent
  pub previous_games_played : ℤ
  pub previous_total_score : ℤ
  pub previous_highest_score : ℤ

-- What the outside contributes to one report; the functions are the keyed hash, the JSON text of the
-- metadata of a suspicious session, and the achievement service and its undoing
pub record Report (R : Redis) : Type 0 where
  pub user_id : String
  pub dto : ReportSession
  pub is_suspicious : Bool
  pub suspicion_reason : Option String
  pub now : ℕ
  pub hmac : String → HashedData → String
  pub with_suspicion : Option String → String
  pub award : String → Session → Database → Database × Bool
  pub take_back : String → Option Session → Database → Database
  pub config : LockConfig
  pub lock : Surroundings R
  pub release_link : Link
  pub submission : Submission R
  pub undoing : Submission R

-- `leaderboard:user:${c.userId}`
unfoldable pub report_lock_key : String → String
report_lock_key user = append_text "leaderboard:user:" user

abbrev pub reason_or_unknown : Option String → String
reason_or_unknown none = "Unknown"
reason_or_unknown (some r) = if r === "" then "Unknown" else r

module _ {R : Redis} (q : Report R) where
  -- The session as the first step saves it
  unfoldable pub reported : Session → Session
  reported s =
      let verified = record s {
        score = q.dto.score;
        duration = q.dto.duration;
        metadata = some (elim q.dto.metadata [ none ↦ "{}" | some m ↦ m ]);
        is_verified = true;
        nonce_used_at = some q.now;
      } in
      if q.is_suspicious
      then record verified {
        is_suspicious = true;
        suspicion_reason = some (reason_or_unknown q.suspicion_reason);
        metadata = some (q.with_suspicion q.dto.metadata);
      }
      else verified

  -- step 'verify-and-save-session'
  unfoldable pub verify_and_save : Context R → Context R × Option ReportError
  verify_and_save c =
      elim (find_session (λ s. s.id === q.dto.session_id && s.user_id === q.user_id)
        c.db.sessions) [
          | none ↦ (c, some session_not_found)
          | some s ↦ elim s.nonce_used_at [
            | some _ ↦ (c, some already_reported)
            | none ↦
                if not (calculate_session_hash q.hmac s.nonce q.dto === q.dto.signature)
                then (c, some bad_signature)
                else (
                  record c {
                    db = record c.db { sessions = save_session (reported s) c.db.sessions };
                    saved_session = some (reported s);
                  },
                  none,
                )
          ]
        ]

  abbrev pub cleared : Session → Session
  cleared s = record s {
    is_verified = false;
    nonce_used_at = none;
    score = 0;
    duration = 0;
    metadata = none;
  }

  unfoldable pub unverify : Context R → Context R × Option ReportError
  unverify c = elim c.saved_session [
    | none ↦ (c, none)
    | some s ↦ (
      record c {
        db = record c.db { sessions = save_session (cleared s) c.db.sessions };
        saved_session = some (cleared s);
      },
      none,
    )
  ]

  -- The loop over the batches of the step 'save-input-events'
  unfoldable pub save_batches : String → List (List Input) → Context R → Context R
  save_batches id [] c = c
  save_batches id (batch ∷ rest) c =
      let events = map (λ i. record { game_session_id = id; input = i }) batch in
      save_batches id rest (record c {
        db = record c.db { input_events = c.db.input_events ++ events };
        input_events = c.input_events ++ events;
      })

  abbrev pub saved_id : Option Session → String
  saved_id none = ""
  saved_id (some s) = s.id

  unfoldable pub save_input_events : Context R → Context R × Option ReportError
  save_input_events c =
      (save_batches (saved_id c.saved_session) (chunk_array q.dto.inputs 1000) c, none)

  unfoldable pub delete_input_events : Context R → Context R × Option ReportError
  delete_input_events c = elim c.saved_session [
    | none ↦ (c, none)
    | some s ↦ (
      record c {
        db = record c.db {
          input_events = filter (λ e. not (e.game_session_id === s.id)) c.db.input_events;
        };
      },
      none,
    )
  ]

  -- step 'update-user-stats'
  unfoldable pub update_user_stats : Context R → Context R × Option ReportError
  update_user_stats c = elim (find_row (has_id q.user_id) c.db.users) [
    | none ↦ (c, some user_not_found)
    | some u ↦
        let u' = record u {
          games_played = plus u.games_played (some (pos 1));
          total_score = plus u.total_score (some (pos q.dto.score));
          highest_score = raised u.highest_score (some (pos q.dto.score));
        } in
        (
          record c {
            db = record c.db { users = save_row u' c.db.users };
            previous_games_played = u.games_played;
            previous_total_score = u.total_score;
            previous_highest_score = u.highest_score;
          },
          none,
        )
  ]

  unfoldable pub restore_user_stats : Context R → Context R × Option ReportError
  restore_user_stats c = elim (find_row (has_id q.user_id) c.db.users) [
    | none ↦ (c, none)
    | some u ↦
        let u' = record u {
          games_played = c.previous_games_played;
          total_score = c.previous_total_score;
          highest_score = c.previous_highest_score;
        } in
        (record c { db = record c.db { users = save_row u' c.db.users } }, none)
  ]

  -- The work between the lock and the `finally` of the step 'update-leaderboard'
  unfoldable pub submit_under_lock :
      AcquiredLock → LockState R → Context R → Context R × Option ReportError
  submit_under_lock lock ls c =
      let (ls', (board, result)) = submit_score q.submission q.user_id q.dto.score c.board ls in
      let released = (release_lock R q.release_link (some lock) ls').0 in
      (
        record c { board = board; locks = released },
        elim result [ ok _ ↦ none | err e ↦ some (from_leaderboard e) ],
      )

  -- step 'update-leaderboard'
  unfoldable pub update_leaderboard : Context R → Context R × Option ReportError
  update_leaderboard c =
      let a = acquire_lock R q.config q.lock (report_lock_key q.user_id) lock_ttl 3 c.locks in
      elim a.lock [
        | none ↦ (record c { locks = a.state }, some not_locked)
        | some lock ↦ submit_under_lock lock a.state c
      ]

  -- The compensation submits the previous highest score; its errors are ignored
  unfoldable pub undo_leaderboard : Context R → Context R × Option ReportError
  undo_leaderboard c =
      let (ls, (board, _)) =
        submit_score q.undoing q.user_id (pos_part c.previous_highest_score) c.board c.locks in
      (record c { board = board; locks = ls }, none)

  -- step 'award-badges'
  unfoldable pub award_badges : Context R → Context R × Option ReportError
  award_badges c = elim c.saved_session [
    | none ↦ (c, some from_achievements)
    | some s ↦
        let (db, fine) = q.award q.user_id s c.db in
        (record c { db = db }, if fine then none else some from_achievements)
  ]

  unfoldable pub take_badges_back : Context R → Context R × Option ReportError
  take_badges_back c = (record c { db = q.take_back q.user_id c.saved_session c.db }, none)
