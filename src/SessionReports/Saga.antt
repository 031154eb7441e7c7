-- ===== src/SessionReports/Saga.antt =====
-- reportSession of game-session/game-session.service.ts: its saga, the transaction around it and the
-- stored results.
use Prim.Native.String.{◌++◌ as append_text}
use proof_stell_backend.Common.{String, Option, none, some, List, []}
use proof_stell_backend.Common.Int.{pos}
use proof_stell_backend.Common.Result.{Result, ok, err}
use proof_stell_backend.Redis.{Redis}
use proof_stell_backend.Lock.{LockState}
use proof_stell_backend.Idempotency.{StoredResult, generate_key, check, store}
use proof_stell_backend.Saga.{SagaBuilder, create, step, execute}
use proof_stell_backend.Leaderboard.{Board, result_ttl}
use proof_stell_backend.SessionReports.{Session, Database}
use proof_stell_backend.SessionReports.Steps.{
  ReportError, Context, Report, verify_and_save, unverify, save_input_events, delete_input_events,
  update_user_stats, restore_user_stats, update_leaderboard, undo_leaderboard, award_badges,
  take_badges_back,
}

module _ {R : Redis} (q : Report R) where
  -- SagaBuilder.create().step(…)…
  unfoldable pub report_saga : SagaBuilder (Context R) ReportError
  report_saga = step "award-badges" (award_badges q) (take_badges_back q) (
      step "update-leaderboard" (update_leaderboard q) (undo_leaderboard q) (
        step "update-user-stats" (update_user_stats q) (restore_user_stats q) (
          step "save-input-events" (save_input_events q) (delete_input_events q)
            (step "verify-and-save-session" (verify_and_save q) (unverify q) create))))

-- The database, the leaderboard, the locks, and the stored results of reports
pub record ReportState (R : Redis) : Type 0 where
  pub db : Database
  pub board : Board
  pub locks : LockState R
  pub results : List (String × StoredResult Session)

module _ {R : Redis} (q : Report R) where
  unfoldable pub report_key : String
  report_key =
      generate_key "report-session" (append_text q.user_id (append_text ":" q.dto.session_id))

  unfoldable pub new_context : ReportState R → Context R
  new_context s = record {
    db = s.db;
    board = s.board;
    locks = s.locks;
    saved_session = none;
    input_events = [];
    previous_games_played = pos 0;
    previous_total_score = pos 0;
    previous_highest_score = pos 0;
  }

  -- Commit, or rollback of the transaction; the leaderboard has a transaction of its own
  unfoldable pub close :
      ReportState R
      → Context R × Option ReportError
      → ReportState R × Result ReportError (Option Session)
  close s (c, some e) = (record s { board = c.board; locks = c.locks }, err e)
  close s (c, none) = (
    record {
      db = c.db;
      board = c.board;
      locks = c.locks;
      results = elim c.saved_session [
        | none ↦ s.results
        | some session ↦ store q.now result_ttl report_key session s.results
      ];
    },
    ok c.saved_session,
  )

  -- async reportSession(userId, reportSessionDto, isSuspicious, suspicionReason)
  unfoldable pub report_session :
      ReportState R → ReportState R × Result ReportError (Option Session)
  report_session s =
      let (results, cached) = check q.now report_key s.results in
      let s' = record s { results = results } in
      elim cached [
        | some session ↦ (s', ok (some session))
        | none ↦ close s' (execute (report_saga q) (new_context s'))
      ]
