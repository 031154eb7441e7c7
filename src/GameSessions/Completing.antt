-- ===== src/GameSessions/Completing.antt =====
-- endSession of interfaces/game-sessions/game-session.service.ts.
use proof_stell_backend.Common.{ℕ, String, Option, none, some, if◌then◌else◌, ◌||◌, not}
use proof_stell_backend.Common.Int.{ℤ}
use proof_stell_backend.Common.Dict.{lookup}
use proof_stell_backend.Common.Result.{Result, ok, err}
use proof_stell_backend.Integrity.{
  GameAction, SessionMetadata, SessionValidationRules, AnomalyDetectionConfig,
}
use proof_stell_backend.Integrity.Actions.{actions_of}
use proof_stell_backend.Integrity.Report.{
  Crypto, Moment, signature_data, SessionIntegrityReport, Recommendation, accept, review, reject,
}
use proof_stell_backend.Integrity.Validation.{validate_session}
use proof_stell_backend.GameSessions.{
  SessionStatus, completed, invalid, under_review, Stored, GameSessionService, SessionError,
  not_found, bad_status, not_printable, Method, put, record_action,
}
use proof_stell_backend.GameSessions.Operations.{
  own_action, no_metadata, current, is_active, is_paused, since,
}

-- Partial<GameSession>: the fields of it that are read
pub record FinalData : Type 0 where
  pub score : Option ℤ
  pub metadata : Option SessionMetadata
  pub pause_count : Option ℕ

-- a ?? b, and a field that a spread overrides
abbrev pub or_old {ℓ} : {A : Type ℓ} → Option A → Option A → Option A
or_old none old = old
or_old (some a) old = some a

abbrev pub metadata_or_none : Option SessionMetadata → SessionMetadata
metadata_or_none none = no_metadata
metadata_or_none (some m) = m

-- { ...session.metadata, ...finalData.metadata }
unfoldable pub merge_metadata : SessionMetadata → SessionMetadata → SessionMetadata
merge_metadata old new = record {
  user_agent = or_old new.user_agent old.user_agent;
  ip_address = or_old new.ip_address old.ip_address;
  hints = or_old new.hints old.hints;
  attempts = or_old new.attempts old.attempts;
}

-- What changes before the action is recorded
unfoldable pub complete : ℕ → FinalData → Stored → Stored
complete now final x = record x {
  session = record x.session {
    ended_at = some now;
    duration = some (since x.session.started_at now);
    score = or_old final.score x.session.score;
    metadata = elim final.metadata [
      | none ↦ x.session.metadata
      | some m ↦ some (merge_metadata (metadata_or_none x.session.metadata) m)
    ];
  };
  status = completed;
  updated_at = now;
  pause_count = elim final.metadata [
    | none ↦ x.pause_count
    | some _ ↦ or_old final.pause_count x.pause_count
  ];
}

unfoldable pub status_after : Recommendation → SessionStatus → SessionStatus
status_after reject s = invalid
status_after review s = under_review
status_after accept s = s

module _ (crypto : Crypto) (w : Moment) (rules : SessionValidationRules)
    (config : AnomalyDetectionConfig) where
  -- From the new signature on
  unfoldable pub judge : String → Stored → Method SessionIntegrityReport
  judge id y s = elim (crypto.hmac (signature_data y.session)) [
    | none ↦ (s, err not_printable)
    | some signature ↦
        let signed = record y.session { signature = some signature } in
        let (integrity, report) = validate_session crypto w signed rules config s.integrity in
        let z = record y {
          session = signed;
          status = status_after report.recommendation y.status;
          integrity_checks = report.checks;
        } in
        (put id z (record s { integrity = integrity }), ok report)
  ]

  -- What follows the recorded completion
  unfoldable pub judge_recorded :
      String
      → Stored
      → GameSessionService × Result SessionError GameAction
      → GameSessionService × Result SessionError SessionIntegrityReport
  judge_recorded id x (s, err e) = (s, err e)
  judge_recorded id x (s, ok _) = judge id (current id x s) s

  -- async endSession(sessionId, finalData)
  unfoldable pub end_session : String → String → FinalData → Method SessionIntegrityReport
  end_session content id final s = elim (lookup id s.sessions) [
    | none ↦ (s, err (not_found id))
    | some x ↦
        if not (is_active x.status || is_paused x.status)
        then (s, err (bad_status x.status))
        else let done = complete w.now final x in
          let a = own_action "complete" w.now content (actions_of x.session) in
          judge_recorded id done (record_action w.now id a (put id done s))
  ]
