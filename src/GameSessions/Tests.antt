-- ===== src/GameSessions/Tests.antt =====
-- A session of one user, which is paused, ended and abandoned.
use proof_stell_backend.Common.{ℕ, ◌≡◌, refl, String, true, false, none, some, List, [], ◌∷◌}
use proof_stell_backend.Common.Int.{pos}
use proof_stell_backend.Common.Dict.{lookup, insert}
use proof_stell_backend.Common.Result.{ok, is_ok}
use proof_stell_backend.Common.StringSet.{has, add}
use proof_stell_backend.Integrity.{
  GameAction, SessionValidationRules, AnomalyDetectionConfig, IntegrityCheckResult, CheckType,
  passed, low, validate_score, validate_timing,
}
use proof_stell_backend.Integrity.Actions.{
  validate_action_sequence, validate_rate_limit, find_type, missing_actions, same_number, distinct,
  exceeds_rate, has_burst,
}
use proof_stell_backend.Integrity.Metadata.{
  is_valid_ip, validate_metadata, metadata_issues, match_parts, is_suspicious_user_agent, occurs_in,
  begins_with, codes,
}
use proof_stell_backend.Integrity.Report
use proof_stell_backend.Integrity.Report.{
  note_check, create_anomaly, store_anomaly, detect_replay, IntegrityService, Crypto, Moment,
  critical_data, signature_data, verify_signature, SessionIntegrityReport, accept,
}
use proof_stell_backend.Integrity.Validation.{
  validate_session, before_replay, with_replay, after_replay, generate_integrity_report, status_of,
  recommend, risk_of, confidence_of,
}
use proof_stell_backend.GameSessions.{
  Stored, GameSessionService, SessionStatus, active, completed, accepts, validate_action, put,
  push_action, record_action, last_sequence, is_valid_action_transition,
}
use proof_stell_backend.GameSessions.Operations.{
  Start, own_action, start_session, store_session, store_recorded, new_session, new_stored,
  pause_session, after_recording, change_and_record,
}
use proof_stell_backend.GameSessions.Queries.{get_session, get_user_sessions}
use proof_stell_backend.GameSessions.Calls.{Call, run_calls}
use proof_stell_backend.GameSessions.Starting.{new_service, start_session-never}
use proof_stell_backend.GameSessions.Completing.{
  FinalData, complete, status_after, judge, judge_recorded, end_session, merge_metadata,
}

abbrev rules : SessionValidationRules
rules = record {
  min_duration = pos 5000;
  max_duration = pos 3600000;
  max_score = pos 1000;
  min_score = pos 0;
  max_actions_per_second = 10;
  required_actions = "start" ∷ "complete" ∷ [];
  suspicious_score = pos 950;
  too_fast = pos 10000;
}

abbrev config : AnomalyDetectionConfig
config = record {
  enable_score_validation = true;
  enable_time_validation = true;
  enable_action_validation = true;
  enable_replay_detection = true;
  enable_rate_limiting = true;
  auto_reject = false;
}

abbrev crypto : Crypto
crypto = record { sha256 = λ d. some d.user_id; hmac = λ d. some d.id }

abbrev at : ℕ → Moment
at now = record { now = now; anomaly_id = λ t. "a1" }

abbrev action : String → ℕ → ℕ → GameAction
action type time n = record { type = type; timestamp = time; sequence = pos n; content = "{}" }

abbrev stored : SessionStatus → List GameAction → Stored
stored status actions = record {
  session = record {
    id = "s1";
    user_id = "ann";
    puzzle_id = some "p1";
    module_id = none;
    started_at = some 1000;
    ended_at = none;
    duration = none;
    score = none;
    max_possible_score = none;
    actions = some actions;
    metadata = some (record {
      user_agent = some "Firefox";
      ip_address = some "10.0.0.7";
      hints = some (pos 2);
      attempts = some (pos 1);
    });
    signature = some "s1";
  };
  session_type = "puzzle";
  status = status;
  created_at = 1000;
  updated_at = 1000;
  pause_count = none;
  integrity_checks = [];
}

abbrev service : Stored → GameSessionService
service x = record {
  sessions = ("s1", x) ∷ [];
  user_sessions = ("ann", "s1" ∷ []) ∷ [];
  integrity = record { anomaly_logs = []; session_hashes = [] };
}

abbrev started : Stored
started = stored active (action "start" 1000 1 ∷ [])

abbrev final : FinalData
final = record { score = some (pos 500); metadata = none; pause_count = none }

runs : Unit {0}
unfolding lookup insert has add validate_score validate_timing validate_action_sequence
    validate_rate_limit find_type missing_actions same_number distinct exceeds_rate has_burst
    is_valid_ip validate_metadata metadata_issues match_parts is_suspicious_user_agent occurs_in
    begins_with codes note_check create_anomaly store_anomaly detect_replay critical_data
    signature_data verify_signature validate_session before_replay with_replay after_replay
    generate_integrity_report status_of recommend risk_of confidence_of accepts validate_action put
    push_action record_action last_sequence is_valid_action_transition own_action start_session
    store_session store_recorded new_session new_stored pause_session after_recording
    change_and_record complete status_after judge judge_recorded end_session merge_metadata
runs = tt

abbrev fine : CheckType → IntegrityCheckResult
fine t = record { check_type = t; status = passed; severity = low }

abbrev report : SessionIntegrityReport
report = record {
  session_id = "s1";
  overall_status = Report.valid;
  confidence_score = 100;
  checks =
      fine CheckType.score_validation
      ∷ fine CheckType.time_validation
      ∷ fine CheckType.action_sequence
      ∷ fine CheckType.replay_detection
      ∷ fine CheckType.rate_limiting
      ∷ fine CheckType.signature_verification
      ∷ fine CheckType.metadata_validation
      ∷ [];
  anomalies = [];
  recommendation = accept;
  risk_score = 0;
}

abbrev judged : Stored
judged = record started {
  session = record started.session {
    ended_at = some 61000;
    duration = some (pos 60000);
    score = some (pos 500);
    actions = some (action "start" 1000 1 ∷ action "complete" 61000 2 ∷ []);
  };
  status = completed;
  updated_at = 61000;
  integrity_checks = report.checks;
}

ended : end_session crypto (at 61000) rules config "{}" "s1" final (service started) ≡ (
  record (service judged) { integrity = record { anomaly_logs = []; session_hashes = "ann" ∷ [] } },
  ok report,
)
unfolding runs
ended = refl

abbrev asked : Start
asked = record {
  session_id = "s1";
  user_id = "ann";
  session_type = "puzzle";
  puzzle_id = some "p1";
  module_id = none;
}

start_session-never_example :
    (let s =
        run_calls crypto rules config
          (Call.start 1000 "{}" asked ∷ [])
          (new_service (record { anomaly_logs = []; session_hashes = [] })) in
      (get_session s "s1" ≡ none)
      × (get_user_sessions s "ann" 50 ≡ [])
      × (is_ok (start_session crypto 2000 "{}" asked s).1 ≡ false))
start_session-never_example =
    start_session-never crypto rules config (record { anomaly_logs = []; session_hashes = [] })
      (Call.start 1000 "{}" asked ∷ []) "s1" "ann" 50 2000 "{}" asked
