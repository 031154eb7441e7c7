-- ===== src/Integrity/Tests.antt =====
-- A scored session of two actions, validated with a hash that is the user's id.
use proof_stell_backend.Common.{
  ℕ, ◌≤◌, ◌≡◌, ◌↔◌, refl, String, Bool, true, false, none, some, List, [], ◌∷◌, length, filter,
}
use proof_stell_backend.Common.Int.{pos}
use proof_stell_backend.Integrity.{
  GameAction, GameSession, SessionMetadata, SessionValidationRules, AnomalyDetectionConfig,
  critical, passed, warning,
}
use proof_stell_backend.Integrity.Actions.{actions_of, validate_action_sequence}
use proof_stell_backend.Integrity.Actions.Sound.{IsComplete, validate_action_sequence-passed_iff}
use proof_stell_backend.Integrity.Report.{
  SessionAnomalyLog, IntegrityService, Crypto, Moment, critical_data, is_status, tampered_data,
  accept, reject,
}
use proof_stell_backend.Integrity.Validation.{validate_session}
use proof_stell_backend.Integrity.Validation.Verdict.{failures, IsLogged}
use proof_stell_backend.Integrity.Validation.Outcome.{
  validate_session-accept_iff, validate_session-IsLogged,
}
use proof_stell_backend.Integrity.Validation.Repeated.{
  Validation, validate_all, validate_session-repeated,
}

abbrev action : String → ℕ → ℕ → GameAction
action type time n = record { type = type; timestamp = time; sequence = pos n; content = "{}" }

abbrev metadata : SessionMetadata
metadata = record {
  user_agent = some "Firefox";
  ip_address = some "10.0.0.7";
  hints = some (pos 2);
  attempts = some (pos 1);
}

abbrev session : GameSession
session = record {
  id = "s1";
  user_id = "ann";
  puzzle_id = some "p1";
  module_id = none;
  started_at = some 1000;
  ended_at = some 61000;
  duration = some (pos 60000);
  score = some (pos 500);
  max_possible_score = none;
  actions = some (action "start" 1000 1 ∷ action "complete" 61000 2 ∷ []);
  metadata = some metadata;
  signature = none;
}

-- The values of `defaultRules` and `defaultConfig`
abbrev rules : SessionValidationRules
rules = record {
  min_duration = pos 5000;
  max_duration = pos 3600000;
  max_score = pos 1000;
  min_score = pos 0;
  max_actions_per_second = 10;
  required_actions = "start" ∷ "complete" ∷ [];
  suspicious_score = pos 950;
  too_fast = pos 10000;
}

abbrev config : AnomalyDetectionConfig
config = record {
  enable_score_validation = true;
  enable_time_validation = true;
  enable_action_validation = true;
  enable_replay_detection = true;
  enable_rate_limiting = true;
  auto_reject = false;
}

abbrev crypto : Crypto
crypto = record { sha256 = λ d. some d.user_id; hmac = λ d. some d.id }

abbrev moment : Moment
moment = record { now = 70000; anomaly_id = λ t. "a1" }

abbrev anomaly : String → ℕ → SessionAnomalyLog
anomaly id time = record {
  id = id;
  session_id = "s0";
  user_id = "bob";
  anomaly_type = tampered_data;
  severity = critical;
  detected_at = time;
  resolved = false;
  moderator_notes = none;
}

abbrev service : IntegrityService
service = record {
  anomaly_logs = anomaly "x1" 100 ∷ anomaly "x2" 200 ∷ [];
  session_hashes = "bob" ∷ [];
}

validate_session-accept_iff_example :
    let r = (validate_session crypto moment session rules config service).1 in
    (r.recommendation ≡ accept)
    ↔ ((length (failures r.checks) ≡ 0) × (length (filter (is_status warning) r.checks) ≤ 1))
validate_session-accept_iff_example =
    validate_session-accept_iff crypto moment session rules config service

validate_session-IsLogged_example :
    let r = (validate_session crypto moment session rules config service).1 in
    IsLogged r.checks r.anomalies
unfolding critical_data
validate_session-IsLogged_example =
    validate_session-IsLogged crypto moment session rules config service "ann" refl

abbrev other : GameSession
other = record session { id = "s2"; user_id = "bob" }

abbrev between : List Validation
between = (moment, other, rules, config) ∷ []

validate_session-repeated_example :
    (validate_session crypto moment session rules config (
      validate_all crypto
        (validate_session crypto moment session rules config service).0
        between)).1.recommendation
    ≡ reject
unfolding critical_data
validate_session-repeated_example =
    validate_session-repeated crypto service moment moment session session rules rules config config
      "ann" between refl refl refl refl

validate_action_sequence-passed_iff_example :
    ((validate_action_sequence 70000 session rules).status ≡ passed)
    ↔ IsComplete 70000 rules.required_actions (actions_of session)
validate_action_sequence-passed_iff_example =
    validate_action_sequence-passed_iff 70000 session rules

abbrev unresolved : SessionAnomalyLog → Bool
unresolved a = elim a.resolved [ true ↦ false | false ↦ true ]
