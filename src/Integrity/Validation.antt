-- ===== src/Integrity/Validation.antt =====
-- validateSession and generateIntegrityReport of
-- interfaces/game-sessions/session-integrity.service.ts.
pub mod Verdict
pub mod Outcome
pub mod Repeated
pub mod Checks
pub mod Accepted
use proof_stell_backend.Common.{
  ℕ, ◌+◌, ◌-◌, ◌*◌, min, String, Bool, true, false, Option, none, some, List, [], ◌∷◌, ◌++◌,
  if◌then◌else◌, ltb, ◌===◌, ◌&&◌, ◌||◌, not, length, filter, count, map, some_of,
}
use proof_stell_backend.Integrity.{
  GameSession, SessionValidationRules, AnomalyDetectionConfig, IntegrityCheckResult, result, passed,
  failed, warning, low, medium, high, critical, Severity, signature_verification, validate_score,
  validate_timing,
}
use proof_stell_backend.Integrity.Actions.{validate_action_sequence, validate_rate_limit}
use proof_stell_backend.Integrity.Metadata.{validate_metadata, text_of}
use proof_stell_backend.Integrity.Report.{
  impossible_score, suspicious_time, invalid_sequence, replay_attack, rate_limit_exceeded,
  tampered_data, inconsistent_metadata, SessionAnomalyLog, IntegrityService, Crypto, Moment,
  Collected, is_status, is_critical, note_check, detect_replay, verify_signature, OverallStatus,
  valid, suspicious, invalid, Recommendation, accept, review, reject, SessionIntegrityReport,
}

abbrev pub is_high : Severity → Bool
is_high low = false
is_high medium = false
is_high high = true
is_high critical = false

-- Four subtractions, and then the maximum with 0
unfoldable pub confidence_of : ℕ → ℕ → ℕ → ℕ → ℕ
confidence_of fails warnings criticals highs =
    100 - (fails * 20 + warnings * 10 + criticals * 30 + highs * 15)

unfoldable pub risk_of : ℕ → ℕ → ℕ → ℕ → ℕ
risk_of fails warnings criticals highs =
    min 100 (fails * 25 + warnings * 10 + criticals * 40 + highs * 20)

unfoldable pub status_of : List IntegrityCheckResult → List SessionAnomalyLog → OverallStatus
status_of checks anomalies =
    let fails = filter (is_status failed) checks in
    let warnings = filter (is_status warning) checks in
    if ltb 0 (length (filter (λ (a : SessionAnomalyLog). is_critical a.severity) anomalies))
      || some_of (λ (c : IntegrityCheckResult). is_critical c.severity) fails
    then invalid
    else if ltb 0 (length anomalies) || (ltb 0 (length fails) || ltb 1 (length warnings))
    then suspicious
    else valid

unfoldable pub recommend : OverallStatus → Bool → ℕ → Recommendation
recommend invalid auto_reject risk = reject
recommend suspicious auto_reject risk = if auto_reject && ltb 70 risk then reject else review
recommend valid auto_reject risk =
    if auto_reject && ltb 70 risk then reject else if ltb 30 risk then review else accept

-- private generateIntegrityReport
unfoldable pub generate_integrity_report :
    String
    → List IntegrityCheckResult
    → List SessionAnomalyLog
    → AnomalyDetectionConfig
    → SessionIntegrityReport
generate_integrity_report id checks anomalies config =
    let fails = length (filter (is_status failed) checks) in
    let warnings = length (filter (is_status warning) checks) in
    let criticals = length (filter (λ (a : SessionAnomalyLog). is_critical a.severity) anomalies) in
    let highs = length (filter (λ (a : SessionAnomalyLog). is_high a.severity) anomalies) in
    let status = status_of checks anomalies in
    let risk = risk_of fails warnings criticals highs in
    record {
      session_id = id;
      overall_status = status;
      confidence_score = confidence_of fails warnings criticals highs;
      checks = checks;
      anomalies = anomalies;
      recommendation = recommend status config.auto_reject risk;
      risk_score = risk;
    }

-- if (config.enable…) { … }
abbrev pub step_if : Bool → (Collected → Collected) → Collected → Collected
step_if true f c = f c
step_if false f c = c

module _ (crypto : Crypto) (w : Moment) (session : GameSession) (rules : SessionValidationRules)
    (config : AnomalyDetectionConfig) where
  -- The steps 1 to 3
  unfoldable pub before_replay : IntegrityService → Collected
  before_replay service =
      let c0 : Collected = record { service = service; checks = []; anomalies = [] } in
      let c1 =
        step_if config.enable_score_validation
          (note_check w session impossible_score (validate_score session rules)) c0 in
      let c2 =
        step_if config.enable_time_validation
          (note_check w session suspicious_time (validate_timing session rules)) c1 in
      step_if config.enable_action_validation
        (note_check w session invalid_sequence (validate_action_sequence w.now session rules)) c2

  -- The step 4, which may throw
  unfoldable pub with_replay : Collected → Option Collected
  with_replay c =
      if config.enable_replay_detection
      then elim (detect_replay crypto session c.service) [
        | none ↦ none
        | some (service, check) ↦
            some (note_check w session replay_attack check (record c { service = service }))
      ]
      else some c

  -- The steps 5 to 7
  unfoldable pub after_replay : Collected → Collected
  after_replay c =
      let c5 =
        step_if config.enable_rate_limiting
          (note_check w session rate_limit_exceeded (validate_rate_limit session rules)) c in
      let c6 =
        step_if (not (text_of session.signature === ""))
          (note_check w session tampered_data (verify_signature crypto session)) c5 in
      note_check w session inconsistent_metadata (validate_metadata session) c6

  -- What the `catch` returns
  unfoldable pub error_report : SessionIntegrityReport
  error_report = record {
    session_id = session.id;
    overall_status = invalid;
    confidence_score = 0;
    checks = result signature_verification failed critical ∷ [];
    anomalies = [];
    recommendation = reject;
    risk_score = 100;
  }

  -- async validateSession(session, rules, config)
  unfoldable pub validate_session : IntegrityService → IntegrityService × SessionIntegrityReport
  validate_session service =
      let c = before_replay service in
      elim (with_replay c) [
        | none ↦ (c.service, error_report)
        | some c4 ↦
            let c7 = after_replay c4 in
            (c7.service, generate_integrity_report session.id c7.checks c7.anomalies config)
      ]
