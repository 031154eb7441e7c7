-- ===== src/Integrity/Report.antt =====
-- The state of interfaces/game-sessions/session-integrity.service.ts, its anomaly log, detectReplay
-- and verifySignature. The clock is read once for a validation, and the random part of the ids of
-- anomalies comes from outside.
use proof_stell_backend.Common.{
  ℕ, String, Bool, true, false, Option, none, some, List, [], ◌∷◌, ◌++◌, if◌then◌else◌, ◌===◌, map,
}
use proof_stell_backend.Common.StringSet.{has, add}
use proof_stell_backend.Common.Int.{ℤ}
use proof_stell_backend.Integrity.{
  GameSession, IntegrityCheckResult, CheckStatus, Severity, result, passed, failed, warning, low,
  medium, high, critical, replay_detection, signature_verification,
}
use proof_stell_backend.Integrity.Metadata.{text_of}

pub data AnomalyType : Type 0 where
  impossible_score suspicious_time invalid_sequence replay_attack : AnomalyType
  rate_limit_exceeded tampered_data inconsistent_metadata : AnomalyType

-- interface SessionAnomalyLog, without the description and the copied numbers
pub record SessionAnomalyLog : Type 0 where
  pub id : String
  pub session_id : String
  pub user_id : String
  pub anomaly_type : AnomalyType
  pub severity : Severity
  pub detected_at : ℕ
  pub resolved : Bool
  pub moderator_notes : Option String

-- SessionIntegrityService; the anomalies in the order in which the map has them
pub record IntegrityService : Type 0 where
  pub anomaly_logs : List SessionAnomalyLog
  pub session_hashes : List String

-- The part of a session that createSessionHash prints
pub record CriticalData : Type 0 where
  pub user_id : String
  pub puzzle_id : Option String
  pub module_id : Option String
  pub score : Option ℤ
  pub duration : Option ℤ
  pub actions : Option (List (String × ℤ × String))

unfoldable pub critical_data : GameSession → CriticalData
critical_data s = record {
  user_id = s.user_id;
  puzzle_id = s.puzzle_id;
  module_id = s.module_id;
  score = s.score;
  duration = s.duration;
  actions = elim s.actions [
    | none ↦ none
    | some l ↦ some (map (λ a. (a.type, a.sequence, a.content)) l)
  ];
}

-- The part of a session that generateSessionSignature prints
pub record SignatureData : Type 0 where
  pub id : String
  pub user_id : String
  pub started_at : Option ℕ
  pub score : Option ℤ
  pub duration : Option ℤ

unfoldable pub signature_data : GameSession → SignatureData
signature_data s = record {
  id = s.id;
  user_id = s.user_id;
  started_at = s.started_at;
  score = s.score;
  duration = s.duration;
}

-- The crypto library on the printed data; printing may throw
pub record Crypto : Type 0 where
  pub sha256 : CriticalData → Option String
  pub hmac : SignatureData → Option String

-- What the outside gives to one validation: the time and the ids of anomalies
pub record Moment : Type 0 where
  pub now : ℕ
  pub anomaly_id : AnomalyType → String

-- Map.set(anomaly.id, anomaly)
unfoldable pub store_anomaly : List SessionAnomalyLog → SessionAnomalyLog → List SessionAnomalyLog
store_anomaly [] a = a ∷ []
store_anomaly (b ∷ bs) a =
    let rest = store_anomaly bs a in if b.id === a.id then a ∷ bs else b ∷ rest

-- What the steps of a validation have collected so far, with the service
pub record Collected : Type 0 where
  pub service : IntegrityService
  pub checks : List IntegrityCheckResult
  pub anomalies : List SessionAnomalyLog

-- private createAnomaly
unfoldable pub create_anomaly :
    Moment
    → GameSession
    → AnomalyType
    → Severity
    → IntegrityService
    → IntegrityService × SessionAnomalyLog
create_anomaly w session type severity service =
    let anomaly : SessionAnomalyLog = record {
      id = w.anomaly_id type;
      session_id = session.id;
      user_id = session.user_id;
      anomaly_type = type;
      severity = severity;
      detected_at = w.now;
      resolved = false;
      moderator_notes = none;
    } in
    (record service { anomaly_logs = store_anomaly service.anomaly_logs anomaly }, anomaly)

abbrev pub is_status : CheckStatus → IntegrityCheckResult → Bool
is_status passed c = elim c.status [ passed ↦ true | failed ↦ false | warning ↦ false ]
is_status failed c = elim c.status [ passed ↦ false | failed ↦ true | warning ↦ false ]
is_status warning c = elim c.status [ passed ↦ false | failed ↦ false | warning ↦ true ]

abbrev pub is_critical : Severity → Bool
is_critical critical = true
is_critical low = false
is_critical medium = false
is_critical high = false

-- checks.push(check); if (check.status === 'failed') anomalies.push(await createAnomaly(…))
unfoldable pub note_check :
    Moment → GameSession → AnomalyType → IntegrityCheckResult → Collected → Collected
note_check w session type check c =
    let (service, anomaly) = create_anomaly w session type check.severity c.service in
    if is_status failed check
    then record {
      service = service;
      checks = c.checks ++ check ∷ [];
      anomalies = c.anomalies ++ anomaly ∷ [];
    }
    else record c { checks = c.checks ++ check ∷ [] }

-- private detectReplay: the service and the check, or nothing if the hash throws
unfoldable pub detect_replay :
    Crypto → GameSession → IntegrityService → Option (IntegrityService × IntegrityCheckResult)
detect_replay crypto session service = elim (crypto.sha256 (critical_data session)) [
  | none ↦ none
  | some h ↦
      if has service.session_hashes h
      then some (service, result replay_detection failed critical)
      else some (
        record service { session_hashes = add service.session_hashes h },
        result replay_detection passed low,
      )
]

-- private verifySignature
unfoldable pub verify_signature : Crypto → GameSession → IntegrityCheckResult
verify_signature crypto session =
    if text_of session.signature === ""
    then result signature_verification warning low
    else elim (crypto.hmac (signature_data session)) [
      | none ↦ result signature_verification failed high
      | some expected ↦
          if text_of session.signature === expected
          then result signature_verification passed low
          else result signature_verification failed critical
    ]

pub data OverallStatus : Type 0 where
  valid suspicious invalid : OverallStatus

pub data Recommendation : Type 0 where
  accept review reject : Recommendation

-- interface SessionIntegrityReport
pub record SessionIntegrityReport : Type 0 where
  pub session_id : String
  pub overall_status : OverallStatus
  pub confidence_score : ℕ
  pub checks : List IntegrityCheckResult
  pub anomalies : List SessionAnomalyLog
  pub recommendation : Recommendation
  pub risk_score : ℕ
