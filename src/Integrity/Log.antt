-- ===== src/Integrity/Log.antt =====
-- getAnomalies, resolveAnomaly and getIntegrityStats of
-- interfaces/game-sessions/session-integrity.service.ts.
pub mod Listing
use proof_stell_backend.Common.{
  ℕ, String, Bool, true, false, Option, none, some, List, [], ◌∷◌, if◌then◌else◌, ltb, leb, ◌===◌,
  ◌&&◌, not, length, filter,
}
use proof_stell_backend.Integrity.Metadata.{text_of}
use proof_stell_backend.Integrity.Report.{SessionAnomalyLog, IntegrityService}

-- if (wanted) anomalies = anomalies.filter((a) => field(a) === wanted)
abbrev pub filter_by :
    (SessionAnomalyLog → String) → Option String → List SessionAnomalyLog → List SessionAnomalyLog
filter_by field wanted l =
    if text_of wanted === "" then l else filter (λ a. field a === text_of wanted) l

-- A stable sort, the latest first: `a` goes before the first entry that is older than it is.
unfoldable pub insert_latest : SessionAnomalyLog → List SessionAnomalyLog → List SessionAnomalyLog
insert_latest a [] = a ∷ []
insert_latest a (b ∷ bs) =
    let rest = insert_latest a bs in
    if leb b.detected_at a.detected_at then a ∷ b ∷ bs else b ∷ rest

unfoldable pub sort_latest : List SessionAnomalyLog → List SessionAnomalyLog
sort_latest [] = []
sort_latest (a ∷ rest) = insert_latest a (sort_latest rest)

-- async getAnomalies(sessionId, userId)
unfoldable pub get_anomalies :
    IntegrityService → Option String → Option String → List SessionAnomalyLog
get_anomalies service session_id user_id = sort_latest (
    filter_by (λ a. a.user_id) user_id
      (filter_by (λ a. a.session_id) session_id service.anomaly_logs))

-- anomaly.resolved = true; anomaly.moderatorNotes = notes, on the entry with the id
unfoldable pub resolve_in : List SessionAnomalyLog → String → String → List SessionAnomalyLog
resolve_in [] id notes = []
resolve_in (a ∷ rest) id notes =
    let later = resolve_in rest id notes in
    if a.id === id
    then record a { resolved = true; moderator_notes = some notes } ∷ rest
    else a ∷ later

-- async resolveAnomaly(anomalyId, moderatorNotes)
unfoldable pub resolve_anomaly : IntegrityService → String → String → IntegrityService
resolve_anomaly service id notes = record service {
  anomaly_logs = resolve_in service.anomaly_logs id notes;
}

-- The numbers of getIntegrityStats that are not constant
pub record IntegrityStats : Type 0 where
  pub total_sessions : ℕ
  pub total_anomalies : ℕ
  pub unresolved_anomalies : ℕ

-- async getIntegrityStats()
unfoldable pub get_integrity_stats : IntegrityService → IntegrityStats
get_integrity_stats service = record {
  total_sessions = length service.session_hashes;
  total_anomalies = length service.anomaly_logs;
  unresolved_anomalies =
      length (filter (λ (a : SessionAnomalyLog). not a.resolved) service.anomaly_logs);
}
