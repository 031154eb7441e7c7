-- ===== src/Integrity.antt =====
-- interfaces/game-sessions/session-integrity.service.ts: the report on a finished game session.
-- This file has the data and the checks of score and time; the other checks are in Integrity/Actions
-- and Integrity/Metadata, the service's state is in Integrity/Report, and Integrity/Validation runs the
-- checks. Numbers of a session are integers, dates
-- are milliseconds since the epoch.
pub mod Bounds
pub mod Actions
pub mod Metadata
pub mod Report
pub mod Validation
pub mod Log
mod Tests
use proof_stell_backend.Common.{
  ℕ, String, Bool, true, false, Option, none, some, List, if◌then◌else◌, ltb, ◌&&◌,
}
use proof_stell_backend.Common.Int.{ℤ, pos, negsuc, ltb_ℤ}

-- interface GameAction; `content` is the JSON text of its `data`
pub record GameAction : Type 0 where
  pub type : String
  pub timestamp : ℕ
  pub sequence : ℤ
  pub content : String

-- interface SessionMetadata, the fields that are checked
pub record SessionMetadata : Type 0 where
  pub user_agent : Option String
  pub ip_address : Option String
  pub hints : Option ℤ
  pub attempts : Option ℤ

-- interface GameSession
pub record GameSession : Type 0 where
  pub id : String
  pub user_id : String
  pub puzzle_id : Option String
  pub module_id : Option String
  pub started_at : Option ℕ
  pub ended_at : Option ℕ
  pub duration : Option ℤ
  pub score : Option ℤ
  pub max_possible_score : Option ℤ
  pub actions : Option (List GameAction)
  pub metadata : Option SessionMetadata
  pub signature : Option String

-- interface SessionValidationRules, the fields that are used
pub record SessionValidationRules : Type 0 where
  pub min_duration : ℤ
  pub max_duration : ℤ
  pub max_score : ℤ
  pub min_score : ℤ
  pub max_actions_per_second : ℕ
  pub required_actions : List String
  pub suspicious_score : ℤ
  pub too_fast : ℤ

-- interface AnomalyDetectionConfig, without the log level
pub record AnomalyDetectionConfig : Type 0 where
  pub enable_score_validation : Bool
  pub enable_time_validation : Bool
  pub enable_action_validation : Bool
  pub enable_replay_detection : Bool
  pub enable_rate_limiting : Bool
  pub auto_reject : Bool

pub data CheckStatus : Type 0 where
  passed failed warning : CheckStatus

pub data Severity : Type 0 where
  low medium high critical : Severity

pub data CheckType : Type 0 where
  score_validation time_validation action_sequence replay_detection : CheckType
  rate_limiting signature_verification metadata_validation : CheckType

-- interface IntegrityCheckResult, without the text of the message and its details
pub record IntegrityCheckResult : Type 0 where
  pub check_type : CheckType
  pub status : CheckStatus
  pub severity : Severity

abbrev pub result : CheckType → CheckStatus → Severity → IntegrityCheckResult
result t s v = record { check_type = t; status = s; severity = v }

-- `x || y` on a number that may be missing: 0 is falsy, too
abbrev pub or_else : Option ℤ → ℤ → ℤ
or_else none y = y
or_else (some (negsuc n)) y = negsuc n
or_else (some (pos n)) y = if ltb 0 n then pos n else y

-- private validateScore
unfoldable pub validate_score : GameSession → SessionValidationRules → IntegrityCheckResult
validate_score session rules =
    let score = or_else session.score (pos 0) in
    if ltb_ℤ (or_else session.max_possible_score rules.max_score) score
    then result score_validation failed critical
    else if ltb_ℤ rules.suspicious_score score
    then result score_validation warning medium
    else if ltb_ℤ score rules.min_score
    then result score_validation failed low
    else result score_validation passed low

-- startTime && endTime && endTime < startTime
abbrev pub ends_early : Option ℕ → Option ℕ → Bool
ends_early none e = false
ends_early (some s) none = false
ends_early (some s) (some e) = ltb e s

-- private validateTiming
unfoldable pub validate_timing : GameSession → SessionValidationRules → IntegrityCheckResult
validate_timing session rules =
    let duration = or_else session.duration (pos 0) in
    if ltb_ℤ duration rules.min_duration
    then result time_validation failed high
    else if ltb_ℤ rules.max_duration duration
    then result time_validation failed medium
    else if ltb_ℤ duration rules.too_fast && ltb_ℤ (pos 0) (or_else session.score (pos 0))
    then result time_validation warning high
    else if ends_early session.started_at session.ended_at
    then result time_validation failed critical
    else result time_validation passed low
