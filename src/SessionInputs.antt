-- ===== src/SessionInputs.antt =====
-- common/services/session-integrity.service.ts and common/guards/session-integrity.guard.ts: what a
-- reported game session must satisfy. Numbers in a report are whole milliseconds.
pub mod Timing
pub mod Sequence
pub mod Replay
pub mod Guard
mod Tests
use proof_stell_backend.Common.{ℕ, ◌*◌, String, Bool, true, false, Option, List}
use proof_stell_backend.Common.Int.{ℤ}

-- A field `timestamp` as it arrives in JSON: missing or null, not a number, or a number.
pub data Timestamp : Type 0 where
  missing : Timestamp
  malformed : Timestamp
  at : ℤ → Timestamp

pub record SessionInput : Type 0 where
  pub timestamp : Timestamp
  pub sequence : Option ℤ
  pub client_id : Option String

-- interface SessionData
pub record SessionData : Type 0 where
  pub duration : ℤ
  pub inputs : Option (List SessionInput)
  pub session_id : Option String
  pub signature : Option String

-- The messages of ValidationResult, one constructor for each.
pub data Reason : Type 0 where
  below_minimum above_maximum : Reason
  missing_timestamp invalid_timestamp_type negative_timestamp : ℕ → Reason
  duration_mismatch : ℕ → Reason
  future_timestamps old_timestamps : ℕ → Reason
  same_timestamp : ℕ → Reason
  before_previous : ℕ → Reason
  sequence_not_greater : ℕ → Reason
  too_many_in_second too_many_in_100ms : ℕ → Reason
  too_many_clients : ℕ → Reason

-- interface ValidationResult
pub data ValidationResult : Type 0 where
  valid : ValidationResult
  invalid : Reason → ValidationResult

abbrev pub max_inputs_per_second : ℕ
max_inputs_per_second = 50

abbrev pub max_inputs_per_100ms : ℕ
max_inputs_per_100ms = 10

abbrev pub min_duration_ms : ℕ
min_duration_ms = 100

abbrev pub max_duration_ms : ℕ
max_duration_ms = 24 * 60 * 60 * 1000

abbrev pub one_week_ms : ℕ
one_week_ms = 7 * 24 * 60 * 60 * 1000
