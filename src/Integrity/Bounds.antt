-- ===== src/Integrity/Bounds.antt =====
-- Which sessions pass the checks of score and time.
use proof_stell_backend.Common.{◌≡◌, ◌≢◌, ◌⊎◌, ◌↔◌, true, false, arith, ◌&&◌}
use proof_stell_backend.Common.Int.{pos, ◌≤ℤ◌, ltb_ℤ}
use proof_stell_backend.Integrity.{
  GameSession, SessionValidationRules, passed, failed, or_else, ends_early, validate_score,
  validate_timing,
}

-- The score check passes exactly if the score is at least the minimum and at most the maximum and the
-- suspicious score; a missing score counts as 0, and a maximum that is missing or 0 as the default.
pub validate_score-passed_iff :
    (session : GameSession) (rules : SessionValidationRules)
    → let score = or_else session.score (pos 0) in
      ((validate_score session rules).status ≡ passed) ↔ (
        (rules.min_score ≤ℤ score)
        × (score ≤ℤ or_else session.max_possible_score rules.max_score)
        × (score ≤ℤ rules.suspicious_score))
unfolding validate_score
validate_score-passed_iff session rules = (
  λ e. (ground (arith, e), ground (arith, e), ground (arith, e)),
  λ h. ground (arith, h.0, h.1, h.2),
)

-- The time check fails exactly if the duration is below the minimum or above the maximum, or if the
-- session ends before it starts and the check has not already warned of a scored and too fast run.
pub validate_timing-failed_iff :
    (session : GameSession) (rules : SessionValidationRules)
    → let duration = or_else session.duration (pos 0) in
      let hurried =
        ltb_ℤ duration rules.too_fast && ltb_ℤ (pos 0) (or_else session.score (pos 0)) in
      ((validate_timing session rules).status ≢ failed) ↔ (
        (rules.min_duration ≤ℤ duration)
        × (duration ≤ℤ rules.max_duration)
        × ((hurried ≡ true) ⊎ (ends_early session.started_at session.ended_at ≡ false)))
unfolding validate_timing
validate_timing-failed_iff session rules = (
  λ e. (ground (arith, e), ground (arith, e), ground (arith, e)),
  λ h f. ground (arith, h.0, h.1, h.2, f),
)
