-- ===== src/GameSessions/Calls.antt =====
-- Calls of the methods of interfaces/game-sessions/game-session.service.ts, in any order.
use proof_stell_backend.Common.{ℕ, String, List, [], ◌∷◌}
use proof_stell_backend.Integrity.{
  GameAction, GameSession, SessionValidationRules, AnomalyDetectionConfig,
}
use proof_stell_backend.Integrity.Report.{Crypto, Moment}
use proof_stell_backend.Integrity.Validation.{validate_session}
use proof_stell_backend.Integrity.Log.{resolve_anomaly}
use proof_stell_backend.GameSessions.{GameSessionService, record_action}
use proof_stell_backend.GameSessions.Operations.{
  Start, start_session, pause_session, resume_session, abandon_session,
}
use proof_stell_backend.GameSessions.Completing.{FinalData, end_session}

-- A call of a method with its arguments
pub data Call : Type 0 where
  start : ℕ → String → Start → Call
  record_one : ℕ → String → GameAction → Call
  pause : ℕ → String → Call
  resume : ℕ → String → Call
  abandon : ℕ → String → String → Call
  finish : Moment → String → String → FinalData → Call
  validate : Moment → GameSession → Call
  resolve : String → String → Call

module _ (crypto : Crypto) (rules : SessionValidationRules) (config : AnomalyDetectionConfig) where
  -- The service after a call, whether it returned or threw
  unfoldable pub run_call : Call → GameSessionService → GameSessionService
  run_call (start now content q) s = (start_session crypto now content q s).0
  run_call (record_one now id a) s = (record_action now id a s).0
  run_call (pause now id) s = (pause_session now id s).0
  run_call (resume now id) s = (resume_session now id s).0
  run_call (abandon now content id) s = (abandon_session now content id s).0
  run_call (finish w content id final) s = (end_session crypto w rules config content id final s).0
  run_call (validate w session) s = record s {
    integrity = (validate_session crypto w session rules config s.integrity).0;
  }
  run_call (resolve id notes) s = record s { integrity = resolve_anomaly s.integrity id notes }

  unfoldable pub run_calls : List Call → GameSessionService → GameSessionService
  run_calls [] s = s
  run_calls (c ∷ rest) s = run_calls rest (run_call c s)
