-- ===== src/Integrity/Validation/Accepted.antt =====
-- What is certain of a session whose report recommends to accept it.
use proof_stell_backend.Common.{String, ℕ, ◌≡◌, ◌⊎◌, false, some, length}
use proof_stell_backend.Common.Int.{pos, ◌≤ℤ◌}
use proof_stell_backend.Common.StringSet.{has}
use proof_stell_backend.Integrity.{GameSession, SessionValidationRules, or_else}
use proof_stell_backend.Integrity.Actions.{actions_of}
use proof_stell_backend.Integrity.Actions.Sound.{IsComplete}
use proof_stell_backend.Integrity.Actions.Rate.{IsPaced}
use proof_stell_backend.Integrity.Metadata.{metadata_of, metadata_issues, text_of}
use proof_stell_backend.Integrity.Report.{IntegrityService, Crypto, signature_data}

-- A session as an accepted report promises it, seen at the time `now`
pub record IsAcceptable (crypto : Crypto) (now : ℕ) (session : GameSession)
    (rules : SessionValidationRules) (service : IntegrityService) (h : String) : Type 0 where
  pub score : or_else session.score (pos 0) ≤ℤ or_else session.max_possible_score rules.max_score
  pub long_enough : rules.min_duration ≤ℤ or_else session.duration (pos 0)
  pub short_enough : or_else session.duration (pos 0) ≤ℤ rules.max_duration
  pub actions : IsComplete now rules.required_actions (actions_of session)
  pub new : has service.session_hashes h ≡ false
  pub paced :
      IsPaced
        (length (actions_of session))
        (or_else session.duration (pos 1))
        rules.max_actions_per_second
  pub signature :
      (text_of session.signature ≡ "")
      ⊎ (crypto.hmac (signature_data session) ≡ some (text_of session.signature))
  pub metadata : length (metadata_issues (metadata_of session)) ≡ 0
