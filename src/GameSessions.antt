-- ===== src/GameSessions.antt =====
-- interfaces/game-sessions/game-session.service.ts: the service that starts, pauses, resumes, ends and
-- abandons game sessions and records their actions. The sessions are objects that the map shares, so
-- that a change made before an exception stays; `Stored` is such an object. Ids and the JSON texts of
-- the data of actions come from outside, and the clock is read once for a call.
pub mod Operations
pub mod Completing
pub mod Queries
pub mod Calls
pub mod Starting
mod Tests
use proof_stell_backend.Common.{
  ℕ, ◌+◌, String, Bool, true, false, Option, none, some, List, [], ◌∷◌, ◌++◌, if◌then◌else◌, ltb,
  ◌===◌, ◌||◌, not, some_of, map,
}
use proof_stell_backend.Common.Int.{ℤ, pos, ltb_ℤ}
use proof_stell_backend.Common.Dict.{lookup, insert}
use proof_stell_backend.Common.Result.{Result, ok, err}
use proof_stell_backend.Integrity.{
  GameAction, GameSession, IntegrityCheckResult, SessionValidationRules, AnomalyDetectionConfig,
}
use proof_stell_backend.Integrity.Actions.{actions_of}
use proof_stell_backend.Integrity.Report.{IntegrityService}

-- type SessionStatus
pub data SessionStatus : Type 0 where
  active completed abandoned paused invalid under_review : SessionStatus

-- A session object in the map: the fields that the integrity checks read, and the others
pub record Stored : Type 0 where
  pub session : GameSession
  pub session_type : String
  pub status : SessionStatus
  pub created_at : ℕ
  pub updated_at : ℕ
  pub pause_count : Option ℕ
  pub integrity_checks : List IntegrityCheckResult

pub record GameSessionService : Type 0 where
  pub sessions : List (String × Stored)
  pub user_sessions : List (String × List String)
  pub integrity : IntegrityService

-- What is thrown: NotFoundException, the two kinds of BadRequestException, and a failing hash
pub data SessionError : Type 0 where
  not_found : String → SessionError
  bad_status : SessionStatus → SessionError
  invalid_action : String → SessionError
  not_printable : SessionError

-- A method leaves the service and returns or throws.
abbrev pub Method : Type 0 → Type 0
Method A = GameSessionService → GameSessionService × Result SessionError A

-- The table of isValidActionTransition; `undefined` stands for no action
abbrev pub playing : List String
playing =
    "move" ∷ "hint_request" ∷ "pause" ∷ "submit_answer" ∷ "complete" ∷ "abandon" ∷ "heartbeat" ∷ []

abbrev pub valid_transitions : List (String × List String)
valid_transitions =
    ("undefined", "start" ∷ [])
    ∷ ("start", playing)
    ∷ ("move", playing)
    ∷ ("hint_request", playing)
    ∷ ("pause", "resume" ∷ "abandon" ∷ [])
    ∷ ("resume", playing)
    ∷ ("submit_answer", playing)
    ∷ ("heartbeat", playing)
    ∷ ("complete", [])
    ∷ ("abandon", [])
    ∷ []

-- fromAction || 'undefined'
abbrev pub or_undefined : Option String → String
or_undefined none = "undefined"
or_undefined (some t) = if t === "" then "undefined" else t

abbrev pub or_nothing : Option (List String) → List String
or_nothing none = []
or_nothing (some l) = l

-- private isValidActionTransition
unfoldable pub is_valid_action_transition : Option String → String → Bool
unfolding lookup
is_valid_action_transition from to =
    some_of (λ t. t === to) (or_nothing (lookup (or_undefined from) valid_transitions))

-- session.actions[session.actions.length - 1]?.type
abbrev pub last_type : List GameAction → Option String
last_type [] = none
last_type (a ∷ []) = some a.type
last_type (a ∷ b ∷ rest) = last_type (b ∷ rest)

-- Math.max(...sequences); there is none for an empty list, where it is -Infinity
abbrev pub max_ℤ : ℤ → Option ℤ → ℤ
max_ℤ m none = m
max_ℤ m (some n) = if ltb_ℤ m n then n else m

unfoldable pub last_sequence : List GameAction → Option ℤ
last_sequence [] = none
last_sequence (a ∷ rest) = let later = last_sequence rest in some (max_ℤ a.sequence later)

-- action.sequence <= lastSequence is false
abbrev pub above : ℤ → Option ℤ → Bool
above m none = true
above m (some n) = ltb_ℤ n m

-- session.actions?.map((a) => a.sequence) || [0], in Math.max
abbrev pub sequence_of : Option (List GameAction) → Option ℤ
sequence_of none = some (pos 0)
sequence_of (some l) = last_sequence l

-- What validateAction finds on a session that is there
unfoldable pub accepts : ℕ → Stored → GameAction → Bool
accepts now x a =
    if ltb (a.timestamp + 300000) now || ltb now a.timestamp
    then false
    else if not (above a.sequence (sequence_of x.session.actions))
    then false
    else is_valid_action_transition (last_type (actions_of x.session)) a.type

-- async validateAction(sessionId, action)
unfoldable pub validate_action : ℕ → String → GameAction → GameSessionService → Bool
validate_action now id a s = elim (lookup id s.sessions) [ none ↦ false | some x ↦ accepts now x a ]

-- A change of the object that the map has under the id
unfoldable pub put : String → Stored → GameSessionService → GameSessionService
put id x s = record s { sessions = insert id x s.sessions }

-- session.actions.push(action); session.updatedAt = new Date()
unfoldable pub push_action : ℕ → GameAction → Stored → Stored
push_action now a x = record x {
  session = record x.session { actions = some (actions_of x.session ++ a ∷ []) };
  updated_at = now;
}

-- async recordAction(sessionId, actionData)
unfoldable pub record_action : ℕ → String → GameAction → Method GameAction
record_action now id a s = elim (lookup id s.sessions) [
  | none ↦ (s, err (not_found id))
  | some x ↦
      if not (validate_action now id a s)
      then (s, err (invalid_action a.type))
      else (put id (push_action now a x) s, ok a)
]
