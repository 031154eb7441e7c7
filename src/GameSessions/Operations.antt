-- ===== src/GameSessions/Operations.antt =====
-- The methods of interfaces/game-sessions/game-session.service.ts that change the status of a session,
-- and those that list and count.
use proof_stell_backend.Common.{
  ℕ, ◌+◌, String, Bool, true, false, Option, none, some, List, [], ◌∷◌, ◌++◌, if◌then◌else◌, not,
  length,
}
use proof_stell_backend.Common.Int.{ℤ, pos, sub_ℕ}
use proof_stell_backend.Common.Dict.{lookup, insert}
use proof_stell_backend.Common.Result.{Result, ok, err}
use proof_stell_backend.Integrity.{GameAction, GameSession, SessionMetadata}
use proof_stell_backend.Integrity.Actions.{actions_of}
use proof_stell_backend.Integrity.Report.{Crypto, signature_data}
use proof_stell_backend.GameSessions.{
  SessionStatus, active, completed, abandoned, paused, invalid, under_review, Stored,
  GameSessionService, SessionError, not_found, bad_status, not_printable, Method, put,
  record_action,
}

-- The action that the service itself records
unfoldable pub own_action : String → ℕ → String → List GameAction → GameAction
own_action type now content actions = record {
  type = type;
  timestamp = now;
  sequence = pos (length actions + 1);
  content = content;
}

-- What is asked of a new session
pub record Start : Type 0 where
  pub session_id : String
  pub user_id : String
  pub session_type : String
  pub puzzle_id : Option String
  pub module_id : Option String

abbrev pub no_metadata : SessionMetadata
no_metadata = record { user_agent = none; ip_address = none; hints = none; attempts = none }

unfoldable pub new_session : Start → ℕ → GameSession
new_session q now = record {
  id = q.session_id;
  user_id = q.user_id;
  puzzle_id = q.puzzle_id;
  module_id = q.module_id;
  started_at = some now;
  ended_at = none;
  duration = none;
  score = none;
  max_possible_score = none;
  actions = some [];
  metadata = some no_metadata;
  signature = none;
}

unfoldable pub new_stored : Start → ℕ → String → Stored
new_stored q now signature = record {
  session = record (new_session q now) { signature = some signature };
  session_type = q.session_type;
  status = active;
  created_at = now;
  updated_at = now;
  pause_count = none;
  integrity_checks = [];
}

abbrev pub ids_or_nothing : Option (List String) → List String
ids_or_nothing none = []
ids_or_nothing (some l) = l

-- this.sessions.set(…) and the list of the user's sessions
unfoldable pub store_session : Start → Stored → GameSessionService → GameSessionService
store_session q x s =
    let ids = ids_or_nothing (lookup q.user_id s.user_sessions) ++ q.session_id ∷ [] in
    record s {
      sessions = insert q.session_id x s.sessions;
      user_sessions = insert q.user_id ids s.user_sessions;
    }

-- What follows the recorded start
unfoldable pub store_recorded :
    Start
    → Stored
    → GameSessionService × Result SessionError GameAction
    → GameSessionService × Result SessionError Stored
store_recorded q x (s, err e) = (s, err e)
store_recorded q x (s, ok _) = (store_session q x s, ok x)

-- async startSession(…); the action is recorded before the session is stored
unfoldable pub start_session : Crypto → ℕ → String → Start → Method Stored
start_session crypto now content q s = elim (crypto.hmac (signature_data (new_session q now))) [
  | none ↦ (s, err not_printable)
  | some signature ↦
      let x = new_stored q now signature in
      store_recorded q x (record_action now q.session_id (own_action "start" now content []) s)
]

-- The object under the id, which a call before has found
abbrev pub current : String → Stored → GameSessionService → Stored
current id x s = elim (lookup id s.sessions) [ none ↦ x | some y ↦ y ]

abbrev pub is_active : SessionStatus → Bool
is_active active = true
is_active completed = false
is_active abandoned = false
is_active paused = false
is_active invalid = false
is_active under_review = false

abbrev pub is_paused : SessionStatus → Bool
is_paused paused = true
is_paused active = false
is_paused completed = false
is_paused abandoned = false
is_paused invalid = false
is_paused under_review = false

-- The end of a call, after its action is recorded: the object changes once more.
unfoldable pub after_recording :
    String
    → Stored
    → (Stored → Stored)
    → GameSessionService × Result SessionError GameAction
    → GameSessionService × Result SessionError Stored
after_recording id x after (s, err e) = (s, err e)
after_recording id x after (s, ok _) = let y = after (current id x s) in (put id y s, ok y)

-- The object changes, the action is recorded, and what follows changes the object once more.
unfoldable pub change_and_record :
    ℕ → String → GameAction → Stored → (Stored → Stored) → Method Stored
change_and_record now id a changed after s =
    after_recording id changed after (record_action now id a (put id changed s))

abbrev pub or_zero : Option ℕ → ℕ
or_zero none = 0
or_zero (some n) = n

-- async pauseSession(sessionId)
unfoldable pub pause_session : ℕ → String → Method Stored
pause_session now id s = elim (lookup id s.sessions) [
  | none ↦ (s, err (not_found id))
  | some x ↦
      if not (is_active x.status)
      then (s, err (bad_status x.status))
      else change_and_record now id (own_action "pause" now "{}" (actions_of x.session))
          (record x { status = paused; updated_at = now })
          (λ y. record y { pause_count = some (or_zero y.pause_count + 1) }) s
]

-- async resumeSession(sessionId)
unfoldable pub resume_session : ℕ → String → Method Stored
resume_session now id s = elim (lookup id s.sessions) [
  | none ↦ (s, err (not_found id))
  | some x ↦
      if not (is_paused x.status)
      then (s, err (bad_status x.status))
      else change_and_record now id (own_action "resume" now "{}" (actions_of x.session))
          (record x { status = active; updated_at = now }) (λ y. y) s
]

-- now.getTime() - session.startedAt.getTime(); the field is always set
abbrev pub since : Option ℕ → ℕ → ℤ
since none now = pos 0
since (some start) now = sub_ℕ now start

-- What changes before the action is recorded
unfoldable pub abandon : ℕ → Stored → Stored
abandon now x = record x {
  session = record x.session {
    ended_at = some now;
    duration = some (since x.session.started_at now);
  };
  status = abandoned;
  updated_at = now;
}

-- async abandonSession(sessionId)
unfoldable pub abandon_session : ℕ → String → String → Method Stored
abandon_session now content id s = elim (lookup id s.sessions) [
  | none ↦ (s, err (not_found id))
  | some x ↦
      change_and_record now id (own_action "abandon" now content (actions_of x.session))
        (abandon now x) (λ y. y) s
]
