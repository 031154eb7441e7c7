-- ===== src/GameSessions/Queries.antt =====
-- getSession, getUserSessions and getSessionStats of interfaces/game-sessions/game-session.service.ts.
use proof_stell_backend.Common.{
  ℕ, String, Bool, true, false, Option, none, some, List, [], ◌∷◌, leb, ◌&&◌, not, filter, length,
  take,
}
use proof_stell_backend.Common.Int.{ℤ, pos, sub_ℕ, pos_part, neg_part}
use proof_stell_backend.Common.Dict.{lookup}
use proof_stell_backend.Common.Sorting.{sort_by}
use proof_stell_backend.Integrity.Actions.{is_zero}
use proof_stell_backend.GameSessions.{
  SessionStatus, active, completed, abandoned, paused, invalid, under_review, Stored,
  GameSessionService,
}
use proof_stell_backend.GameSessions.Operations.{ids_or_nothing, is_active}
use Prim.Native.Nat.{◌+◌}

-- async getSession(sessionId)
unfoldable pub get_session : GameSessionService → String → Option Stored
get_session s id = lookup id s.sessions

-- .map((id) => this.sessions.get(id)).filter((session) => session !== undefined)
unfoldable pub sessions_at : GameSessionService → List String → List Stored
sessions_at s [] = []
sessions_at s (id ∷ ids) =
    let rest = sessions_at s ids in elim (lookup id s.sessions) [ none ↦ rest | some x ↦ x ∷ rest ]

-- (a, b) => b.createdAt.getTime() - a.createdAt.getTime()
abbrev pub later_first : Stored → Stored → Bool
later_first a b = leb b.created_at a.created_at

-- async getUserSessions(userId, limit)
unfoldable pub get_user_sessions : GameSessionService → String → ℕ → List Stored
get_user_sessions s user_id limit =
    let ids = ids_or_nothing (lookup user_id s.user_sessions) in
    take limit (sort_by later_first (sessions_at s ids))

abbrev pub is_completed : SessionStatus → Bool
is_completed completed = true
is_completed active = false
is_completed abandoned = false
is_completed paused = false
is_completed invalid = false
is_completed under_review = false

abbrev pub is_abandoned : SessionStatus → Bool
is_abandoned abandoned = true
is_abandoned active = false
is_abandoned completed = false
is_abandoned paused = false
is_abandoned invalid = false
is_abandoned under_review = false

abbrev pub is_invalid : SessionStatus → Bool
is_invalid invalid = true
is_invalid active = false
is_invalid completed = false
is_invalid abandoned = false
is_invalid paused = false
is_invalid under_review = false

-- s.duration is truthy
abbrev pub has_duration : Option ℤ → Bool
has_duration none = false
has_duration (some d) = not (is_zero d)

abbrev pub stored_of : List (String × Stored) → List Stored
stored_of [] = []
stored_of ((_, x) ∷ rest) = x ∷ stored_of rest

-- The average is a sum over a number of sessions.
pub record SessionStats : Type 0 where
  pub total_sessions : ℕ
  pub active_sessions : ℕ
  pub completed_sessions : ℕ
  pub abandoned_sessions : ℕ
  pub invalid_sessions : ℕ
  pub duration_sum : ℤ
  pub duration_count : ℕ

abbrev pub add_ℤ : ℤ → ℤ → ℤ
add_ℤ a b = sub_ℕ (pos_part a + pos_part b) (neg_part a + neg_part b)

unfoldable pub duration_sum_of : List Stored → ℤ
duration_sum_of [] = pos 0
duration_sum_of (x ∷ rest) =
    let later = duration_sum_of rest in
    elim x.session.duration [ none ↦ later | some d ↦ add_ℤ d later ]

-- async getSessionStats()
unfoldable pub get_session_stats : GameSessionService → SessionStats
get_session_stats s =
    let sessions = stored_of s.sessions in
    let timed =
      filter (λ (x : Stored). is_completed x.status && has_duration x.session.duration) sessions in
    record {
      total_sessions = length sessions;
      active_sessions = length (filter (λ (x : Stored). is_active x.status) sessions);
      completed_sessions = length (filter (λ (x : Stored). is_completed x.status) sessions);
      abandoned_sessions = length (filter (λ (x : Stored). is_abandoned x.status) sessions);
      invalid_sessions = length (filter (λ (x : Stored). is_invalid x.status) sessions);
      duration_sum = duration_sum_of timed;
      duration_count = length timed;
    }
