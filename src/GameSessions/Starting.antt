-- ===== src/GameSessions/Starting.antt =====
-- startSession of interfaces/game-sessions/game-session.service.ts records the first action before it
-- stores the session, so that recordAction finds no session: no session is ever started.
use proof_stell_backend.Common.{
  ℕ, zero, suc, take, String, ◌≡◌, refl, false, none, List, [], ◌∷◌, Option-cases, inl, inr,
}
use proof_stell_backend.Common.Dict.{lookup}
use proof_stell_backend.Common.Sorting.{sort_by}
use proof_stell_backend.Common.Result.{err, is_ok}
use proof_stell_backend.Integrity.{GameAction, SessionValidationRules, AnomalyDetectionConfig}
use proof_stell_backend.Integrity.Report.{IntegrityService, Crypto, signature_data}
use proof_stell_backend.GameSessions.{not_found, Stored, GameSessionService, record_action}
use proof_stell_backend.GameSessions.Operations.{
  Start, own_action, new_session, start_session, store_recorded, pause_session, resume_session,
  abandon_session,
}
use proof_stell_backend.GameSessions.Completing.{end_session}
use proof_stell_backend.GameSessions.Queries.{get_session, get_user_sessions, sessions_at}
use proof_stell_backend.GameSessions.Calls.{
  Call, start, record_one, pause, resume, abandon, finish, validate, resolve, run_call, run_calls,
}

-- The service as it is constructed
unfoldable pub new_service : IntegrityService → GameSessionService
new_service integrity = record { sessions = []; user_sessions = []; integrity = integrity }

-- No session is stored, and no user has one.
abbrev IsUnused : GameSessionService → Type 0
IsUnused s = (s.sessions ≡ []) × (s.user_sessions ≡ [])

lookup-unused :
    (id : String) (s : GameSessionService) → s.sessions ≡ [] → lookup id s.sessions ≡ none
lookup-unused id s e = rw e (unfold lookup in refl)

record_action-unused :
    (now : ℕ) (id : String) (a : GameAction) (s : GameSessionService)
    → s.sessions ≡ []
    → record_action now id a s ≡ (s, err (not_found id))
record_action-unused now id a s e =
    unfold record_action in rw (lookup-unused id s e, record_action) refl

take-nil : (n : ℕ) → take {A = Stored} n [] ≡ []
take-nil zero = refl
take-nil (suc n) = refl

get_user_sessions-unused :
    (s : GameSessionService) (user_id : String) (limit : ℕ)
    → s.user_sessions ≡ []
    → get_user_sessions s user_id limit ≡ []
unfolding get_user_sessions sessions_at sort_by lookup
get_user_sessions-unused s user_id limit e = rw e (take-nil limit)

-- Without sessions a start fails and changes nothing.
start_session-unused :
    (crypto : Crypto) (now : ℕ) (content : String) (q : Start) (s : GameSessionService)
    → s.sessions ≡ []
    → ((start_session crypto now content q s).0 ≡ s)
      × (is_ok (start_session crypto now content q s).1 ≡ false)
start_session-unused crypto now content q s e =
    unfold start_session store_recorded in
    elim (Option-cases (crypto.hmac (signature_data (new_session q now)))) [
      | inl thrown ↦ rw (thrown, start_session) (refl, refl)
      | inr (signature, made) ↦
          rw (made, start_session)
            (rw (record_action-unused now q.session_id (own_action "start" now content []) s e)
              (refl, refl))
    ]

module _ (crypto : Crypto) (rules : SessionValidationRules) (config : AnomalyDetectionConfig) where
  run_call-IsUnused :
      (c : Call) (s : GameSessionService) → IsUnused s → IsUnused (run_call crypto rules config c s)
  unfolding run_call
  run_call-IsUnused (start now content q) s u =
      rw ((start_session-unused crypto now content q s u.0).0) u
  run_call-IsUnused (record_one now id a) s u = rw (record_action-unused now id a s u.0, run_call) u
  run_call-IsUnused (pause now id) s u =
      unfold pause_session in rw (lookup-unused id s u.0, run_call, pause_session) u
  run_call-IsUnused (resume now id) s u =
      unfold resume_session in rw (lookup-unused id s u.0, run_call, resume_session) u
  run_call-IsUnused (abandon now content id) s u =
      unfold abandon_session in rw (lookup-unused id s u.0, run_call, abandon_session) u
  run_call-IsUnused (finish w content id final) s u =
      unfold end_session in rw (lookup-unused id s u.0, run_call, end_session) u
  run_call-IsUnused (validate w session) s u = u
  run_call-IsUnused (resolve id notes) s u = u

  run_calls-IsUnused :
      (calls : List Call) (s : GameSessionService)
      → IsUnused s
      → IsUnused (run_calls crypto rules config calls s)
  unfolding run_calls
  run_calls-IsUnused [] s u = u
  run_calls-IsUnused (c ∷ rest) s u =
      run_calls-IsUnused rest (run_call crypto rules config c s) (run_call-IsUnused c s u)

  -- From the service as it is constructed, after any calls of its methods in any order, no session
  -- can be got under any id, no user has a session, and the next start of a session throws.
  pub start_session-never :
      (integrity : IntegrityService) (calls : List Call) (id user_id : String) (limit now : ℕ)
      (content : String) (q : Start)
      → (let s = run_calls crypto rules config calls (new_service integrity) in
          (get_session s id ≡ none)
          × (get_user_sessions s user_id limit ≡ [])
          × (is_ok (start_session crypto now content q s).1 ≡ false))
  unfolding get_session new_service
  start_session-never integrity calls id user_id limit now content q =
      let s = run_calls crypto rules config calls (new_service integrity) in
      let u = run_calls-IsUnused calls (new_service integrity) (refl, refl) in
      (
        lookup-unused id s u.0,
        get_user_sessions-unused s user_id limit u.1,
        (start_session-unused crypto now content q s u.0).1,
      )
