-- ===== src/Integrity/Validation/Repeated.antt =====
-- A session that is validated a second time, whatever is validated in between.
use proof_stell_backend.Common.{
  String, ◌≡◌, refl, ◌∙◌, Bool, true, false, none, some, List, [], ◌∷◌, ◌++◌, some_of, arith, ◌===◌,
  ◌||◌, not, Option-cases, Bool-cases, inl, inr, ===_refl,
}
use proof_stell_backend.Common.StringSet.{has, add, has-add}
use proof_stell_backend.Integrity.{
  GameSession, SessionValidationRules, AnomalyDetectionConfig, IntegrityCheckResult, failed, passed,
  low, critical, result, replay_detection,
}
use proof_stell_backend.Integrity.Metadata.{text_of}
use proof_stell_backend.Integrity.Report.{
  SessionAnomalyLog, AnomalyType, IntegrityService, Crypto, Moment, Collected, critical_data,
  create_anomaly, note_check, detect_replay, reject, replay_attack,
}
use proof_stell_backend.Integrity.Validation.{
  status_of, recommend, generate_integrity_report, step_if, before_replay, with_replay,
  after_replay, validate_session,
}
use proof_stell_backend.Integrity.Validation.Verdict.{fails_critically, some_of-filter}

abbrev pub hashes_of : Collected → List String
hashes_of c = c.service.session_hashes

-- A critical failure among the checks so far
abbrev failed_critically : Collected → Bool
failed_critically c = some_of fails_critically c.checks

some_of-snoc :
    (xs : List IntegrityCheckResult) (x : IntegrityCheckResult)
    → some_of fails_critically (xs ++ x ∷ []) ≡ (some_of fails_critically xs || fails_critically x)
some_of-snoc [] x = ground arith
some_of-snoc (y ∷ ys) x = ground (arith, some_of-snoc ys x)

generate-reject :
    (id : String) (checks : List IntegrityCheckResult) (anomalies : List SessionAnomalyLog)
    (config : AnomalyDetectionConfig)
    → some_of fails_critically checks ≡ true
    → (generate_integrity_report id checks anomalies config).recommendation ≡ reject
unfolding generate_integrity_report status_of recommend
generate-reject id checks anomalies config e = ground (arith, some_of-filter checks, e)

module _ (w : Moment) (session : GameSession) where
  note_check-hashes :
      (type : AnomalyType) (check : IntegrityCheckResult) (c : Collected)
      → hashes_of (note_check w session type check c) ≡ hashes_of c
  unfolding note_check create_anomaly
  note_check-hashes type check c = ground arith

  note_check-critical :
      (type : AnomalyType) (check : IntegrityCheckResult) (c : Collected)
      → failed_critically (note_check w session type check c)
        ≡ (failed_critically c || fails_critically check)
  unfolding note_check create_anomaly
  note_check-critical type check c = ground (arith, some_of-snoc c.checks check)

  step_if-hashes :
      (b : Bool) (type : AnomalyType) (check : IntegrityCheckResult) (c : Collected)
      → hashes_of (step_if b (note_check w session type check) c) ≡ hashes_of c
  step_if-hashes true type check c = note_check-hashes type check c
  step_if-hashes false type check c = refl

  step_if-critical :
      (b : Bool) (type : AnomalyType) (check : IntegrityCheckResult) (c : Collected)
      → failed_critically c ≡ true
      → failed_critically (step_if b (note_check w session type check) c) ≡ true
  step_if-critical true type check c e = ground (arith, note_check-critical type check c, e)
  step_if-critical false type check c e = e

module _ (crypto : Crypto) (w : Moment) (session : GameSession) (rules : SessionValidationRules)
    (config : AnomalyDetectionConfig) where
  pub before_replay-hashes :
      (service : IntegrityService)
      → hashes_of (before_replay crypto w session rules config service) ≡ service.session_hashes
  unfolding before_replay
  before_replay-hashes service =
      step_if-hashes w session config.enable_action_validation _ _ _
      ∙ step_if-hashes w session config.enable_time_validation _ _ _
      ∙ step_if-hashes w session config.enable_score_validation _ _ _

  after_replay-hashes :
      (c : Collected) → hashes_of (after_replay crypto w session rules config c) ≡ hashes_of c
  unfolding after_replay
  after_replay-hashes c =
      note_check-hashes w session _ _ _
      ∙ step_if-hashes w session (not (text_of session.signature === "")) _ _ _
      ∙ step_if-hashes w session config.enable_rate_limiting _ _ c

  after_replay-critical :
      (c : Collected)
      → failed_critically c ≡ true
      → failed_critically (after_replay crypto w session rules config c) ≡ true
  unfolding after_replay
  after_replay-critical c e = step_if-critical w session true _ _ _ (
      step_if-critical w session (not (text_of session.signature === "")) _ _ _
        (step_if-critical w session config.enable_rate_limiting _ _ c e))

  -- The service after a validation: what the steps up to the replay detection left, or all of them.
  validate_session-hashes :
      (service : IntegrityService)
      → (validate_session crypto w session rules config service).0.session_hashes
        ≡ (elim (with_replay crypto w session rules config
            (before_replay crypto w session rules config service)) [
              | none ↦ service.session_hashes
              | some c ↦ hashes_of c
            ])
  validate_session-hashes service =
      let c = before_replay crypto w session rules config service in
      elim (Option-cases (with_replay crypto w session rules config c)) [
        | inl e ↦ unfold validate_session in rw (e, validate_session) (before_replay-hashes service)
        | inr (c4, e) ↦ unfold validate_session in rw (e, validate_session) (after_replay-hashes c4)
      ]

  with_replay-seen :
      (c : Collected) (h : String)
      → config.enable_replay_detection ≡ true
      → crypto.sha256 (critical_data session) ≡ some h
      → has (hashes_of c) h ≡ true
      → with_replay crypto w session rules config c
        ≡ some (note_check w session replay_attack (result replay_detection failed critical) c)
  unfolding with_replay detect_replay
  with_replay-seen c h on hash seen = ground (arith, on, hash, seen)

  with_replay-new :
      (c : Collected) (h : String)
      → config.enable_replay_detection ≡ true
      → crypto.sha256 (critical_data session) ≡ some h
      → has (hashes_of c) h ≡ false
      → with_replay crypto w session rules config c
        ≡ some (
            note_check w session replay_attack
              (result replay_detection passed low)
              (record c { service = record c.service { session_hashes = add (hashes_of c) h } }))
  unfolding with_replay detect_replay
  with_replay-new c h on hash new = ground (arith, on, hash, new)

  -- No validation forgets a hash.
  validate_session-keeps :
      (service : IntegrityService) (k : String)
      → has service.session_hashes k ≡ true
      → has (validate_session crypto w session rules config service).0.session_hashes k ≡ true
  validate_session-keeps service k old =
      let c = before_replay crypto w session rules config service in
      let same = before_replay-hashes service in
      let e = validate_session-hashes service in
      elim (Bool-cases config.enable_replay_detection) [
        | inr off ↦ rw e (unfold with_replay in ground (arith, off, old, same))
        | inl on ↦ elim (Option-cases (crypto.sha256 (critical_data session))) [
          | inl thrown ↦ rw e (unfold with_replay detect_replay in ground (arith, on, thrown, old))
          | inr (h, hash) ↦ elim (Bool-cases (has (hashes_of c) h)) [
            | inl seen ↦
                rw (e, with_replay-seen c h on hash seen)
                  (rw (note_check-hashes w session _ _ c, same) old)
            | inr new ↦
                rw (e, with_replay-new c h on hash new)
                  (rw (note_check-hashes w session _ _ _)
                    (ground (arith, has-add (hashes_of c) h k, same, old)))
          ]
        ]
      ]

  -- A validation with replay detection remembers the session.
  validate_session-stores :
      (service : IntegrityService) (h : String)
      → config.enable_replay_detection ≡ true
      → crypto.sha256 (critical_data session) ≡ some h
      → has (validate_session crypto w session rules config service).0.session_hashes h ≡ true
  validate_session-stores service h on hash =
      let c = before_replay crypto w session rules config service in
      let e = validate_session-hashes service in
      elim (Bool-cases (has (hashes_of c) h)) [
        | inl seen ↦
            rw (e, with_replay-seen c h on hash seen) (rw (note_check-hashes w session _ _ c) seen)
        | inr new ↦
            rw (e, with_replay-new c h on hash new)
              (rw (note_check-hashes w session _ _ _)
                (ground (arith, has-add (hashes_of c) h h, ===_refl h)))
      ]

  -- A session whose hash is remembered is to be rejected.
  validate_session-known :
      (service : IntegrityService) (h : String)
      → config.enable_replay_detection ≡ true
      → crypto.sha256 (critical_data session) ≡ some h
      → has service.session_hashes h ≡ true
      → (validate_session crypto w session rules config service).1.recommendation ≡ reject
  validate_session-known service h on hash known =
      let c = before_replay crypto w session rules config service in
      let seen : has (hashes_of c) h ≡ true = rw (before_replay-hashes service) known in
      let c4 = note_check w session replay_attack (result replay_detection failed critical) c in
      let bad : failed_critically c4 ≡ true = ground (
        arith,
        note_check-critical w session replay_attack (result replay_detection failed critical) c,
      ) in
      unfold validate_session in
      rw (with_replay-seen c h on hash seen, validate_session)
        (generate-reject session.id _ _ config (after_replay-critical c4 bad))

-- A validation: its moment, session, rules and configuration
abbrev pub Validation : Type 0
Validation = Moment × GameSession × SessionValidationRules × AnomalyDetectionConfig

pub validate_all : Crypto → IntegrityService → List Validation → IntegrityService
validate_all crypto service [] = service
validate_all crypto service ((w, session, rules, config) ∷ rest) =
    validate_all crypto (validate_session crypto w session rules config service).0 rest

validate_all-keeps :
    (crypto : Crypto) (service : IntegrityService) (vs : List Validation) (k : String)
    → has service.session_hashes k ≡ true
    → has (validate_all crypto service vs).session_hashes k ≡ true
unfolding validate_all
validate_all-keeps crypto service [] k old = old
validate_all-keeps crypto service ((w, session, rules, config) ∷ rest) k old =
    validate_all-keeps crypto (validate_session crypto w session rules config service).0 rest k
      (validate_session-keeps crypto w session rules config service k old)

-- When a session was validated with replay detection and later, after any other validations, a
-- session with the same hash is, then the second one is recommended for rejection.
pub validate_session-repeated :
    (crypto : Crypto) (service : IntegrityService) (w w' : Moment) (session session' : GameSession)
    (rules rules' : SessionValidationRules) (config config' : AnomalyDetectionConfig) (h : String)
    (between : List Validation)
    → config.enable_replay_detection ≡ true
    → config'.enable_replay_detection ≡ true
    → crypto.sha256 (critical_data session) ≡ some h
    → crypto.sha256 (critical_data session') ≡ some h
    → (validate_session crypto w' session' rules' config' (
        validate_all crypto
          (validate_session crypto w session rules config service).0
          between)).1.recommendation
      ≡ reject
validate_session-repeated crypto service w w' session session' rules rules' config config' h between
      on on' hash hash' =
    validate_session-known crypto w' session' rules' config' _ h on' hash' (
      validate_all-keeps crypto _ between h
        (validate_session-stores crypto w session rules config service h on hash))
