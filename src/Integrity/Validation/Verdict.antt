-- ===== src/Integrity/Validation/Verdict.antt =====
-- What the recommendation of a report says about its checks.
use proof_stell_backend.Common.{
  String, ◌≤◌, ◌≡◌, ◌↔◌, refl, sym, ap, ◌∙◌, Bool, true, false, some, List, [], ◌∷◌, ◌++◌, map,
  filter, length, count, count-map, length-map, some_of-map, map-append, count-le-length,
  length-filter, some_of, ltb, ◌&&◌, not, if◌then◌else◌, arith, ◌===◌, Option-cases, Bool-cases,
  inl, inr,
}
use proof_stell_backend.Integrity.{
  GameSession, SessionValidationRules, AnomalyDetectionConfig, IntegrityCheckResult, Severity,
  failed, warning,
}
use proof_stell_backend.Integrity.Metadata.{text_of}
use proof_stell_backend.Integrity.Report.{
  AnomalyType, SessionAnomalyLog, IntegrityService, Crypto, Moment, Collected, is_status,
  is_critical, note_check, create_anomaly, replay_attack, detect_replay, invalid, accept, reject,
}
use proof_stell_backend.Integrity.Validation.{
  is_high, status_of, risk_of, recommend, generate_integrity_report, step_if, before_replay,
  with_replay, after_replay,
}

abbrev pub failures : List IntegrityCheckResult → List IntegrityCheckResult
failures checks = filter (is_status failed) checks

abbrev pub severities : List IntegrityCheckResult → List Severity
severities checks = map (λ (c : IntegrityCheckResult). c.severity) checks

abbrev pub anomaly_severities : List SessionAnomalyLog → List Severity
anomaly_severities anomalies = map (λ (a : SessionAnomalyLog). a.severity) anomalies

-- There is one anomaly for each failed check, in order and with its severity.
abbrev pub IsLogged : List IntegrityCheckResult → List SessionAnomalyLog → Type 0
IsLogged checks anomalies = anomaly_severities anomalies ≡ severities (failures checks)

abbrev pub fails_critically : IntegrityCheckResult → Bool
fails_critically c = is_status failed c && is_critical c.severity

pub some_of-filter :
    (checks : List IntegrityCheckResult)
    → some_of (λ (c : IntegrityCheckResult). is_critical c.severity) (failures checks)
      ≡ some_of fails_critically checks
some_of-filter [] = refl
some_of-filter (c ∷ cs) = ground (arith, some_of-filter cs)

module _ (checks : List IntegrityCheckResult) (anomalies : List SessionAnomalyLog)
    (logged : IsLogged checks anomalies) where
  logged-length : length anomalies ≡ length (failures checks)
  logged-length =
      sym (length-map (λ (a : SessionAnomalyLog). a.severity) anomalies)
      ∙ ap length logged
      ∙ length-map (λ (c : IntegrityCheckResult). c.severity) (failures checks)

  logged-critical :
      ltb 0 (length (filter (λ (a : SessionAnomalyLog). is_critical a.severity) anomalies))
      ≡ some_of fails_critically checks
  logged-critical =
      ap (ltb 0) (sym (count-map is_critical (λ (a : SessionAnomalyLog). a.severity) anomalies))
      ∙ ap (λ s. ltb 0 (count is_critical s)) logged
      ∙ sym (some_of-map is_critical (λ (c : IntegrityCheckResult). c.severity) (failures checks))
      ∙ some_of-filter checks

  status_of-invalid_iff :
      (status_of checks anomalies ≡ invalid) ↔ (some_of fails_critically checks ≡ true)
  unfolding status_of
  status_of-invalid_iff = (
    λ e. ground (arith, logged-critical, some_of-filter checks, e),
    λ e. ground (arith, logged-critical, some_of-filter checks, e),
  )

  logged-bounds :
      (length (filter (λ (a : SessionAnomalyLog). is_critical a.severity) anomalies)
        ≤ length (failures checks))
      × (length (filter (λ (a : SessionAnomalyLog). is_high a.severity) anomalies)
          ≤ length (failures checks))
  logged-bounds = (
    omega (
      arith,
      logged-length,
      length-filter (λ (a : SessionAnomalyLog). is_critical a.severity) anomalies,
      count-le-length (λ (a : SessionAnomalyLog). is_critical a.severity) anomalies,
    ),
    omega (
      arith,
      logged-length,
      length-filter (λ (a : SessionAnomalyLog). is_high a.severity) anomalies,
      count-le-length (λ (a : SessionAnomalyLog). is_high a.severity) anomalies,
    ),
  )

  pub generate-accept_iff :
      (id : String) (config : AnomalyDetectionConfig)
      → ((generate_integrity_report id checks anomalies config).recommendation ≡ accept)
        ↔ ((length (failures checks) ≡ 0) × (length (filter (is_status warning) checks) ≤ 1))
  unfolding recommend status_of risk_of generate_integrity_report
  generate-accept_iff id config =
      let c = logged-critical in
      let s = some_of-filter checks in
      let l = logged-length in
      let b = logged-bounds in
      (λ e. ground (arith, c, s, l, b.0, b.1, e), λ e. ground (arith, c, s, l, b.0, b.1, e.0, e.1))

  pub generate-reject_iff :
      (id : String) (config : AnomalyDetectionConfig)
      → config.auto_reject ≡ false
      → ((generate_integrity_report id checks anomalies config).recommendation ≡ reject)
        ↔ (some_of fails_critically checks ≡ true)
  unfolding recommend status_of generate_integrity_report
  generate-reject_iff id config manual =
      let c = logged-critical in
      let s = some_of-filter checks in
      (λ e. ground (arith, c, s, e, manual), λ e. ground (arith, c, s, e))

-- What the validation has collected is logged.
abbrev CollectedIsLogged : Collected → Type 0
CollectedIsLogged c = IsLogged c.checks c.anomalies

failures-snoc :
    (checks : List IntegrityCheckResult) (check : IntegrityCheckResult)
    → failures (checks ++ check ∷ [])
      ≡ (if is_status failed check then failures checks ++ check ∷ [] else failures checks)
failures-snoc [] check = ground arith
failures-snoc (c ∷ cs) check = ground (arith, failures-snoc cs check)

IsLogged-failed :
    (checks : List IntegrityCheckResult) (anomalies : List SessionAnomalyLog)
    (check : IntegrityCheckResult) (anomaly : SessionAnomalyLog)
    → is_status failed check ≡ true
    → anomaly.severity ≡ check.severity
    → IsLogged checks anomalies
    → IsLogged (checks ++ check ∷ []) (anomalies ++ anomaly ∷ [])
IsLogged-failed checks anomalies check anomaly e same h =
    map-append (λ (a : SessionAnomalyLog). a.severity) anomalies (anomaly ∷ [])
    ∙ ap (λ s. anomaly_severities anomalies ++ s ∷ []) same
    ∙ ap (λ s. s ++ check.severity ∷ []) h
    ∙ sym (map-append (λ (x : IntegrityCheckResult). x.severity) (failures checks) (check ∷ []))
    ∙ ap severities (sym (failures-snoc checks check ∙ (rw e refl)))

IsLogged-other :
    (checks : List IntegrityCheckResult) (anomalies : List SessionAnomalyLog)
    (check : IntegrityCheckResult)
    → is_status failed check ≡ false
    → IsLogged checks anomalies
    → IsLogged (checks ++ check ∷ []) anomalies
IsLogged-other checks anomalies check e h =
    h ∙ ap severities (sym (failures-snoc checks check ∙ (rw e refl)))

module _ (crypto : Crypto) (w : Moment) (session : GameSession) (rules : SessionValidationRules)
    (config : AnomalyDetectionConfig) where
  note_check-IsLogged :
      (type : AnomalyType) (check : IntegrityCheckResult) (c : Collected)
      → CollectedIsLogged c
      → CollectedIsLogged (note_check w session type check c)
  unfolding note_check create_anomaly
  note_check-IsLogged type check c h = elim (Bool-cases (is_status failed check)) [
    | inl e ↦ rw e (IsLogged-failed c.checks c.anomalies check _ e refl h)
    | inr e ↦ rw e (IsLogged-other c.checks c.anomalies check e h)
  ]

  step_if-IsLogged :
      (b : Bool) (type : AnomalyType) (check : IntegrityCheckResult) (c : Collected)
      → CollectedIsLogged c
      → CollectedIsLogged (step_if b (note_check w session type check) c)
  step_if-IsLogged true type check c h = note_check-IsLogged type check c h
  step_if-IsLogged false type check c h = h

  pub before_replay-IsLogged :
      (service : IntegrityService)
      → CollectedIsLogged (before_replay crypto w session rules config service)
  unfolding before_replay
  before_replay-IsLogged service = step_if-IsLogged config.enable_action_validation _ _ _ (
      step_if-IsLogged config.enable_time_validation _ _ _
        (step_if-IsLogged config.enable_score_validation _ _ _ refl))

  pub with_replay-IsLogged :
      (c c' : Collected)
      → with_replay crypto w session rules config c ≡ some c'
      → CollectedIsLogged c
      → CollectedIsLogged c'
  unfolding with_replay
  with_replay-IsLogged c c' e h = elim (Bool-cases config.enable_replay_detection) [
    | inr off ↦ let same : c ≡ c' = cc in rw (← same) h
    | inl on ↦ elim (Option-cases (detect_replay crypto session c.service)) [
      | inl thrown ↦ absurd (ground (arith, e, on, thrown))
      | inr ((service, check), found) ↦
          let noted = note_check w session replay_attack check (record c { service = service }) in
          let same : noted ≡ c' = cc in
          rw (← same) (note_check-IsLogged replay_attack check (record c { service = service }) h)
    ]
  ]

  pub after_replay-IsLogged :
      (c : Collected)
      → CollectedIsLogged c
      → CollectedIsLogged (after_replay crypto w session rules config c)
  unfolding after_replay
  after_replay-IsLogged c h = note_check-IsLogged _ _ _ (
      step_if-IsLogged (not (text_of session.signature === "")) _ _ _
        (step_if-IsLogged config.enable_rate_limiting _ _ c h))
