-- ===== src/Integrity/Validation/Outcome.antt =====
-- The recommendation of `validateSession` as a whole, by the checks that its report lists.
use proof_stell_backend.Common.{
  String, ◌⊎◌, ◌≤◌, ◌≡◌, ◌↔◌, refl, true, false, none, some, filter, length, some_of, arith,
  Option-cases, inl, inr, List,
}
use proof_stell_backend.Integrity.{
  GameSession, SessionValidationRules, AnomalyDetectionConfig, IntegrityCheckResult, warning,
}
use proof_stell_backend.Integrity.Report.{
  critical_data, detect_replay, SessionAnomalyLog, IntegrityService, Crypto, Moment, is_status,
  accept, reject,
}
use proof_stell_backend.Integrity.Validation.{
  generate_integrity_report, before_replay, with_replay, after_replay, error_report,
  validate_session,
}
use proof_stell_backend.Integrity.Validation.Verdict.{
  failures, fails_critically, IsLogged, generate-accept_iff, generate-reject_iff,
  before_replay-IsLogged, with_replay-IsLogged, after_replay-IsLogged,
}

module _ (crypto : Crypto) (w : Moment) (session : GameSession) (rules : SessionValidationRules)
    (config : AnomalyDetectionConfig) (service : IntegrityService) where
  -- The report is the one of the `catch`, or it is generated from what has been logged.
  validate_session-cases :
      let r = (validate_session crypto w session rules config service).1 in
      ((with_replay crypto w session rules config
            (before_replay crypto w session rules config service)
          ≡ none)
        × (r ≡ error_report crypto w session rules config))
      ⊎ ((checks : List IntegrityCheckResult) × (anomalies : List SessionAnomalyLog) × IsLogged
            checks anomalies
          × (r ≡ generate_integrity_report session.id checks anomalies config))
  validate_session-cases =
      let c = before_replay crypto w session rules config service in
      elim (Option-cases (with_replay crypto w session rules config c)) [
        | inl thrown ↦ inl (thrown, unfold validate_session in rw (thrown, validate_session) refl)
        | inr (c4, e) ↦
            let c7 = after_replay crypto w session rules config c4 in
            inr (
              c7.checks,
              c7.anomalies,
              after_replay-IsLogged crypto w session rules config c4 (
                  with_replay-IsLogged crypto w session rules config c c4 e
                    (before_replay-IsLogged crypto w session rules config service)),
              unfold validate_session in rw (e, validate_session) refl,
            )
      ]

  -- The recommendation is to accept exactly if no check of the report failed and at most one warned.
  pub validate_session-accept_iff :
      let r = (validate_session crypto w session rules config service).1 in
      (r.recommendation ≡ accept)
      ↔ ((length (failures r.checks) ≡ 0) × (length (filter (is_status warning) r.checks) ≤ 1))
  validate_session-accept_iff = elim validate_session-cases [
    | inl (_, e) ↦ rw e (unfold error_report in (λ e. cc, λ e. cc (e.0)))
    | inr (checks, anomalies, logged, e) ↦ rw e (
        unfold generate_integrity_report in
        generate-accept_iff checks anomalies logged session.id config)
  ]

  -- Without automatic rejection, the recommendation is to reject exactly if a check of the report
  -- failed with critical severity.
  pub validate_session-reject_iff :
      config.auto_reject ≡ false
      → let r = (validate_session crypto w session rules config service).1 in
        (r.recommendation ≡ reject) ↔ (some_of fails_critically r.checks ≡ true)
  validate_session-reject_iff manual = elim validate_session-cases [
    | inl (_, e) ↦ rw e (unfold error_report in (λ e. refl, λ e. refl))
    | inr (checks, anomalies, logged, e) ↦ rw e (
        unfold generate_integrity_report in
        generate-reject_iff checks anomalies logged session.id config manual)
  ]

  -- If the session can be hashed, the report has one anomaly for each failed check that it lists, in
  -- the same order and with the same severity.
  pub validate_session-IsLogged :
      (h : String)
      → crypto.sha256 (critical_data session) ≡ some h
      → let r = (validate_session crypto w session rules config service).1 in
        IsLogged r.checks r.anomalies
  unfolding with_replay detect_replay
  validate_session-IsLogged h fine = elim validate_session-cases [
    | inl (thrown, _) ↦ absurd (ground (arith, thrown, fine))
    | inr (checks, anomalies, logged, e) ↦ rw e (unfold generate_integrity_report in logged)
  ]
