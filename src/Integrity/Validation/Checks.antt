-- ===== src/Integrity/Validation/Checks.antt =====
-- Which checks a report lists when the configuration enables them all.
use proof_stell_backend.Common.{
  String, ◌≡◌, refl, ap, ◌∙◌, true, some, List, [], ◌∷◌, ◌++◌, arith, ◌===◌, if◌then◌else◌,
  Bool-cases, inl, inr,
}
use proof_stell_backend.Common.StringSet.{has, add}
use proof_stell_backend.Integrity.{
  GameSession, SessionValidationRules, AnomalyDetectionConfig, IntegrityCheckResult, result,
  replay_detection, passed, failed, low, critical, validate_score, validate_timing,
}
use proof_stell_backend.Integrity.Actions.{validate_action_sequence, validate_rate_limit}
use proof_stell_backend.Integrity.Metadata.{validate_metadata, text_of}
use proof_stell_backend.Integrity.Report.{
  AnomalyType, IntegrityService, Crypto, Moment, Collected, critical_data, note_check,
  detect_replay, verify_signature, replay_attack,
}
use proof_stell_backend.Integrity.Validation.{
  generate_integrity_report, before_replay, with_replay, after_replay, validate_session,
}
use proof_stell_backend.Integrity.Validation.Repeated.{hashes_of, before_replay-hashes}

-- The configuration enables the five optional checks.
pub record IsFull (config : AnomalyDetectionConfig) : Type 0 where
  pub score : config.enable_score_validation ≡ true
  pub time : config.enable_time_validation ≡ true
  pub actions : config.enable_action_validation ≡ true
  pub replay : config.enable_replay_detection ≡ true
  pub rate : config.enable_rate_limiting ≡ true

-- The check of the replay detection, for a session with the hash `h`
abbrev pub replay_result : IntegrityService → String → IntegrityCheckResult
replay_result service h =
    if has service.session_hashes h
    then result replay_detection failed critical
    else result replay_detection passed low

append-append : (xs ys zs : List IntegrityCheckResult) → (xs ++ ys) ++ zs ≡ xs ++ (ys ++ zs)
append-append [] ys zs = refl
append-append (x ∷ xs) ys zs = ap (◌∷◌ x) (append-append xs ys zs)

module _ (crypto : Crypto) (w : Moment) (session : GameSession) (rules : SessionValidationRules)
    (config : AnomalyDetectionConfig) where
  note_check-checks :
      (type : AnomalyType) (check : IntegrityCheckResult) (c : Collected)
      → (note_check w session type check c).checks ≡ c.checks ++ check ∷ []
  unfolding note_check
  note_check-checks type check c = ground arith

  before_replay-checks :
      (service : IntegrityService)
      → IsFull config
      → (before_replay crypto w session rules config service).checks
        ≡ validate_score session rules
          ∷ validate_timing session rules
          ∷ validate_action_sequence w.now session rules
          ∷ []
  unfolding before_replay
  before_replay-checks service full =
      rw (full.actions, full.time, full.score)
        (note_check-checks _ _ _
          ∙ ap (λ l. l ++ validate_action_sequence w.now session rules ∷ [])
              (note_check-checks _ _ _
                ∙ ap (λ l. l ++ validate_timing session rules ∷ []) (note_check-checks _ _ _)))

  after_replay-checks :
      (c : Collected)
      → IsFull config
      → (after_replay crypto w session rules config c).checks
        ≡ c.checks
          ++ validate_rate_limit session rules
            ∷ (if text_of session.signature === ""
                then validate_metadata session ∷ []
                else verify_signature crypto session ∷ validate_metadata session ∷ [])
  unfolding after_replay
  after_replay-checks c full = elim (Bool-cases (text_of session.signature === "")) [
    | inl unsigned ↦
        rw (full.rate, unsigned)
          (note_check-checks _ _ _
            ∙ ap (λ l. l ++ validate_metadata session ∷ []) (note_check-checks _ _ _)
            ∙ append-append c.checks (validate_rate_limit session rules ∷ [])
                (validate_metadata session ∷ []))
    | inr signed ↦
        rw (full.rate, signed)
          (note_check-checks _ _ _
            ∙ ap (λ l. l ++ validate_metadata session ∷ [])
                (note_check-checks _ _ _
                  ∙ ap (λ l. l ++ verify_signature crypto session ∷ []) (note_check-checks _ _ _)
                  ∙ append-append c.checks (validate_rate_limit session rules ∷ [])
                      (verify_signature crypto session ∷ []))
            ∙ append-append c.checks
                (validate_rate_limit session rules ∷ verify_signature crypto session ∷ [])
                (validate_metadata session ∷ []))
  ]

  with_replay-checks :
      (c : Collected) (h : String)
      → IsFull config
      → crypto.sha256 (critical_data session) ≡ some h
      → (c' : Collected) × (with_replay crypto w session rules config c ≡ some c')
        × (c'.checks ≡ c.checks ++ replay_result c.service h ∷ [])
  unfolding with_replay detect_replay
  with_replay-checks c h full hash = elim (Bool-cases (has (hashes_of c) h)) [
    | inl seen ↦ (
      note_check w session replay_attack (result replay_detection failed critical) c,
      ground (arith, full.replay, hash, seen),
      note_check-checks _ _ _ ∙ (rw seen refl),
    )
    | inr new ↦ (
      note_check w session replay_attack (result replay_detection passed low)
          (record c { service = record c.service { session_hashes = add (hashes_of c) h } }),
      ground (arith, full.replay, hash, new),
      note_check-checks _ _ _ ∙ (rw new refl),
    )
  ]

  -- If the configuration enables all checks and the session can be hashed, the report lists the
  -- results of the checks in this order; the signature is checked only if the session has one, and
  -- the replay check fails exactly if the hash is remembered.
  pub validate_session-checks :
      (service : IntegrityService) (h : String)
      → IsFull config
      → crypto.sha256 (critical_data session) ≡ some h
      → (validate_session crypto w session rules config service).1.checks
        ≡ validate_score session rules
          ∷ validate_timing session rules
          ∷ validate_action_sequence w.now session rules
          ∷ replay_result service h
          ∷ validate_rate_limit session rules
          ∷ (if text_of session.signature === ""
              then validate_metadata session ∷ []
              else verify_signature crypto session ∷ validate_metadata session ∷ [])
  validate_session-checks service h full hash =
      let c = before_replay crypto w session rules config service in
      let (c4, e, listed) = with_replay-checks c h full hash in
      let same : replay_result c.service h ≡ replay_result service h =
        rw (before_replay-hashes crypto w session rules config service) refl in
      let tail =
        validate_rate_limit session rules
        ∷ (if text_of session.signature === ""
            then validate_metadata session ∷ []
            else verify_signature crypto session ∷ validate_metadata session ∷ []) in
      unfold validate_session generate_integrity_report in
      rw (e, validate_session)
        (after_replay-checks c4 full
          ∙ ap (λ l. l ++ tail)
              (listed
                ∙ ap (λ l. l ++ replay_result c.service h ∷ []) (before_replay-checks service full))
          ∙ ap
              (λ x.
                validate_score session rules
                ∷ validate_timing session rules
                ∷ validate_action_sequence w.now session rules
                ∷ x
                ∷ tail)
              same)
