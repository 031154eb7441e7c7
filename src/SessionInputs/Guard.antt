-- ===== src/SessionInputs/Guard.antt =====
-- common/guards/session-integrity.guard.ts: the guard in front of a session report. It casts the raw
-- body, so its duration can be any JSON value; `inputs`, when sent, is an array of objects.
use proof_stell_backend.Common.{
  ℕ, ◌≡◌, refl, ◌↔◌, String, Bool, true, false, Option, none, some, List, [], ◌∷◌, arith,
  Option-cases, inl, inr,
}
use proof_stell_backend.Common.Int.{ℤ, pos}
use proof_stell_backend.SessionInputs.{
  Timestamp, at, SessionInput, SessionData, Reason, ValidationResult, valid, invalid,
}
use proof_stell_backend.SessionInputs.Timing.{validate_session_timing}
use proof_stell_backend.SessionInputs.Timing.Valid.{IsTimely, validate_session_timing-valid_iff}
use proof_stell_backend.SessionInputs.Timing.Unread.{
  validate_unread_timing, IsCurrent, validate_unread_timing-valid_iff,
}
use proof_stell_backend.SessionInputs.Sequence.{TimedInput, validate_input_sequence}
use proof_stell_backend.SessionInputs.Sequence.Valid.{
  IsPlausible, validate_input_sequence-valid_iff,
}
use proof_stell_backend.SessionInputs.Replay.{
  Submission, ReplayCache, Healths, Suspicion, detect_replay_attack,
}

-- A duration as it arrives: the whole number that comparisons and arithmetic read it as, `none` for
-- NaN, and its JSON text.
pub record Duration : Type 0 where
  pub number : Option ℤ
  pub printed : String

-- request.body, where `duration` may be missing, and request.user?.id
pub record ReportRequest : Type 0 where
  pub duration : Option Duration
  pub inputs : Option (List SessionInput)
  pub session_id : Option String
  pub signature : Option String

-- BadRequestException, or `true` with what is noted on the request for a review
pub data GuardResult : Type 0 where
  body_required duration_required : GuardResult
  invalid_timing invalid_sequence : Reason → GuardResult
  allowed : Option Suspicion → GuardResult

abbrev pub session_data : ℤ → ReportRequest → SessionData
session_data duration r = record {
  duration = duration;
  inputs = r.inputs;
  session_id = r.session_id;
  signature = r.signature;
}

-- `inputs` that are missing or empty
abbrev pub sent_inputs : ReportRequest → List SessionInput
sent_inputs r = elim r.inputs [ none ↦ [] | some l ↦ l ]

-- The inputs as the later checks read them. After the timing check every timestamp is a number that
-- is not negative, so none is dropped.
unfoldable pub with_stamp : Timestamp → SessionInput → List TimedInput → List TimedInput
with_stamp (at (pos n)) x rest =
    record { timestamp = n; sequence = x.sequence; client_id = x.client_id } ∷ rest
with_stamp _ x rest = rest

unfoldable pub timed_inputs : List SessionInput → List TimedInput
timed_inputs [] = []
timed_inputs (x ∷ xs) = with_stamp x.timestamp x (timed_inputs xs)

pub submission : Option String → Duration → ReportRequest → Submission
submission user d r = record {
  duration = d.printed;
  inputs = timed_inputs (sent_inputs r);
  session_id = r.session_id;
  signature = r.signature;
  user_id = user;
}

-- validateSessionTiming(sessionData) on the body
unfoldable pub check_timing : ℕ → Option ℤ → ReportRequest → ValidationResult
check_timing now (some z) r = validate_session_timing now (session_data z r)
check_timing now none r = validate_unread_timing now (sent_inputs r)

unfoldable pub check_report :
    Healths → ReplayCache → Option String → ℕ → Duration → ReportRequest → ReplayCache × GuardResult
check_report hs c user now d r = elim (check_timing now d.number r) [
  | invalid reason ↦ (c, invalid_timing reason)
  | valid ↦ elim (validate_input_sequence (timed_inputs (sent_inputs r))) [
    | invalid reason ↦ (c, invalid_sequence reason)
    | valid ↦
        let (c', suspicion) = detect_replay_attack hs c (submission user d r) now in
        (c', allowed suspicion)
  ]
]

-- async canActivate(context)
unfoldable pub can_activate :
    Healths → ReplayCache → Option String → ℕ → Option ReportRequest → ReplayCache × GuardResult
can_activate hs c user now none = (c, body_required)
can_activate hs c user now (some r) = elim r.duration [
  | none ↦ (c, duration_required)
  | some d ↦ check_report hs c user now d r
]

-- canActivate returned true
unfoldable pub is_allowed : GuardResult → Bool
is_allowed (allowed found) = true
is_allowed _ = false

-- A duration that reads as a number must fit the timestamps; one that reads as none is not compared.
abbrev pub FitsDuration : ℕ → Option ℤ → ReportRequest → Type 0
FitsDuration now (some z) r = IsTimely now (session_data z r)
FitsDuration now none r = IsCurrent now (sent_inputs r)

-- A body with a duration, timestamps that fit the duration and the clock, and a plausible sequence.
pub record Passes (now : ℕ) (r : Option ReportRequest) : Type 0 where
  pub request : ReportRequest
  pub duration : Duration
  pub body : r ≡ some request
  pub has_duration : request.duration ≡ some duration
  pub timely : FitsDuration now duration.number request
  pub plausible : IsPlausible (timed_inputs (sent_inputs request))

check_timing-valid_iff :
    (now : ℕ) (o : Option ℤ) (r : ReportRequest)
    → (check_timing now o r ≡ valid) ↔ FitsDuration now o r
unfolding check_timing
check_timing-valid_iff now (some z) r = validate_session_timing-valid_iff now (session_data z r)
check_timing-valid_iff now none r = validate_unread_timing-valid_iff now (sent_inputs r)

check_report-allowed_iff :
    (hs : Healths) (c : ReplayCache) (user : Option String) (now : ℕ) (d : Duration)
    (r : ReportRequest)
    → (is_allowed (check_report hs c user now d r).1 ≡ true) ↔ (
        (check_timing now d.number r ≡ valid)
        × (validate_input_sequence (timed_inputs (sent_inputs r)) ≡ valid))
unfolding check_report is_allowed
check_report-allowed_iff hs c user now d r = ground arith

-- A report is let through exactly if it has a body and a duration, its timestamps pass and its inputs
-- are plausible, whatever the cache holds or answers, whoever sends it and whatever the replay
-- detection finds. The timestamps are numbers that are not negative, not in the future and not more
-- than a week old, and a duration that reads as a number lies between 100 ms and a day and differs
-- from their spread by at most a twentieth. A duration that reads as no number is not compared at all.
pub can_activate-allowed_iff :
    (hs : Healths) (c : ReplayCache) (user : Option String) (now : ℕ) (r : Option ReportRequest)
    → (is_allowed (can_activate hs c user now r).1 ≡ true) ↔ Passes now r
unfolding can_activate is_allowed
can_activate-allowed_iff hs c user now none = (λ e. cc, λ p. cc (p.body))
can_activate-allowed_iff hs c user now (some q) = (
  λ e. elim (Option-cases q.duration) [
    | inl x ↦ ground arith
    | inr (d, x) ↦
        let (t, s) = (check_report-allowed_iff hs c user now d q).0 (ground arith) in
        record {
          request = q;
          duration = d;
          body = refl;
          has_duration = x;
          timely = (check_timing-valid_iff now d.number q).0 t;
          plausible = (validate_input_sequence-valid_iff (timed_inputs (sent_inputs q))).0 s;
        }
  ],
  λ p.
      let t = (check_timing-valid_iff now p.duration.number p.request).1 p.timely in
      let s =
        (validate_input_sequence-valid_iff (timed_inputs (sent_inputs p.request))).1 p.plausible in
      let passes = (check_report-allowed_iff hs c user now p.duration p.request).1 (t, s) in
      ground (arith, p.body, p.has_duration, passes),
)
