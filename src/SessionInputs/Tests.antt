-- ===== src/SessionInputs/Tests.antt =====
-- Runs of the checks on a small report.
use proof_stell_backend.Common.{ℕ, ◌≡◌, ◌≢◌, ◌↔◌, refl, true, none, some, List, [], ◌∷◌, arith}
use proof_stell_backend.Common.Int.{pos}
use proof_stell_backend.Common.StringSet.{has, add}
use proof_stell_backend.SessionInputs.{at, SessionInput, SessionData, valid}
use proof_stell_backend.SessionInputs.Timing.{validate_session_timing, check_stamps}
use proof_stell_backend.SessionInputs.Timing.Valid.{IsTimely, validate_session_timing-valid_iff}
use proof_stell_backend.SessionInputs.Timing.Unread.{validate_unread_timing, check_clock}
use proof_stell_backend.SessionInputs.Sequence.{
  TimedInput, validate_input_sequence, check_windows, check_ascending, check_numbers,
  check_sequence, collect_clients, check_clients,
}
use proof_stell_backend.SessionInputs.Sequence.Valid.{
  IsPlausible, validate_input_sequence-valid_iff,
}
use proof_stell_backend.SessionInputs.Replay.{
  Submission, ReplayCache, down, up, Healths, detect_replay_attack, calculate_payload_hash,
  check_payload, check_signature, check_rate, detect_for, store_payload, store_signature,
}
use proof_stell_backend.SessionInputs.Replay.Detection.{
  IsRateBounded, detect_all, detect_all-IsRateBounded,
}
use proof_stell_backend.SessionInputs.Guard.{
  ReportRequest, can_activate, is_allowed, check_report, check_timing, with_stamp, timed_inputs,
  Passes, can_activate-allowed_iff,
}

abbrev input_at : ℕ → SessionInput
input_at n = record { timestamp = at (pos n); sequence = none; client_id = some "c1" }

abbrev report : SessionData
report = record {
  duration = pos 1000;
  inputs = some (input_at 5000 ∷ input_at 5400 ∷ input_at 6000 ∷ []);
  session_id = some "s1";
  signature = some "sig1";
}

validate_session_timing-valid_iff_example :
    (validate_session_timing 10000 report ≡ valid) ↔ IsTimely 10000 report
validate_session_timing-valid_iff_example = validate_session_timing-valid_iff 10000 report

abbrev timed : List TimedInput
timed =
    record { timestamp = 5000; sequence = some (pos 1); client_id = some "c1" }
    ∷ record { timestamp = 6000; sequence = some (pos 2); client_id = some "c1" }
    ∷ []

validate_input_sequence-valid_iff_example :
    (validate_input_sequence timed ≡ valid) ↔ IsPlausible timed
validate_input_sequence-valid_iff_example = validate_input_sequence-valid_iff timed

abbrev working : Healths
working = record { payload = up; signature = up; rate = up }

abbrev empty_cache : ReplayCache
empty_cache = record { payloads = λ u h. none; signatures = λ u s. none; rates = λ u. [] }

abbrev first : Submission
first = record {
  duration = "1000";
  inputs = timed;
  session_id = some "s1";
  signature = some "sig1";
  user_id = some "ann";
}

-- Another session with the same payload.
abbrev second : Submission
second = record first { session_id = some "s2"; signature = some "sig2" }

up_ne_down : up ≢ down
up_ne_down e = cc

first_passes : (detect_replay_attack working empty_cache first 7000).1 ≡ none
unfolding detect_replay_attack detect_for check_payload check_signature check_rate store_payload
    store_signature
first_passes = refl

same_payload : calculate_payload_hash first ≡ calculate_payload_hash second
unfolding calculate_payload_hash
same_payload = refl

abbrev events : List (Healths × Submission × ℕ)
events = (working, first, 7000) ∷ (working, second, 8000) ∷ []

empty_cache-IsRateBounded : IsRateBounded empty_cache
empty_cache-IsRateBounded u = omega arith

detect_all-IsRateBounded_example : IsRateBounded (detect_all empty_cache events)
detect_all-IsRateBounded_example =
    detect_all-IsRateBounded empty_cache events empty_cache-IsRateBounded

-- A duration that is no number, which the guard does not compare with anything.
abbrev request : ReportRequest
request = record {
  duration = some (record { number = none; printed = "\"abc\"" });
  inputs = report.inputs;
  session_id = some "s1";
  signature = some "sig1";
}

can_activate-allowed_iff_example :
    (is_allowed (can_activate working empty_cache (some "ann") 10000 (some request)).1 ≡ true)
    ↔ Passes 10000 (some request)
can_activate-allowed_iff_example =
    can_activate-allowed_iff working empty_cache (some "ann") 10000 (some request)

request_passes :
    is_allowed (can_activate working empty_cache (some "ann") 10000 (some request)).1 ≡ true
unfolding can_activate check_report check_timing validate_unread_timing check_clock check_stamps
    is_allowed validate_input_sequence timed_inputs with_stamp check_windows check_ascending
    check_numbers check_sequence collect_clients check_clients add has detect_replay_attack
    detect_for check_payload check_signature check_rate store_payload store_signature
request_passes = refl
