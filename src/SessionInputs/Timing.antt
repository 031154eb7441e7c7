-- ===== src/SessionInputs/Timing.antt =====
-- validateSessionTiming. The tolerance of 5 % is tested as `20 * difference > duration`, which is
-- what the comparison with `duration * 0.05` decides on whole numbers.
pub mod Valid
pub mod Unread
use proof_stell_backend.Common.{
  ℕ, zero, suc, ◌+◌, ◌-◌, ◌*◌, Bool, true, false, Option, none, some, List, [], ◌∷◌, map, min, max,
  length, count, ltb, if◌then◌else◌,
}
use proof_stell_backend.Common.Int.{ℤ, pos, negsuc, ltb_ℤ}
use proof_stell_backend.SessionInputs.{
  Timestamp, missing, malformed, at, SessionInput, SessionData, Reason, below_minimum,
  above_maximum, missing_timestamp, invalid_timestamp_type, negative_timestamp, duration_mismatch,
  future_timestamps, old_timestamps, ValidationResult, valid, invalid, min_duration_ms,
  max_duration_ms, one_week_ms,
}

-- The loop over the inputs: the first bad timestamp, or all of them as numbers.
pub data Stamps : Type 0 where
  bad : Reason → Stamps
  good : List ℕ → Stamps

abbrev pub prepend : ℕ → Stamps → Stamps
prepend t (bad r) = bad r
prepend t (good ts) = good (t ∷ ts)

unfoldable pub check_stamps : ℕ → List Timestamp → Stamps
check_stamps i [] = good []
check_stamps i (missing ∷ ts) = bad (missing_timestamp i)
check_stamps i (malformed ∷ ts) = bad (invalid_timestamp_type i)
check_stamps i (at (negsuc n) ∷ ts) = bad (negative_timestamp i)
check_stamps i (at (pos n) ∷ ts) = prepend n (check_stamps (suc i) ts)

-- Math.min(...timestamps) and Math.max(...timestamps) of the timestamps t ∷ ts
pub min_of : ℕ → List ℕ → ℕ
min_of t [] = t
min_of t (u ∷ us) = min t (min_of u us)

pub max_of : ℕ → List ℕ → ℕ
max_of t [] = t
max_of t (u ∷ us) = max t (max_of u us)

-- Math.abs(a - b)
pub abs_diff : ℕ → ℕ → ℕ
abs_diff a b = if ltb a b then b - a else a - b

-- `now - 7 days` may lie before the epoch, so the comparison adds instead
abbrev pub is_old : ℕ → ℕ → Bool
is_old now t = ltb (t + one_week_ms) now

pub check_spread : ℕ → ℕ → List ℕ → ValidationResult
check_spread now duration [] = valid
check_spread now duration (t ∷ ts) =
    let difference = abs_diff duration (max_of t ts - min_of t ts) in
    if ltb duration (20 * difference)
    then invalid (duration_mismatch difference)
    else if ltb 0 (count (ltb now) (t ∷ ts))
    then invalid (future_timestamps (count (ltb now) (t ∷ ts)))
    else if ltb 0 (count (is_old now) (t ∷ ts))
    then invalid (old_timestamps (count (is_old now) (t ∷ ts)))
    else valid

-- `inputs` that are missing or empty
abbrev pub inputs_of : SessionData → List SessionInput
inputs_of s = elim s.inputs [ none ↦ [] | some l ↦ l ]

pub check_inputs : ℕ → ℕ → Stamps → ValidationResult
check_inputs now duration (bad r) = invalid r
check_inputs now duration (good ts) = check_spread now duration ts

pub check_duration : ℕ → ℤ → List Timestamp → ValidationResult
check_duration now (negsuc n) stamps = invalid below_minimum
check_duration now (pos duration) stamps =
    if ltb duration min_duration_ms
    then invalid below_minimum
    else if ltb max_duration_ms duration
    then invalid above_maximum
    else check_inputs now duration (check_stamps 0 stamps)

-- validateSessionTiming(sessionData), at the time `now`
pub validate_session_timing : ℕ → SessionData → ValidationResult
validate_session_timing now s =
    check_duration now s.duration (map (λ (i : SessionInput). i.timestamp) (inputs_of s))
