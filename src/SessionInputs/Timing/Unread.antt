-- ===== src/SessionInputs/Timing/Unread.antt =====
-- validateSessionTiming on the body of a request whose duration reads as no number, such as "abc":
-- every comparison with NaN is false, so the bounds and the tolerance never refuse it.
use proof_stell_backend.Common.{
  ℕ, ◌+◌, ◌≤◌, ◌≡◌, ◌↔◌, inl, inr, false, List, map, arith, All, All-map, count, count-eq-zero_iff,
  ltb, if◌then◌else◌,
}
use proof_stell_backend.Common.Int.{pos}
use proof_stell_backend.SessionInputs.{
  at, SessionInput, future_timestamps, old_timestamps, ValidationResult, valid, invalid,
  one_week_ms,
}
use proof_stell_backend.SessionInputs.Timing.{Stamps, bad, good, check_stamps, is_old}
use proof_stell_backend.SessionInputs.Timing.Valid.{Stamps-cases, map_of_good, check_stamps-map}

-- What is left of the checks: the two against the clock.
unfoldable pub check_clock : ℕ → Stamps → ValidationResult
check_clock now (bad r) = invalid r
check_clock now (good ts) =
    if ltb 0 (count (ltb now) ts)
    then invalid (future_timestamps (count (ltb now) ts))
    else if ltb 0 (count (is_old now) ts)
    then invalid (old_timestamps (count (is_old now) ts))
    else valid

unfoldable pub validate_unread_timing : ℕ → List SessionInput → ValidationResult
validate_unread_timing now xs =
    check_clock now (check_stamps 0 (map (λ (i : SessionInput). i.timestamp) xs))

-- Every timestamp is a number that is not negative, none in the future and none more than a week old.
pub record IsCurrent (now : ℕ) (xs : List SessionInput) : Type 0 where
  pub timestamps : List ℕ
  pub numbers : map (λ (i : SessionInput). i.timestamp) xs ≡ map (λ (n : ℕ). at (pos n)) timestamps
  pub not_future : All (λ u. u ≤ now) timestamps
  pub not_old : All (λ u. now ≤ u + one_week_ms) timestamps

pub validate_unread_timing-valid_iff :
    (now : ℕ) (xs : List SessionInput) → (validate_unread_timing now xs ≡ valid) ↔ IsCurrent now xs
unfolding validate_unread_timing check_clock
validate_unread_timing-valid_iff now xs =
    let stamps = map (λ (i : SessionInput). i.timestamp) xs in
    (
      λ e. elim (Stamps-cases (check_stamps 0 stamps)) [
        | inl (r, x) ↦ ground arith
        | inr (ts, x) ↦ record {
          timestamps = ts;
          numbers = map_of_good 0 stamps ts x;
          not_future =
              All-map (λ x (h : ltb now x ≡ false). ground arith) ts
                ((count-eq-zero_iff (ltb now) ts).0 (ground arith));
          not_old =
              All-map (λ x (h : is_old now x ≡ false). ground arith) ts
                ((count-eq-zero_iff (is_old now) ts).0 (ground arith));
        }
      ],
      λ t.
          let no_future : count (ltb now) t.timestamps ≡ 0 =
            (count-eq-zero_iff (ltb now) t.timestamps).1
              (All-map (λ x (h : x ≤ now). ground arith) t.timestamps t.not_future) in
          let no_old : count (is_old now) t.timestamps ≡ 0 =
            (count-eq-zero_iff (is_old now) t.timestamps).1
              (All-map (λ x (h : now ≤ x + one_week_ms). ground arith) t.timestamps t.not_old) in
          rw (t.numbers) (ground (arith, check_stamps-map 0 t.timestamps)),
    )
