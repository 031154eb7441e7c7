-- ===== src/SessionInputs/Timing/Valid.antt =====
-- Exactly which sessions pass the timing check.
use mathlib.Core.Path.{subst}
use native.Mathlib.Decide.{dec_le}
use proof_stell_backend.Common.{
  ℕ, suc, ◌+◌, ◌-◌, ◌*◌, ◌≤◌, ◌≡◌, refl, sym, ap, ◌∙◌, ◌↔◌, ◌⊎◌, inl, inr, false, List, [], ◌∷◌,
  map, arith, All, Elem, All-Elem, All-map, count, count-eq-zero_iff, ltb, min, max,
}
use proof_stell_backend.Common.Int.{ℤ, pos, negsuc}
use proof_stell_backend.SessionInputs.{
  Timestamp, missing, malformed, at, SessionInput, SessionData, valid, min_duration_ms,
  max_duration_ms, one_week_ms, Reason,
}
use proof_stell_backend.SessionInputs.Timing.{
  Stamps, bad, good, prepend, check_stamps, min_of, max_of, abs_diff, is_old, check_spread,
  inputs_of, check_inputs, check_duration, validate_session_timing,
}

-- The timestamps t ∷ ts fit the reported duration and the clock: the distance between the earliest
-- and the latest differs from the duration by at most a twentieth of it, none lies in the future, and
-- none is more than a week old.
pub record Fits (now duration : ℕ) (ts : List ℕ) : Type 0 where
  pub earliest : ℕ
  pub latest : ℕ
  pub earliest_among : Elem earliest ts
  pub latest_among : Elem latest ts
  pub earliest_bound : All (λ u. earliest ≤ u) ts
  pub latest_bound : All (λ u. u ≤ latest) ts
  pub spread_low : 20 * duration ≤ 20 * (latest - earliest) + duration
  pub spread_high : 20 * (latest - earliest) ≤ 20 * duration + duration
  pub not_future : All (λ u. u ≤ now) ts
  pub not_old : All (λ u. now ≤ u + one_week_ms) ts

pub Stamps-cases : (s : Stamps) → ((r : Reason) × (s ≡ bad r)) ⊎ ((ts : List ℕ) × (s ≡ good ts))
Stamps-cases (bad r) = inl (r, refl)
Stamps-cases (good ts) = inr (ts, refl)

pub check_stamps-map :
    (i : ℕ) (ts : List ℕ) → check_stamps i (map (λ (n : ℕ). at (pos n)) ts) ≡ good ts
unfolding check_stamps
check_stamps-map i [] = refl
check_stamps-map i (t ∷ ts) = ap (prepend t) (check_stamps-map (suc i) ts)

pub map_of_good :
    (i : ℕ) (l : List Timestamp) (ts : List ℕ)
    → check_stamps i l ≡ good ts
    → l ≡ map (λ (n : ℕ). at (pos n)) ts
unfolding check_stamps
map_of_good i [] [] e = refl
map_of_good i [] (t ∷ ts) e = cc
map_of_good i (missing ∷ l) ts e = cc
map_of_good i (malformed ∷ l) ts e = cc
map_of_good i (at (negsuc n) ∷ l) ts e = cc
map_of_good i (at (pos n) ∷ l) ts e = elim (Stamps-cases (check_stamps (suc i) l)) [
  | inl (r, x) ↦ ground arith
  | inr (us, x) ↦
      let rest = map_of_good (suc i) l us x in
      let same : good (n ∷ us) ≡ good ts = ap (prepend n) (sym x) ∙ e in
      let same_ts : n ∷ us ≡ ts = cc in rw (← same_ts) (ap (◌∷◌ (at (pos n))) rest)
]

min_of_lem :
    (t : ℕ) (ts : List ℕ) → Elem (min_of t ts) (t ∷ ts) × All (λ u. min_of t ts ≤ u) (t ∷ ts)
unfolding min_of
min_of_lem t [] = (inl refl, (omega arith, tt))
min_of_lem t (u ∷ us) = elim (dec_le t (min_of u us)) [
  | yes h ↦
      (inl (omega arith), (omega arith, All-map (λ x k. omega arith) (u ∷ us) (min_of_lem u us).1))
  | no h ↦
      let e : min t (min_of u us) ≡ min_of u us = omega arith in
      subst (λ m. Elem m (t ∷ u ∷ us) × All (λ x. m ≤ x) (t ∷ u ∷ us)) (sym e)
        (inr (min_of_lem u us).0, (omega arith, (min_of_lem u us).1))
]

max_of_lem :
    (t : ℕ) (ts : List ℕ) → Elem (max_of t ts) (t ∷ ts) × All (λ u. u ≤ max_of t ts) (t ∷ ts)
unfolding max_of
max_of_lem t [] = (inl refl, (omega arith, tt))
max_of_lem t (u ∷ us) = elim (dec_le (max_of u us) t) [
  | yes h ↦
      (inl (omega arith), (omega arith, All-map (λ x k. omega arith) (u ∷ us) (max_of_lem u us).1))
  | no h ↦
      let e : max t (max_of u us) ≡ max_of u us = omega arith in
      subst (λ m. Elem m (t ∷ u ∷ us) × All (λ x. x ≤ m) (t ∷ u ∷ us)) (sym e)
        (inr (max_of_lem u us).0, (omega arith, (max_of_lem u us).1))
]

check_spread_sound :
    (now d t : ℕ) (ts : List ℕ) → check_spread now d (t ∷ ts) ≡ valid → Fits now d (t ∷ ts)
unfolding check_spread abs_diff
check_spread_sound now d t ts e = record {
  earliest = min_of t ts;
  latest = max_of t ts;
  earliest_among = (min_of_lem t ts).0;
  latest_among = (max_of_lem t ts).0;
  earliest_bound = (min_of_lem t ts).1;
  latest_bound = (max_of_lem t ts).1;
  spread_low = ground arith;
  spread_high = ground arith;
  not_future =
      All-map (λ x (h : ltb now x ≡ false). ground arith) (t ∷ ts)
        ((count-eq-zero_iff (ltb now) (t ∷ ts)).0 (ground arith));
  not_old =
      All-map (λ x (h : is_old now x ≡ false). ground arith) (t ∷ ts)
        ((count-eq-zero_iff (is_old now) (t ∷ ts)).0 (ground arith));
}

check_spread_complete :
    (now d t : ℕ) (ts : List ℕ) → Fits now d (t ∷ ts) → check_spread now d (t ∷ ts) ≡ valid
unfolding check_spread abs_diff
check_spread_complete now d t ts f =
    let low : f.earliest ≡ min_of t ts = omega (
      arith,
      All-Elem (λ u. f.earliest ≤ u) (t ∷ ts) (min_of t ts) f.earliest_bound (min_of_lem t ts).0,
      All-Elem (λ u. min_of t ts ≤ u) (t ∷ ts) f.earliest (min_of_lem t ts).1 f.earliest_among,
    ) in
    let high : f.latest ≡ max_of t ts = omega (
      arith,
      All-Elem (λ u. u ≤ f.latest) (t ∷ ts) (max_of t ts) f.latest_bound (max_of_lem t ts).0,
      All-Elem (λ u. u ≤ max_of t ts) (t ∷ ts) f.latest (max_of_lem t ts).1 f.latest_among,
    ) in
    let no_future : count (ltb now) (t ∷ ts) ≡ 0 =
      (count-eq-zero_iff (ltb now) (t ∷ ts)).1
        (All-map (λ x (h : x ≤ now). ground arith) (t ∷ ts) f.not_future) in
    let no_old : count (is_old now) (t ∷ ts) ≡ 0 =
      (count-eq-zero_iff (is_old now) (t ∷ ts)).1
        (All-map (λ x (h : now ≤ x + one_week_ms). ground arith) (t ∷ ts) f.not_old) in
    ground (arith, f.spread_low, f.spread_high)

-- Nothing to check without inputs.
abbrev pub FitsIfAny : ℕ → ℕ → List ℕ → Type 0
FitsIfAny now d [] = Unit
FitsIfAny now d (t ∷ ts) = Fits now d (t ∷ ts)

-- A report that passes: its duration lies between 100 ms and a day, every timestamp is a number that
-- is not negative, and the timestamps, if there are any, fit.
pub record IsTimely (now : ℕ) (s : SessionData) : Type 0 where
  pub duration : ℕ
  pub timestamps : List ℕ
  pub reported : s.duration ≡ pos duration
  pub long_enough : min_duration_ms ≤ duration
  pub short_enough : duration ≤ max_duration_ms
  pub numbers :
      map (λ (i : SessionInput). i.timestamp) (inputs_of s) ≡ map (λ (n : ℕ). at (pos n)) timestamps
  pub fits : FitsIfAny now duration timestamps

check_spread_sound_any :
    (now d : ℕ) (ts : List ℕ) → check_spread now d ts ≡ valid → FitsIfAny now d ts
check_spread_sound_any now d [] e = tt
check_spread_sound_any now d (t ∷ ts) e = check_spread_sound now d t ts e

check_spread_complete_any :
    (now d : ℕ) (ts : List ℕ) → FitsIfAny now d ts → check_spread now d ts ≡ valid
check_spread_complete_any now d [] f = unfold check_spread in refl
check_spread_complete_any now d (t ∷ ts) f = check_spread_complete now d t ts f

check_duration_sound :
    (now : ℕ) (d : ℤ) (stamps : List Timestamp)
    → check_duration now d stamps ≡ valid
    → (n : ℕ) × (d ≡ pos n)
      × (min_duration_ms ≤ n)
      × (n ≤ max_duration_ms)
      × (ts : List ℕ) × (stamps ≡ map (λ (n : ℕ). at (pos n)) ts)
      × FitsIfAny now n ts
unfolding check_duration check_inputs
check_duration_sound now (negsuc n) stamps e = cc
check_duration_sound now (pos n) stamps e = elim (Stamps-cases (check_stamps 0 stamps)) [
  | inl (r, x) ↦ ground arith
  | inr (ts, x) ↦ (
    n,
    refl,
    ground arith,
    ground arith,
    ts,
    map_of_good 0 stamps ts x,
    check_spread_sound_any now n ts (ground arith),
  )
]

-- The timing check accepts a report exactly if it is timely.
pub validate_session_timing-valid_iff :
    (now : ℕ) (s : SessionData) → (validate_session_timing now s ≡ valid) ↔ IsTimely now s
unfolding validate_session_timing
validate_session_timing-valid_iff now s = (
  λ e.
      let (n, d, low, high, ts, nums, f) = check_duration_sound now s.duration _ e in
      record {
        duration = n;
        timestamps = ts;
        reported = d;
        long_enough = low;
        short_enough = high;
        numbers = nums;
        fits = f;
      },
  λ t.
      rw (t.reported, t.numbers)
        (unfold check_duration check_inputs in
          ground (
            arith,
            check_stamps-map 0 t.timestamps,
            check_spread_complete_any now t.duration t.timestamps t.fits,
            t.long_enough,
            t.short_enough,
          )),
)
