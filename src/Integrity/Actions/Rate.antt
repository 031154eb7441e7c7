-- ===== src/Integrity/Actions/Rate.antt =====
-- Which sessions pass the rate check, and which branch of it is never taken.
use proof_stell_backend.Common.{
  ℕ, ◌*◌, ◌≤◌, ◌≡◌, ◌≢◌, ◌↔◌, refl, false, Option, List, [], ◌∷◌, length, count, arith,
  count-le-length,
}
use proof_stell_backend.Common.Int.{ℤ, pos, negsuc}
use proof_stell_backend.Integrity.{
  GameAction, GameSession, SessionValidationRules, passed, critical, or_else,
}
use proof_stell_backend.Integrity.Actions.{
  actions_of, is_zero, exceeds_rate, in_window, has_burst, validate_rate_limit,
}

-- n actions in a session of that many milliseconds are at most the allowed number in a second.
abbrev pub IsPaced : ℕ → ℤ → ℕ → Type 0
IsPaced n (pos d) allowed = n * 1000 ≤ allowed * d
IsPaced n (negsuc d) allowed = Unit

pub exceeds_rate-IsPaced_iff :
    (n : ℕ) (d : ℤ) (allowed : ℕ) → (exceeds_rate n d allowed ≡ false) ↔ IsPaced n d allowed
unfolding exceeds_rate
exceeds_rate-IsPaced_iff n (pos d) allowed = (λ e. ground (arith, e), λ h. ground (arith, h))
exceeds_rate-IsPaced_iff n (negsuc d) allowed = (λ _. tt, λ _. refl)

-- No action is followed, it included, by more than five within a second.
abbrev pub IsSparse : List GameAction → Type 0
IsSparse [] = Unit
IsSparse (a ∷ rest) = (count (in_window a.timestamp) (a ∷ rest) ≤ 5) × IsSparse rest

has_burst-IsSparse_iff :
    (actions : List GameAction) → (has_burst actions ≡ false) ↔ IsSparse actions
unfolding has_burst
has_burst-IsSparse_iff [] = (λ _. tt, λ _. refl)
has_burst-IsSparse_iff (a ∷ rest) =
    let (to, from) = has_burst-IsSparse_iff rest in
    let fewer = count-le-length (in_window a.timestamp) (a ∷ rest) in
    (λ e. (ground (arith, e, fewer), to (ground (arith, e))), λ h. ground (arith, h.0, from (h.1)))

or_else-nonzero : (d : Option ℤ) → is_zero (or_else d (pos 1)) ≡ false
or_else-nonzero d = ground arith

-- The rate check passes exactly if the number of actions per second is at most the allowed one and no
-- action is followed by more than five, it included, within a second; a duration that is missing or 0
-- counts as 1 ms. That the loop stops five actions before the end misses no burst.
pub validate_rate_limit-passed_iff :
    (session : GameSession) (rules : SessionValidationRules)
    → ((validate_rate_limit session rules).status ≡ passed) ↔ (
        IsPaced
          (length (actions_of session))
          (or_else session.duration (pos 1))
          rules.max_actions_per_second
        × IsSparse (actions_of session))
unfolding validate_rate_limit
validate_rate_limit-passed_iff session rules =
    let actions = actions_of session in
    let duration = or_else session.duration (pos 1) in
    let (p, p') = exceeds_rate-IsPaced_iff (length actions) duration rules.max_actions_per_second in
    let (b, b') = has_burst-IsSparse_iff actions in
    let nonzero = or_else-nonzero session.duration in
    (
      λ e. (p (ground (arith, nonzero, e)), b (ground (arith, nonzero, e))),
      λ h. ground (arith, nonzero, p' (h.0), b' (h.1)),
    )

-- The rate check never reports a session of zero duration, whatever its duration is.
pub validate_rate_limit-never_critical :
    (session : GameSession) (rules : SessionValidationRules)
    → (validate_rate_limit session rules).severity ≢ critical
unfolding validate_rate_limit
validate_rate_limit-never_critical session rules e =
    ground (arith, or_else-nonzero session.duration, e)
