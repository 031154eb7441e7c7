-- ===== src/Integrity/Actions.antt =====
-- validateActionSequence and validateRateLimit of
-- interfaces/game-sessions/session-integrity.service.ts.
pub mod Sound
pub mod Rate
use proof_stell_backend.Common.{
  ℕ, zero, suc, ◌+◌, ◌*◌, String, Bool, true, false, Option, none, some, List, [], ◌∷◌,
  if◌then◌else◌, ltb, leb, ◌==◌, ◌===◌, ◌&&◌, ◌||◌, not, length, filter, count, map, some_of,
}
use proof_stell_backend.Common.Int.{ℤ, pos, negsuc}
use proof_stell_backend.Integrity.{
  GameAction, GameSession, SessionValidationRules, IntegrityCheckResult, result, passed, failed,
  warning, low, medium, high, critical, action_sequence, rate_limiting, or_else,
}

-- session.actions || []
abbrev pub actions_of : GameSession → List GameAction
actions_of s = elim s.actions [ none ↦ [] | some l ↦ l ]

-- actions.find((a) => a.type === type)
unfoldable pub find_type : String → List GameAction → Option GameAction
find_type t [] = none
find_type t (a ∷ rest) = if a.type === t then some a else find_type t rest

abbrev pub has_type : String → List GameAction → Bool
has_type t actions = some_of (λ (a : GameAction). a.type === t) actions

-- rules.requiredActions.filter((required) => !actionTypes.has(required))
unfoldable pub missing_actions : List String → List GameAction → List String
missing_actions required actions = filter (λ t. not (has_type t actions)) required

abbrev pub starts_late : Option GameAction → Option GameAction → Bool
starts_late none c = false
starts_late (some s) none = false
starts_late (some s) (some c) = ltb c.timestamp s.timestamp

unfoldable pub same_number : ℤ → ℤ → Bool
same_number (pos m) (pos n) = m == n
same_number (negsuc m) (negsuc n) = m == n
same_number (pos m) (negsuc n) = false
same_number (negsuc m) (pos n) = false

-- The elements of `new Set(sequences)`: of equal ones the last.
unfoldable pub distinct : List ℤ → List ℤ
distinct [] = []
distinct (x ∷ xs) = let rest = distinct xs in if some_of (same_number x) xs then rest else x ∷ rest

-- private validateActionSequence, at the time `now`
unfoldable pub validate_action_sequence :
    ℕ → GameSession → SessionValidationRules → IntegrityCheckResult
validate_action_sequence now session rules =
    let actions = actions_of session in
    let sequences = map (λ (a : GameAction). a.sequence) actions in
    if ltb 0 (length (missing_actions rules.required_actions actions))
    then result action_sequence failed high
    else if starts_late (find_type "start" actions) (find_type "complete" actions)
    then result action_sequence failed critical
    else if not (length sequences == length (distinct sequences))
    then result action_sequence failed high
    else if ltb 0 (length (filter (λ (a : GameAction). ltb now a.timestamp) actions))
    then result action_sequence failed high
    else result action_sequence passed low

abbrev pub is_zero : ℤ → Bool
is_zero (pos n) = n == 0
is_zero (negsuc n) = false

-- actions.length * 1000 / duration > maxAllowed; a rate over a negative duration is not positive
unfoldable pub exceeds_rate : ℕ → ℤ → ℕ → Bool
exceeds_rate n (pos d) allowed = ltb (allowed * d) (n * 1000)
exceeds_rate n (negsuc d) allowed = false

-- Actions within one second from `start` on
abbrev pub in_window : ℕ → GameAction → Bool
in_window start a = leb start a.timestamp && leb a.timestamp (start + 1000)

-- The loop over i < actions.length - 5: the actions from i on are more than five.
unfoldable pub has_burst : List GameAction → Bool
has_burst [] = false
has_burst (a ∷ rest) =
    let later = has_burst rest in
    (ltb 5 (length (a ∷ rest)) && ltb 5 (count (in_window a.timestamp) (a ∷ rest))) || later

-- private validateRateLimit
unfoldable pub validate_rate_limit : GameSession → SessionValidationRules → IntegrityCheckResult
validate_rate_limit session rules =
    let actions = actions_of session in
    let duration = or_else session.duration (pos 1) in
    if is_zero duration
    then result rate_limiting failed critical
    else if exceeds_rate (length actions) duration rules.max_actions_per_second
    then result rate_limiting failed high
    else if has_burst actions
    then result rate_limiting warning medium
    else result rate_limiting passed low
