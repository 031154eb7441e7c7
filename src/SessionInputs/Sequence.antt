-- ===== src/SessionInputs/Sequence.antt =====
-- validateInputSequence, on inputs whose timestamps have passed validateSessionTiming and so are
-- numbers that are not negative.
pub mod Windows
pub mod Valid
use proof_stell_backend.Common.{
  ℕ, zero, suc, ◌+◌, ◌/◌, String, Bool, true, false, Option, none, some, List, [], ◌∷◌, length, ltb,
  leb, ◌==◌, ◌&&◌, if◌then◌else◌, map, ◌===◌,
}
use proof_stell_backend.Common.Int.{ℤ, ltb_ℤ}
use proof_stell_backend.Common.StringSet.{add}
use proof_stell_backend.SessionInputs.{
  Reason, same_timestamp, before_previous, sequence_not_greater, too_many_in_second,
  too_many_in_100ms, too_many_clients, ValidationResult, valid, invalid, max_inputs_per_second,
  max_inputs_per_100ms,
}

pub record TimedInput : Type 0 where
  pub timestamp : ℕ
  pub sequence : Option ℤ
  pub client_id : Option String

-- `first else second`: an early return, or the checks that follow
infixr 5 ◌orelse◌
abbrev pub ◌orelse◌ : ValidationResult → ValidationResult → ValidationResult
valid orelse next = next
invalid r orelse next = invalid r

-- A `Map<number, number>` of counters, read with `|| 0`.
abbrev pub bump : (ℕ → ℕ) → ℕ → ℕ → ℕ
bump counts k j = if k == j then suc (counts k) else counts j

-- for (const input of inputs) { count up map[window(input)]; if it passes the limit, return }
unfoldable pub check_windows :
    (ℕ → ℕ) → ℕ → (ℕ → Reason) → (ℕ → ℕ) → List TimedInput → ValidationResult
check_windows window limit reason counts [] = valid
check_windows window limit reason counts (x ∷ xs) =
    let k = window x.timestamp in
    let rest = check_windows window limit reason (bump counts k) xs in
    if ltb limit (suc (counts k)) then invalid (reason x.timestamp) else rest

-- for (let i = 1; i < inputs.length; i++) inputs[i] against inputs[i - 1]
unfoldable pub check_ascending : ℕ → TimedInput → List TimedInput → ValidationResult
check_ascending i previous [] = valid
check_ascending i previous (x ∷ xs) =
    let rest = check_ascending (suc i) x xs in
    if ltb x.timestamp previous.timestamp then invalid (before_previous i) else rest

abbrev pub not_greater : Option ℤ → Option ℤ → Bool
not_greater (some a) (some b) = if ltb_ℤ b a then false else true
not_greater _ _ = false

-- the same loop over the sequence numbers, where both neighbours have one
unfoldable pub check_numbers : ℕ → Option ℤ → List TimedInput → ValidationResult
check_numbers i previous [] = valid
check_numbers i previous (x ∷ xs) =
    let rest = check_numbers (suc i) x.sequence xs in
    if not_greater x.sequence previous then invalid (sequence_not_greater i) else rest

-- if (inputs[0]?.sequence !== undefined)
unfoldable pub check_sequence : TimedInput → List TimedInput → ValidationResult
check_sequence x xs = elim x.sequence [ none ↦ valid | some n ↦ check_numbers 1 (some n) xs ]

-- A client id that is missing or empty is not counted.
abbrev pub truthy : Option String → Bool
truthy none = false
truthy (some s) = if s === "" then false else true

abbrev pub note_client : List String → Option String → List String
note_client ids none = ids
note_client ids (some s) = if s === "" then ids else add ids s

-- The keys of `clientIdMap`; its counts are not used.
unfoldable pub collect_clients : List String → List TimedInput → List String
collect_clients ids [] = ids
collect_clients ids (x ∷ xs) = collect_clients (note_client ids x.client_id) xs

-- if (inputs[0]?.clientId) …
unfoldable pub check_clients : TimedInput → List TimedInput → ValidationResult
check_clients x xs =
    let clients = length (collect_clients [] (x ∷ xs)) in
    if truthy x.client_id
    then if ltb 3 clients then invalid (too_many_clients clients) else valid
    else valid

-- validateInputSequence(inputs)
unfoldable pub validate_input_sequence : List TimedInput → ValidationResult
validate_input_sequence [] = valid
validate_input_sequence (x ∷ xs) =
    check_windows (λ t. t) 5 same_timestamp (λ _. 0) (x ∷ xs)
    orelse check_ascending 1 x xs
    orelse check_sequence x xs
    orelse check_windows (λ t. t / 1000) max_inputs_per_second too_many_in_second (λ _. 0) (x ∷ xs)
    orelse check_windows (λ t. t / 100) max_inputs_per_100ms too_many_in_100ms (λ _. 0) (x ∷ xs)
    orelse check_clients x xs
