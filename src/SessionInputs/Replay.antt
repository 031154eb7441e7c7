-- ===== src/SessionInputs/Replay.antt =====
-- detectReplayAttack, over the entries of the cache that it uses. The three key formats start with
-- different words, so they are three tables. Expiry is not modelled: an entry is one that the cache
-- still has.
pub mod Detection
use proof_stell_backend.Common.{
  ℕ, zero, suc, ◌+◌, String, Bool, true, false, Option, none, some, List, [], ◌∷◌, ◌++◌, length,
  filter, ltb, ◌==◌, ◌&&◌, ◌===◌, if◌then◌else◌,
}
use proof_stell_backend.SessionInputs.Sequence.{TimedInput}

-- SessionData of a report that passed the timing check, with its duration as JSON prints it, and the
-- `userId` of the request
pub record Submission : Type 0 where
  pub duration : String
  pub inputs : List TimedInput
  pub session_id : Option String
  pub signature : Option String
  pub user_id : Option String

-- calculatePayloadHash: the printed object has these four parts
pub record PayloadHash : Type 0 where
  pub duration : String
  pub input_count : ℕ
  pub first_timestamp : ℕ
  pub last_timestamp : ℕ

unfoldable pub first_stamp : List TimedInput → ℕ
first_stamp [] = 0
first_stamp (x ∷ xs) = x.timestamp

unfoldable pub last_stamp : List TimedInput → ℕ
last_stamp [] = 0
last_stamp (x ∷ []) = x.timestamp
last_stamp (x ∷ y ∷ ys) = last_stamp (y ∷ ys)

unfoldable pub calculate_payload_hash : Submission → PayloadHash
calculate_payload_hash s = record {
  duration = s.duration;
  input_count = length s.inputs;
  first_timestamp = first_stamp s.inputs;
  last_timestamp = last_stamp s.inputs;
}

unfoldable pub same_hash : PayloadHash → PayloadHash → Bool
same_hash a b =
    a.duration === b.duration
    && (a.input_count == b.input_count
        && (a.first_timestamp == b.first_timestamp && a.last_timestamp == b.last_timestamp))

-- `replay:…` and `signature:…` hold the time of the submission, `session_rate:…` recent times.
pub record ReplayCache : Type 0 where
  pub payloads : String → PayloadHash → Option ℕ
  pub signatures : String → String → Option ℕ
  pub rates : String → List ℕ

-- What the cache does during one of the three checks: it fails at once, it answers the read and
-- fails the write, or it works.
pub data Health : Type 0 where
  down read_only up : Health

pub record Healths : Type 0 where
  pub payload : Health
  pub signature : Health
  pub rate : Health

pub data Suspicion : Type 0 where
  duplicate_payload : ℕ → Suspicion
  signature_reuse : ℕ → Suspicion
  high_rate : ℕ → Suspicion

-- `if (existing)`: a time of zero is falsy
abbrev pub present : Option ℕ → Option ℕ
present none = none
present (some zero) = none
present (some (suc t)) = some (suc t)

abbrev pub non_empty : Option String → Option String
non_empty none = none
non_empty (some s) = if s === "" then none else some s

unfoldable pub store_payload : ReplayCache → String → PayloadHash → ℕ → ReplayCache
store_payload c user h now = record c {
  payloads = λ u k. if u === user && same_hash k h then some now else c.payloads u k;
}

unfoldable pub store_signature : ReplayCache → String → String → ℕ → ReplayCache
store_signature c user sig now = record c {
  signatures = λ u k. if u === user && k === sig then some now else c.signatures u k;
}

unfoldable pub store_rate : ReplayCache → String → List ℕ → ReplayCache
store_rate c user times = record c { rates = λ u. if u === user then times else c.rates u }

-- A check that the cache disturbs is skipped; one that finds something ends the detection.
unfoldable pub check_payload :
    Health → ReplayCache → String → PayloadHash → ℕ → ReplayCache × Option Suspicion
check_payload down c user h now = (c, none)
check_payload read_only c user h now = elim (present (c.payloads user h)) [
  | some t ↦ (c, some (duplicate_payload t))
  | none ↦ (c, none)
]
check_payload up c user h now = elim (present (c.payloads user h)) [
  | some t ↦ (c, some (duplicate_payload t))
  | none ↦ (store_payload c user h now, none)
]

unfoldable pub check_signature :
    Health → ReplayCache → String → Option String → ℕ → ReplayCache × Option Suspicion
check_signature health c user none now = (c, none)
check_signature down c user (some sig) now = (c, none)
check_signature read_only c user (some sig) now = elim (present (c.signatures user sig)) [
  | some t ↦ (c, some (signature_reuse t))
  | none ↦ (c, none)
]
check_signature up c user (some sig) now = elim (present (c.signatures user sig)) [
  | some t ↦ (c, some (signature_reuse t))
  | none ↦ (store_signature c user sig now, none)
]

-- t > now - 60000
abbrev pub is_recent : ℕ → ℕ → Bool
is_recent now t = ltb now (t + 60000)

unfoldable pub check_rate : Health → ReplayCache → String → ℕ → ReplayCache × Option Suspicion
check_rate down c user now = (c, none)
check_rate health c user now =
    let recent = filter (is_recent now) (c.rates user) in
    let kept = filter (is_recent now) (c.rates user ++ now ∷ []) in
    if ltb 10 (length recent)
    then (c, some (high_rate (length recent)))
    else elim health [ up ↦ (store_rate c user kept, none) | _ ↦ (c, none) ]

abbrev pub continue_unless :
    ReplayCache × Option Suspicion
    → (ReplayCache → ReplayCache × Option Suspicion)
    → ReplayCache × Option Suspicion
continue_unless r next = elim r.1 [ some s ↦ (r.0, some s) | none ↦ next r.0 ]

unfoldable pub detect_for :
    Healths → ReplayCache → Submission → String → ℕ → ReplayCache × Option Suspicion
detect_for hs c s user now =
    continue_unless (check_payload hs.payload c user (calculate_payload_hash s) now) λ c'.
      continue_unless (check_signature hs.signature c' user (non_empty s.signature) now)
        λ c''. check_rate hs.rate c'' user now

-- detectReplayAttack(sessionData, userId) at the time `now`
unfoldable pub detect_replay_attack :
    Healths → ReplayCache → Submission → ℕ → ReplayCache × Option Suspicion
detect_replay_attack hs c s now = elim (non_empty s.session_id) [
  | none ↦ (c, none)
  | some _ ↦ elim (non_empty s.user_id) [
    | none ↦ (c, none)
    | some user ↦ detect_for hs c s user now
  ]
]
