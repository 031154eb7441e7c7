-- ===== src/ScheduledChallenges/Transitions.antt =====
-- What processScheduledChallenges does to the status of a challenge.
use proof_stell_backend.Common.{
  ℕ, ◌≤◌, ◌≡◌, refl, ap, ◌∙◌, true, false, Option, List, [], ◌∷◌, if◌then◌else◌, leb, map, arith,
}
use proof_stell_backend.ScheduledChallenges.{
  ScheduleStatus, pending, active, completed, expired, ScheduledChallenge, is_over, activate,
  expire, Job, process,
}

-- The status that a challenge should have at a time, independently of the order of the queries
abbrev pub due_status : ℕ → ScheduleStatus → ℕ → Option ℕ → ScheduleStatus
due_status now pending scheduled expires =
    if leb scheduled now then if is_over now expires then expired else active else pending
due_status now active scheduled expires = if is_over now expires then expired else active
due_status now completed scheduled expires = completed
due_status now expired scheduled expires = expired

abbrev pub brought_up : ℕ → ScheduledChallenge → ScheduledChallenge
brought_up now c = record c { status = due_status now c.status c.scheduled_for c.expires_at }

step-brought_up :
    (now : ℕ) (c : ScheduledChallenge) → expire now (activate now c) ≡ brought_up now c
unfolding activate expire
step-brought_up now c = ground arith

activate-later :
    (now later : ℕ) (c : ScheduledChallenge)
    → now ≤ later
    → brought_up later (activate now c) ≡ brought_up later c
unfolding activate
activate-later now later c le = ground arith

brought_up-later :
    (now later : ℕ) (c : ScheduledChallenge)
    → now ≤ later
    → brought_up later (brought_up now c) ≡ brought_up later c
brought_up-later now later c le = ground arith

-- The rows that a job leaves, whether or not one of its queries fails
rows-later :
    (q : Job) (later : ℕ) (rows : List ScheduledChallenge)
    → q.now ≤ later
    → map (brought_up later) (process q rows).0 ≡ map (brought_up later) rows
unfolding process
rows-later q later [] le = ground arith
rows-later q later (c ∷ rest) le = ground (
  arith,
  rows-later q later rest le,
  step-brought_up q.now c,
  activate-later q.now later c le,
  brought_up-later q.now later c le,
)

both-brought_up :
    (now : ℕ) (rows : List ScheduledChallenge)
    → map (expire now) (map (activate now) rows) ≡ map (brought_up now) rows
both-brought_up now [] = refl
both-brought_up now (c ∷ rest) = ground (arith, step-brought_up now c, both-brought_up now rest)

-- A run of the job whose queries succeed gives every challenge the status that it should have at that
-- time, also after any earlier run, whether that succeeded, or failed before or between its queries.
pub process-heals :
    (q q' : Job) (rows : List ScheduledChallenge)
    → q.now ≤ q'.now
    → q'.activation_fails ≡ false
    → q'.expiration_fails ≡ false
    → process q' (process q rows).0 ≡ (map (brought_up q'.now) rows, true)
process-heals q q' rows le a e =
    let left = (process q rows).0 in
    let all : process q' left ≡ (map (brought_up q'.now) left, true) =
      unfold process in ground (arith, both-brought_up q'.now left) in
    all ∙ ap (λ l. (l, true)) (rows-later q q'.now rows le)
