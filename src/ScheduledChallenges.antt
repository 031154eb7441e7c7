-- ===== src/ScheduledChallenges.antt =====
-- scheduled-challenges/services/scheduled-challenge.service.ts: challenges that become active and
-- expire, by jobs under the distributed lock. The rows are those of the table. The clock is read once
-- for a job; the local dates that a job computes, what the generation service makes, and which calls
-- of the database fail, come from outside.
pub mod Difficulty
pub mod Levels
pub mod Transitions
pub mod Jobs
mod Tests
use proof_stell_backend.Common.{
  ℕ, String, Bool, true, false, Option, none, some, List, [], ◌∷◌, ◌++◌, if◌then◌else◌, leb, ◌===◌,
  ◌&&◌, ◌||◌, map, filter,
}
use proof_stell_backend.Common.Int.{ℤ}
use proof_stell_backend.Common.Sorting.{sort_by}
use proof_stell_backend.Redis.{Redis, Link}
use proof_stell_backend.Lock.{LockConfig, LockState, AcquiredLock, acquire, release}

-- enum ScheduleStatus
pub data ScheduleStatus : Type 0 where
  pending active completed expired : ScheduleStatus

-- The entity ScheduledChallenge, without its metadata
pub record ScheduledChallenge : Type 0 where
  pub id : ℕ
  pub challenge_id : String
  pub user_id : Option String
  pub status : ScheduleStatus
  pub scheduled_for : ℕ
  pub expires_at : Option ℕ
  pub is_global : Bool

abbrev pub is_pending : ScheduleStatus → Bool
is_pending pending = true
is_pending active = false
is_pending completed = false
is_pending expired = false

abbrev pub is_active : ScheduleStatus → Bool
is_active active = true
is_active pending = false
is_active completed = false
is_active expired = false

-- "expiresAt" IS NOT NULL AND "expiresAt" <= :now
abbrev pub is_over : ℕ → Option ℕ → Bool
is_over now none = false
is_over now (some t) = leb t now

-- UPDATE … SET status = 'active' WHERE status = 'pending' AND "scheduledFor" <= :now
unfoldable pub activate : ℕ → ScheduledChallenge → ScheduledChallenge
activate now c =
    if is_pending c.status && leb c.scheduled_for now then record c { status = active } else c

-- UPDATE … SET status = 'expired' WHERE status = 'active' AND … <= :now
unfoldable pub expire : ℕ → ScheduledChallenge → ScheduledChallenge
expire now c =
    if is_active c.status && is_over now c.expires_at then record c { status = expired } else c

abbrev pub process_key : String
process_key = "lock:scheduler:scheduled-challenge:process"

abbrev pub daily_key : String
daily_key = "lock:scheduler:scheduled-challenge:daily"

abbrev pub weekly_key : String
weekly_key = "lock:scheduler:scheduled-challenge:weekly"

-- What the outside contributes to a job: its lock calls, the clock, and which queries fail
pub record Job : Type 0 where
  pub config : LockConfig
  pub acquire_link : Link
  pub release_link : Link
  pub token : String
  pub ttl : ℤ
  pub now : ℕ
  pub activation_fails : Bool
  pub expiration_fails : Bool

-- The two queries of processScheduledChallenges; false if one of them throws
unfoldable pub process : Job → List ScheduledChallenge → List ScheduledChallenge × Bool
process q rows =
    if q.activation_fails
    then (rows, false)
    else let activated = map (activate q.now) rows in
      if q.expiration_fails then (activated, false) else (map (expire q.now) activated, true)

module _ {R : Redis} where
  -- if (!lock) return; try { … } finally { await this.lockService.release(lock) }
  unfoldable pub under_lock :
      Job
      → String
      → (List ScheduledChallenge → List ScheduledChallenge × Bool)
      → LockState R
      → List ScheduledChallenge
      → LockState R × (List ScheduledChallenge × Bool)
  under_lock q key work ls rows =
      let (ls', lock) = acquire R q.config q.acquire_link q.token key q.ttl ls in
      elim lock [
        | none ↦ (ls', (rows, true))
        | some l ↦ ((release R q.release_link (some l) ls').0, work rows)
      ]

  -- async processScheduledChallenges()
  unfoldable pub process_scheduled_challenges :
      Job → LockState R → List ScheduledChallenge → LockState R × (List ScheduledChallenge × Bool)
  process_scheduled_challenges q ls rows = under_lock q process_key (process q) ls rows

-- What a generation makes for one type: nothing if the generation service or the save throws, and
-- otherwise the ids of the new row and of its challenge
pub record Generation : Type 0 where
  pub made : String → Option (ℕ × String)
  pub scheduled_for : ℕ
  pub expires_at : ℕ

-- for (const type of challengeTypes) { try { … } catch { … } }
unfoldable pub generate_each :
    Generation → List String → List ScheduledChallenge → List ScheduledChallenge
generate_each g [] rows = rows
generate_each g (type ∷ types) rows = generate_each g types (elim (g.made type) [
  | none ↦ rows
  | some (id, challenge) ↦
      rows
      ++ record {
        id = id;
        challenge_id = challenge;
        user_id = none;
        status = pending;
        scheduled_for = g.scheduled_for;
        expires_at = some g.expires_at;
        is_global = true;
      }
        ∷ []
])

-- Object.values(ChallengeType)
abbrev pub challenge_types : List String
challenge_types = "coding" ∷ "quiz" ∷ "problem_solving" ∷ "algorithm" ∷ []

abbrev pub weekly_types : List String
weekly_types = "coding" ∷ "algorithm" ∷ []

module _ {R : Redis} where
  -- async generateDailyChallenges()
  unfoldable pub generate_daily_challenges :
      Job
      → Generation
      → LockState R
      → List ScheduledChallenge
      → LockState R × (List ScheduledChallenge × Bool)
  generate_daily_challenges q g ls rows =
      under_lock q daily_key (λ l. (generate_each g challenge_types l, true)) ls rows

  -- async generateWeeklyChallenges()
  unfoldable pub generate_weekly_challenges :
      Job
      → Generation
      → LockState R
      → List ScheduledChallenge
      → LockState R × (List ScheduledChallenge × Bool)
  generate_weekly_challenges q g ls rows =
      under_lock q weekly_key (λ l. (generate_each g weekly_types l, true)) ls rows

-- async scheduleChallenge(dto)
unfoldable pub schedule_challenge :
    ScheduledChallenge → List ScheduledChallenge → List ScheduledChallenge
schedule_challenge c rows = rows ++ c ∷ []

abbrev pub latest_first : ScheduledChallenge → ScheduledChallenge → Bool
latest_first a b = leb b.scheduled_for a.scheduled_for

abbrev pub is_for : String → ScheduledChallenge → Bool
is_for user c = elim c.user_id [ none ↦ false | some u ↦ u === user ]

-- async getActiveScheduledChallenges(userId): an empty id is as none
unfoldable pub get_active_scheduled_challenges :
    Option String → List ScheduledChallenge → List ScheduledChallenge
get_active_scheduled_challenges user rows = sort_by latest_first (
    filter
      (λ c.
        is_active c.status
        && elim user [ none ↦ c.is_global | some u ↦ if u === "" then c.is_global else is_for u c ])
      rows)

-- async getUserScheduledChallenges(userId)
unfoldable pub get_user_scheduled_challenges :
    String → List ScheduledChallenge → List ScheduledChallenge
get_user_scheduled_challenges user rows = sort_by latest_first (
    filter (λ c. (is_for user c && is_active c.status) || (c.is_global && is_active c.status)) rows)
