-- ===== src/Leaderboard.antt =====
-- leaderboard/Leaderboard.service.ts: scores with ranks. The rows are those of the table, a score is a
-- natural number (the DTO has @Min(0)), and times are in milliseconds. The two locks are those of the
-- cache service. Metrics are not modelled; `posted` says whether what follows the commit, the
-- notification and the realtime events, goes through.
pub mod Ranks
pub mod Scores
mod Tests
use Prim.Native.String.{◌++◌ as append_text}
use proof_stell_backend.Common.{
  ℕ, ◌+◌, ◌-◌, ◌*◌, String, Bool, true, false, Option, none, some, List, [], ◌∷◌, ◌++◌,
  if◌then◌else◌, ltb, leb, ◌==◌, ◌===◌, ◌&&◌, ◌||◌, not, map, count, length, take, drop,
}
use proof_stell_backend.Common.Int.{ℤ, pos}
use proof_stell_backend.Common.Result.{Result, ok, err}
use proof_stell_backend.Common.Sorting.{sort_by}
use proof_stell_backend.Redis.{Redis, Link}
use proof_stell_backend.Lock.{LockConfig, LockState}
use proof_stell_backend.Cache.Locking.{Surroundings, with_lock}
use proof_stell_backend.Idempotency.{StoredResult, generate_key, check, store}

-- The entity Leaderboard
pub record Entry : Type 0 where
  pub id : ℕ
  pub user_id : String
  pub score : ℕ
  pub rank : ℕ
  pub updated_at : ℕ

-- What is sent after a commit
pub data Posting : Type 0 where
  entered : String → ℕ → Posting
  rank_changed : String → ℕ → ℕ → ℕ → Posting
  score_changed : String → Posting

pub record Board : Type 0 where
  pub rows : List Entry
  pub results : List (String × StoredResult Entry)
  pub postings : List Posting

pub data BoardError : Type 0 where
  not_higher : BoardError
  no_lock : BoardError
  not_in_leaderboard : BoardError
  not_posted : BoardError

-- Which row stands before which: ORDER BY score DESC, "updatedAt" ASC
abbrev pub before : Entry → Entry → Bool
before a b = ltb b.score a.score || (a.score == b.score && ltb a.updated_at b.updated_at)

-- RANK() OVER (…) of a row: the rows before it, and one
abbrev pub rank_of : List Entry → Entry → ℕ
rank_of rows e = count (λ a. before a e) rows + 1

abbrev pub with_rank : List Entry → Entry → Entry
with_rank rows e = record e { rank = rank_of rows e }

-- private recalculateRanksWithManager
unfoldable pub recalculate_ranks_with_manager : List Entry → List Entry
recalculate_ranks_with_manager rows = map (with_rank rows) rows

-- The row of a user, of which there is one at most
unfoldable pub find_entry : String → List Entry → Option Entry
find_entry user [] = none
find_entry user (e ∷ es) =
    let rest = find_entry user es in if e.user_id === user then some e else rest

-- existing.score = score, saved
unfoldable pub set_score : String → ℕ → ℕ → List Entry → List Entry
set_score user score now [] = []
set_score user score now (e ∷ es) =
    let rest = set_score user score now es in
    if e.user_id === user then record e { score = score; updated_at = now } ∷ es else e ∷ rest

-- The rows that the transaction of submitScoreWithTransaction writes before the ranks are recalculated
unfoldable pub write_score : ℕ → String → ℕ → ℕ → List Entry → Result BoardError (List Entry)
write_score id user score now rows = elim (find_entry user rows) [
  | some e ↦ if leb score e.score then err not_higher else ok (set_score user score now rows)
  | none ↦
      ok
        (rows ++ record { id = id; user_id = user; score = score; rank = 0; updated_at = now } ∷ [])
]

-- CacheKeys.build(CacheKeys.LEADERBOARD_UPDATE, { userId })
unfoldable pub update_key : String → String
update_key user = append_text "leaderboard:user:" user

abbrev pub recalculate_key : String
recalculate_key = "leaderboard:recalculate"

abbrev pub lock_ttl : ℤ
lock_ttl = pos 30000

abbrev pub result_ttl : ℕ
result_ttl = 600000

-- Which message follows the commit
unfoldable pub posting_of : String → Option Entry → Entry → Posting
posting_of user none final = entered user final.rank
posting_of user (some e) final =
    if final.rank == e.rank
    then score_changed user
    else rank_changed user e.rank final.rank final.score

-- What the outside contributes to one submission
pub record Submission (R : Redis) : Type 0 where
  pub new_id : ℕ
  pub now : ℕ
  pub batch : Bool
  pub posted : Bool
  pub config : LockConfig
  pub update_lock : Surroundings R
  pub update_link : Link
  pub rank_lock : Surroundings R
  pub rank_link : Link

module _ {R : Redis} (q : Submission R) where
  -- The recalculation inside the transaction, which is skipped when its lock is not obtained
  unfoldable pub recalculate_locked : List Entry → LockState R → LockState R × List Entry
  recalculate_locked rows ls =
      if q.batch
      then (ls, rows)
      else let (ls', result) =
          with_lock R q.config q.rank_lock q.rank_link recalculate_key lock_ttl
            (λ l. (l, recalculate_ranks_with_manager rows)) ls in
        (ls', elim result [ none ↦ rows | some ranked ↦ ranked ])

  -- From the commit on
  unfoldable pub after_commit :
      String → Option Entry → Board → List Entry → Board × Result BoardError Entry
  after_commit user previous b rows = elim (find_entry user rows) [
    | none ↦ (b, err not_in_leaderboard)
    | some final ↦
        let committed = record b { rows = rows } in
        if q.posted
        then (
          record committed {
            postings = b.postings ++ posting_of user previous final ∷ [];
            results = store q.now result_ttl (generate_key "submit-score" user) final b.results;
          },
          ok final,
        )
        else (committed, err not_posted)
  ]

  -- private submitScoreWithTransaction
  unfoldable pub submit_score_with_transaction :
      String → ℕ → Board → LockState R → LockState R × (Board × Result BoardError Entry)
  submit_score_with_transaction user score b ls =
      elim (write_score q.new_id user score q.now b.rows) [
        | err e ↦ (ls, (b, err e))
        | ok rows ↦
            let (ls', ranked) = recalculate_locked rows ls in
            (ls', after_commit user (find_entry user b.rows) b ranked)
      ]

  -- The work under the update lock
  unfoldable pub submit_locked :
      String → ℕ → Board → LockState R → LockState R × (Board × Result BoardError Entry)
  submit_locked user score b ls =
      let (results, cached) = check q.now (generate_key "submit-score" user) b.results in
      elim cached [
        | some e ↦ (ls, (record b { results = results }, ok e))
        | none ↦ submit_score_with_transaction user score (record b { results = results }) ls
      ]

  -- async submitScore(userId, { score }), and updateScore
  unfoldable pub submit_score :
      String → ℕ → Board → LockState R → LockState R × (Board × Result BoardError Entry)
  submit_score user score b ls =
      let (ls', result) =
        with_lock R q.config q.update_lock q.update_link (update_key user) lock_ttl
          (submit_locked user score b) ls in
      (ls', elim result [ none ↦ (b, err no_lock) | some r ↦ r ])

-- async getGlobalLeaderboard(page, limit): the rows of a page, and the number of all; (page - 1) * limit
unfoldable pub get_global_leaderboard : ℕ → ℕ → List Entry → List Entry × ℕ
get_global_leaderboard page limit rows = (
  take limit (drop ((page - 1) * limit) (sort_by (λ (a b : Entry). leb a.rank b.rank) rows)),
  length rows,
)

-- async getUserLeaderboard(userId)
unfoldable pub get_user_leaderboard : String → List Entry → Result BoardError Entry
get_user_leaderboard user rows = elim (find_entry user rows) [
  | none ↦ err not_in_leaderboard
  | some e ↦ ok e
]

-- async resetLeaderboard(): the rows go, the stored results stay
unfoldable pub reset_leaderboard : Board → Board
reset_leaderboard b = record b { rows = [] }
