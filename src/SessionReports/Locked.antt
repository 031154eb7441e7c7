-- ===== src/SessionReports/Locked.antt =====
-- The locks of reportSession in game-session/game-session.service.ts: its step 'update-leaderboard'
-- holds the very lock that submitScore of leaderboard/Leaderboard.service.ts wants.
use proof_stell_backend.Common.{
  ℕ, ◌≡◌, refl, ap, String, false, none, some, List, ◌∷◌, arith, Option-cases, inl, inr,
}
use proof_stell_backend.Common.Result.{err, is_ok}
use proof_stell_backend.Redis.{live, Redis, RedisLaws}
use proof_stell_backend.Lock.{LockState}
use proof_stell_backend.Cache.Locking.{Surroundings, acquire_lock}
use proof_stell_backend.Cache.Locking.Nested.{IsTaken, with_lock-taken, attempt_from-takes}
use proof_stell_backend.Idempotency.{check}
use proof_stell_backend.Saga.{SagaStep, create, step}
use proof_stell_backend.Saga.Rollback.{Ran, execute-cases}
use proof_stell_backend.Leaderboard.{
  Board, no_lock, update_key, submit_score, submit_locked, lock_ttl,
}
use proof_stell_backend.SessionReports.Steps.{
  Context, Report, ReportError, report_lock_key, submit_under_lock, update_leaderboard,
}
use proof_stell_backend.SessionReports.Saga.{
  ReportState, report_saga, report_key, new_context, close, report_session,
}

-- What keeps the lock during the retries of submitScore: others do not take it, and its TTL of 30
-- seconds does not run out.
abbrev pub KeepsLock : (R : Redis) → RedisLaws R → String → Surroundings R → Type 0
KeepsLock R L key w =
    (i : ℕ) (s : LockState R) → IsTaken R L key s → IsTaken R L key (w.meanwhile i s)

Ran-cons {ℓ κ} :
    {C : Type ℓ} {E : Type κ} {s : SagaStep C E} {rest : List (SagaStep C E)} {c d : C}
    → Ran (s ∷ rest) c d
    → (c' : C) × (s.execute c ≡ (c', none)) × Ran rest c' d
Ran-cons (Ran.then e ran) = (_, e, ran)

module _ {R : Redis} (L : RedisLaws R) (q : Report R) (online : (i : ℕ) → q.lock.link i ≡ live)
    (kept : KeepsLock R L (update_key q.user_id) q.submission.update_lock) where
  submit_score-refused :
      (score : ℕ) (b : Board) (ls : LockState R)
      → IsTaken R L (update_key q.user_id) ls
      → (submit_score q.submission q.user_id score b ls).1 ≡ (b, err no_lock)
  unfolding submit_score
  submit_score-refused score b ls taken =
      let refused =
        with_lock-taken R L q.submission.config q.submission.update_lock (update_key q.user_id)
          lock_ttl kept q.submission.update_link (submit_locked q.submission q.user_id score b) ls
          taken in
      rw (refused, submit_score) refl

  -- The step 'update-leaderboard' always throws.
  update_leaderboard-throws :
      (c : Context R) → (e : ReportError) × ((update_leaderboard q c).1 ≡ some e)
  unfolding update_leaderboard submit_under_lock
  update_leaderboard-throws c =
      let a = acquire_lock R q.config q.lock (report_lock_key q.user_id) lock_ttl 3 c.locks in
      elim (Option-cases a.lock) [
        | inl refused ↦ (ReportError.not_locked, rw (refused, update_leaderboard) refl)
        | inr (lock, got) ↦
            let taken : IsTaken R L (update_key q.user_id) a.state =
              unfold report_lock_key update_key acquire_lock in
              attempt_from-takes R L q.config q.lock (report_lock_key q.user_id) lock_ttl online 3 0
                0 c.locks lock got in
            let refused = submit_score-refused q.dto.score c.board a.state taken in
            (
              ReportError.from_leaderboard no_lock,
              rw (got, update_leaderboard) (rw (refused, submit_under_lock) refl),
            )
      ]

  -- A run of all steps would have run the fourth one without an exception.
  report_saga-stops : (c d : Context R) → Ran (report_saga q).steps c d → ⊥
  unfolding report_saga step create
  report_saga-stops c d ran =
      let (c1, _, ran1) = Ran-cons ran in
      let (c2, _, ran2) = Ran-cons ran1 in
      let (c3, _, ran3) = Ran-cons ran2 in
      let (c4, fine, _) = Ran-cons ran3 in
      let (e, thrown) = update_leaderboard-throws c3 in
      let returned = ap (λ r. r.1) fine in ground (arith, thrown, returned)

  -- Over a live connection, and while the lock does not run out, no report that is not answered from a
  -- stored result is ever accepted: it throws, and the sessions, the input events, the users and the
  -- badges are as before.
  pub report_session-never :
      (s : ReportState R)
      → (check q.now (report_key q) s.results).1 ≡ none
      → (is_ok (report_session q s).1 ≡ false) × ((report_session q s).0.db ≡ s.db)
  unfolding report_session close
  report_session-never s new =
      let s' = record s { results = (check q.now (report_key q) s.results).0 } in
      rw (new, report_session)
        (elim (execute-cases (report_saga q) (new_context q s')) [
          | inl (ran, _) ↦ absurd (report_saga-stops (new_context q s') _ ran)
          | inr (e, _, thrown) ↦ rw (thrown, close) (refl, refl)
        ])
