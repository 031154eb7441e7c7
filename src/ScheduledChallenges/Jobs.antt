-- ===== src/ScheduledChallenges/Jobs.antt =====
-- What the lock does for the jobs of scheduled-challenge.service.ts, and what it does not.
use proof_stell_backend.Common.{
  ◌≡◌, String, refl, Bool, true, none, some, List, arith, ===_refl, ◌∙◌, ap,
}
use proof_stell_backend.Redis.{Redis, RedisLaws, live}
use proof_stell_backend.Lock.{redis, AcquiredLock, LockState, acquire}
use proof_stell_backend.Lock.Ownership.{acquire_held, acquire_free, release_own}
use proof_stell_backend.ScheduledChallenges.{
  ScheduledChallenge, Job, Generation, daily_key, challenge_types, under_lock, generate_each,
  generate_daily_challenges,
}

module _ {R : Redis} (L : RedisLaws R) where
  -- On a free key a job works on the rows and leaves the key free.
  under_lock_free :
      (q : Job) (key : String) (work : List ScheduledChallenge → List ScheduledChallenge × Bool)
      (ls : LockState R) (rows : List ScheduledChallenge)
      → q.acquire_link ≡ live
      → q.release_link ≡ live
      → R.get ls.store key ≡ none
      → ((under_lock q key work ls rows).1 ≡ work rows)
        × (R.get (under_lock q key work ls rows).0.store key ≡ none)
  unfolding under_lock
  under_lock_free q key work ls rows on off free =
      let (taken, _, stored) = acquire_free R L q.config q.token key q.ttl ls free in
      let mine : AcquiredLock = record { key = key; token = q.token; backend = redis } in
      let ls' = (acquire R q.config live q.token key q.ttl ls).0 in
      let held : R.get ls'.store key ≡ some q.token = ground (arith, stored key, ===_refl key) in
      let (_, freed) = release_own R L mine ls' refl held in
      (ground (arith, on, off, taken), ground (arith, on, off, taken, freed key, ===_refl key))

  -- The lock does not keep a second instance from generating the challenges of the same day: if the
  -- key is free and the connections are live, an instance whose job comes after that of another adds
  -- its own challenges to those that the other has added.
  pub generate_daily_challenges-twice :
      (q q' : Job) (g g' : Generation) (ls : LockState R) (rows : List ScheduledChallenge)
      → q.acquire_link ≡ live
      → q.release_link ≡ live
      → q'.acquire_link ≡ live
      → q'.release_link ≡ live
      → R.get ls.store daily_key ≡ none
      → (let (ls', (rows', _)) = generate_daily_challenges q g ls rows in
          (generate_daily_challenges q' g' ls' rows').1
          ≡ (generate_each g' challenge_types (generate_each g challenge_types rows), true))
  unfolding generate_daily_challenges
  generate_daily_challenges-twice q q' g g' ls rows on off on' off' free =
      let work : List ScheduledChallenge → List ScheduledChallenge × Bool =
        λ l. (generate_each g challenge_types l, true) in
      let work' : List ScheduledChallenge → List ScheduledChallenge × Bool =
        λ l. (generate_each g' challenge_types l, true) in
      let r : LockState R × (List ScheduledChallenge × Bool) =
        under_lock q daily_key work ls rows in
      let (done, freed) = under_lock_free q daily_key work ls rows on off free in
      let (done', _) = under_lock_free q' daily_key work' r.0 r.1.0 on' off' freed in
      done' ∙ ap (λ (p : List ScheduledChallenge × Bool). work' p.0) done

  -- If the key is held, and the connection is live, no challenge is generated and the lock is as it
  -- was.
  pub generate_daily_challenges-held :
      (q : Job) (g : Generation) (ls : LockState R) (rows : List ScheduledChallenge) (held : String)
      → q.acquire_link ≡ live
      → R.get ls.store daily_key ≡ some held
      → generate_daily_challenges q g ls rows ≡ (ls, (rows, true))
  unfolding generate_daily_challenges under_lock
  generate_daily_challenges-held q g ls rows held on taken =
      ground (arith, on, acquire_held R L q.config q.token daily_key held q.ttl ls taken)
