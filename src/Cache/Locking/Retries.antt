-- ===== src/Cache/Locking/Retries.antt =====
-- How often acquireLock tries, how long it waits, and what withLock leaves.
use proof_stell_backend.Common.{
  ℕ, zero, suc, ◌+◌, ◌*◌, ◌≤◌, ◌<◌, String, ◌≡◌, refl, sym, Option, none, arith, inl, inr,
  Option-cases,
}
use native.Mathlib.Decide.{dec_lt}
use proof_stell_backend.Common.Int.{ℤ}
use proof_stell_backend.Redis.{Redis}
use proof_stell_backend.Lock.{AcquiredLock, LockConfig, LockState}
use proof_stell_backend.Cache.Locking.{Surroundings, Attempts, try, attempt_from, acquire_lock}

module _ (R : Redis) (config : LockConfig) (w : Surroundings R) (key : String) (ttl : ℤ) where
  -- The state in which the round `n` starts if all the rounds before it were refused.
  pub before_round : ℕ → LockState R → LockState R
  before_round zero st = st
  before_round (suc n) st = w.meanwhile n (try R config w key ttl n (before_round n st)).0

  abbrev outcome : ℕ → LockState R → Option AcquiredLock
  outcome n st = (try R config w key ttl n (before_round n st)).1

  -- The run has stopped in the round `n`: those before were refused, and each cost its wait.
  pub record StoppedAt (first last n : ℕ) (waited : ℕ) (st : LockState R) (a : Attempts R)
      : Type 0 where
    pub refused : (i : ℕ) → first ≤ i → i < n → outcome i st ≡ none
    pub result : a.lock ≡ outcome n st
    pub state : a.state ≡ (try R config w key ttl n (before_round n st)).0
    pub attempts : a.attempts ≡ n + 1
    pub exhausted : a.lock ≡ none → n ≡ last
    pub waits : a.waited_ms + 25 * first * (first + 1) ≡ waited + 25 * n * (n + 1)

  attempt_from-StoppedAt :
      (left first waited : ℕ) (st : LockState R)
      → (n : ℕ) × (first ≤ n)
        × (n ≤ first + left)
        × StoppedAt first
            (first + left)
            n
            waited
            st
            (attempt_from R config w key ttl left first waited (before_round first st))
  unfolding attempt_from before_round
  attempt_from-StoppedAt zero first waited st = (
    first,
    omega arith,
    omega arith,
    record {
      refused = λ i h k. absurd (omega arith);
      result = refl;
      state = refl;
      attempts = refl;
      exhausted = λ h. omega arith;
      waits = refl;
    },
  )
  attempt_from-StoppedAt (suc left) first waited st = elim (Option-cases (outcome first st)) [
    | inr (lock, e) ↦
        rw (e, attempt_from)
          (
            first,
            omega arith,
            omega arith,
            record {
              refused = λ i h k. absurd (omega arith);
              result = sym e;
              state = refl;
              attempts = refl;
              exhausted = λ h. cc;
              waits = refl;
            },
          )
    | inl e ↦
        rw (e, attempt_from)
          (let (n, low, high, stopped) =
              attempt_from-StoppedAt left (suc first) (waited + 50 * (first + 1)) st in
            (
              n,
              omega arith,
              omega arith,
              record {
                refused = λ i h k. elim (dec_lt first i) [
                  | yes p ↦ stopped.refused i p k
                  | no p ↦ let same : i ≡ first = omega arith in rw same e
                ];
                result = stopped.result;
                state = stopped.state;
                attempts = stopped.attempts;
                exhausted = λ h. omega (arith, stopped.exhausted h);
                waits = omega (arith, stopped.waits);
              },
            ))
  ]

  -- `acquireLock` stops in some round n ≤ `retries` with the answer of that round: all the rounds
  -- before it were refused, n + 1 attempts were made, the waits add up to 25 n (n + 1) ms, and if it
  -- returns null then n is `retries`.
  pub acquire_lock-StoppedAt :
      (retries : ℕ) (st : LockState R)
      → (n : ℕ) × (n ≤ retries)
        × StoppedAt 0 retries n 0 st (acquire_lock R config w key ttl retries st)
  unfolding acquire_lock before_round
  acquire_lock-StoppedAt retries st =
      let (n, low, high, stopped) = attempt_from-StoppedAt retries 0 0 st in
      (
        n,
        omega arith,
        record {
          refused = stopped.refused;
          result = stopped.result;
          state = stopped.state;
          attempts = stopped.attempts;
          exhausted = λ h. omega (arith, stopped.exhausted h);
          waits = stopped.waits;
        },
      )
