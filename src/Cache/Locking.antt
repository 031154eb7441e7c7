-- ===== src/Cache/Locking.antt =====
-- cache/cache.service.ts, acquireLock, releaseLock and withLock: the lock service with retries.
-- An attempt has its own connection state and token; between two attempts the service waits, and the
-- rest of the cluster may change the keyspace (`meanwhile`).
pub mod Retries
pub mod Nested
use proof_stell_backend.Common.{
  ℕ, zero, suc, ◌+◌, ◌*◌, String, Bool, true, false, Option, none, some,
}
use proof_stell_backend.Common.Int.{ℤ}
use proof_stell_backend.Redis.{Link, Redis}
use proof_stell_backend.Lock.{AcquiredLock, LockConfig, LockState, acquire, release}

module _ (R : Redis) where
  -- What the world contributes to a run of acquireLock, by the number of the attempt.
  pub record Surroundings : Type 0 where
    pub link : ℕ → Link
    pub token : ℕ → String
    pub meanwhile : ℕ → LockState R → LockState R

  pub record Attempts : Type 0 where
    pub state : LockState R
    pub lock : Option AcquiredLock
    pub attempts : ℕ
    pub waited_ms : ℕ

  module _ (config : LockConfig) (w : Surroundings) (key : String) (ttl : ℤ) where
    -- this.distributedLockService.acquire(key, ttl) in the round `attempt`
    unfoldable pub try : ℕ → LockState R → LockState R × Option AcquiredLock
    try attempt st = acquire R config (w.link attempt) (w.token attempt) key ttl st

    -- for (let attempt = 0; attempt <= retries; attempt++), from the round `attempt` with `left`
    -- rounds after it
    unfoldable pub attempt_from : ℕ → ℕ → ℕ → LockState R → Attempts
    attempt_from zero attempt waited st =
        let (st', got) = try attempt st in
        record { state = st'; lock = got; attempts = attempt + 1; waited_ms = waited }
    attempt_from (suc left) attempt waited st =
        let (st', got) = try attempt st in
        let rest =
          attempt_from left (suc attempt) (waited + 50 * (attempt + 1)) (w.meanwhile attempt st') in
        elim got [
          | some lock ↦ record {
            state = st';
            lock = some lock;
            attempts = attempt + 1;
            waited_ms = waited;
          }
          | none ↦ rest
        ]

    -- async acquireLock(key, ttl, retries)
    unfoldable pub acquire_lock : ℕ → LockState R → Attempts
    acquire_lock retries st = attempt_from retries 0 0 st

  -- async releaseLock(lock)
  unfoldable pub release_lock : Link → Option AcquiredLock → LockState R → LockState R × Bool
  release_lock link none st = (st, false)
  release_lock link (some lock) st = release R link (some lock) st

  -- async withLock(key, ttl, callback), with the default of three retries
  unfoldable pub with_lock {ℓ} :
      {A : Type ℓ}
      → LockConfig
      → Surroundings
      → Link
      → String
      → ℤ
      → (LockState R → LockState R × A)
      → LockState R
      → LockState R × Option A
  with_lock config w link key ttl callback st =
      let a = acquire_lock config w key ttl 3 st in
      elim a.lock [
        | none ↦ (a.state, none)
        | some lock ↦
            let (st', result) = callback a.state in
            ((release_lock link (some lock) st').0, some result)
      ]
