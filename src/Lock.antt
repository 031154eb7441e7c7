-- ===== src/Lock.antt =====
-- cache/distributed-lock.service.ts: a lock on the Redis connection of the cache, with a local
-- fallback. Each method takes the state of the connection at its call (`Link`), and for a token the
-- texts of the clock and of the random suffix.
pub mod Bounds
pub mod Exclusion
pub mod Ownership
mod Tests
use Prim.Native.String.{◌++◌ as append}
use proof_stell_backend.Common.{
  ℕ, ◌+◌, String, Bool, true, false, Option, none, some, List, [], length, ◌===◌, ◌==◌,
  if◌then◌else◌,
}
use proof_stell_backend.Common.Int.{ℤ, pos, ltb_ℤ}
use proof_stell_backend.Common.StringSet.{has, add, delete}
use proof_stell_backend.Redis.{Link, absent, lost, live, Redis}

-- enum LockBackend
pub data LockBackend : Type 0 where
  redis fallback : LockBackend

-- interface AcquiredLock
pub record AcquiredLock : Type 0 where
  pub key : String
  pub token : String
  pub backend : LockBackend

-- The two settings that the service reads from TypedConfigService.
pub record LockConfig : Type 0 where
  pub cron_lock_ttl_ms : ℤ
  pub scheduler_instance_id : String

-- The fields of DistributedLockService.
pub record LockService : Type 0 where
  pub active_locks : List String
  pub backend : LockBackend
  pub acquisition_failures : ℕ
  pub release_failures : ℕ

abbrev pub lock_release_ok : ℕ
lock_release_ok = 1

abbrev pub lock_release_not_held : ℕ
lock_release_not_held = 0

abbrev pub min_ttl : ℤ
min_ttl = pos 100

abbrev pub max_ttl : ℤ
max_ttl = pos 3600000

-- private normalizeTtl
unfoldable pub normalize_ttl : LockConfig → ℤ → ℤ
normalize_ttl config ttl =
    if ltb_ℤ ttl (pos 0)
    then config.cron_lock_ttl_ms
    else if ltb_ℤ ttl min_ttl
    then min_ttl
    else if ltb_ℤ max_ttl ttl
    then max_ttl
    else ttl

-- private detectBackend, called by the constructor
pub new_service : Link → LockService
new_service link = record {
  active_locks = [];
  backend = elim link [ absent ↦ fallback | _ ↦ redis ];
  acquisition_failures = 0;
  release_failures = 0;
}

-- `${schedulerInstanceId}:${Date.now()}:${Math.random()...}`, with the two texts as printed
pub holder_token : LockConfig → String → String → String
holder_token config now rand =
    append config.scheduler_instance_id (append ":" (append now (append ":" rand)))

-- getStats()
pub record LockStats : Type 0 where
  pub backend : LockBackend
  pub active_locks : ℕ
  pub acquisition_failures : ℕ
  pub release_failures : ℕ

pub get_stats : LockService → LockStats
get_stats s = record {
  backend = s.backend;
  active_locks = length s.active_locks;
  acquisition_failures = s.acquisition_failures;
  release_failures = s.release_failures;
}

-- resetStats()
pub reset_stats : LockService → LockService
reset_stats s = record s { acquisition_failures = 0; release_failures = 0 }

-- onModuleDestroy(): the local set is cleared and Redis is left alone
pub on_module_destroy : LockService → LockService
on_module_destroy s = record s { active_locks = [] }

-- The local lock, taken without Redis or after a failed call.
unfoldable pub acquire_fallback : LockService → String → String → LockService × Option AcquiredLock
acquire_fallback s key token = if has s.active_locks key then (s, none) else (
  record s { active_locks = add s.active_locks key; backend = fallback },
  some (record { key = key; token = token; backend = fallback }),
)

module _ (R : Redis) where
  -- A service and the keyspace that it shares with the other instances.
  pub record LockState : Type 0 where
    pub service : LockService
    pub store : R.Store

  -- async acquire(key, ttlMs)
  unfoldable pub acquire :
      LockConfig → Link → String → String → ℤ → LockState → LockState × Option AcquiredLock
  acquire config absent token key ttl st =
      -- `this.backend = FALLBACK` comes before the local test
      let (s, got) = acquire_fallback (record st.service { backend = fallback }) key token in
      (record { service = s; store = st.store }, got)
  acquire config (lost applied) token key ttl st =
      let failed = record st.service {
        acquisition_failures = st.service.acquisition_failures + 1;
      } in
      let (s, got) = acquire_fallback failed key token in
      (
        record {
          service = s;
          store =
              if applied then R.set_nx st.store key token (normalize_ttl config ttl) else st.store;
        },
        got,
      )
  acquire config live token key ttl st =
      let store = R.set_nx st.store key token (normalize_ttl config ttl) in
      if R.set_nx_ok st.store key token (normalize_ttl config ttl)
      then (
        record {
          service = record st.service {
            active_locks = add st.service.active_locks key;
            backend = redis;
          };
          store = store;
        },
        some (record { key = key; token = token; backend = redis }),
      )
      else (record st { store = store }, none)

  -- RELEASE_LOCK_LUA: the keyspace after the script, and its reply
  unfoldable pub release_script : String → String → R.Store → R.Store × ℕ
  release_script key token store = elim (R.get store key) [
    | none ↦ (store, lock_release_not_held)
    | some held ↦
        if held === token
        then (R.del store key, R.del_reply store key)
        else (store, lock_release_not_held)
  ]

  -- release of a lock that was taken in Redis
  unfoldable pub release_redis : Link → AcquiredLock → LockState → LockState × Bool
  release_redis absent lock st = (st, true)
  release_redis (lost applied) lock st = (
    record {
      service = record st.service { release_failures = st.service.release_failures + 1 };
      store = if applied then (release_script lock.key lock.token st.store).0 else st.store;
    },
    false,
  )
  release_redis live lock st =
      let (store, reply) = release_script lock.key lock.token st.store in
      (record st { store = store }, reply == lock_release_ok)

  -- async release(lock)
  unfoldable pub release : Link → Option AcquiredLock → LockState → LockState × Bool
  release link none st = (st, false)
  release link (some lock) st =
      let forgotten = record st {
        service = record st.service { active_locks = delete st.service.active_locks lock.key };
      } in
      elim lock.backend [ fallback ↦ (forgotten, true) | redis ↦ release_redis link lock forgotten ]

  -- async runWithLock(key, ttlMs, work): `work` may change the keyspace and the service, and it
  -- returns or throws; a throw passes through the `finally`
  pub run_with_lock {ℓ} :
      {A : Type ℓ}
      → LockConfig
      → Link
      → Link
      → String
      → String
      → ℤ
      → (LockState → LockState × A)
      → LockState
      → LockState × Option A
  run_with_lock config link link' token key ttl work st =
      let (st', got) = acquire config link token key ttl st in
      elim got [
        | none ↦ (st', none)
        | some lock ↦
            let (st'', result) = work st' in ((release link' (some lock) st'').0, some result)
      ]
