-- ===== src/Lock/Tests.antt =====
-- Runs of the lock service over a small keyspace.
use proof_stell_backend.Common.{ℕ, String, ◌≡◌, refl, Option, none, some, [], if◌then◌else◌, ◌===◌}
use proof_stell_backend.Common.Int.{pos}
use proof_stell_backend.Redis.{live, memory_redis, memory_redis-RedisLaws}
use proof_stell_backend.Lock.{
  redis, AcquiredLock, LockConfig, LockService, LockState, normalize_ttl, acquire, release,
  run_with_lock, holder_token, release_script, release_redis, acquire_fallback,
}
use proof_stell_backend.Lock.Exclusion.{Rival, Rivals, Rivals-excluded}

abbrev config : LockConfig
config = record { cron_lock_ttl_ms = pos 300000; scheduler_instance_id = "worker-1" }

abbrev idle : LockService
idle = record { active_locks = []; backend = redis; acquisition_failures = 0; release_failures = 0 }

-- "job" is held by another worker, every other key is free.
abbrev held_store : String → Option String
held_store k = if "job" === k then some "w2" else none

abbrev held_state : LockState memory_redis
held_state = record { service = idle; store = held_store }

abbrev free_state : LockState memory_redis
free_state = record { service = idle; store = λ k. none }

runs : Unit {0}
unfolding acquire release release_redis release_script acquire_fallback run_with_lock normalize_ttl
    holder_token
runs = tt

token_test : holder_token config "1700" "x1" ≡ "worker-1:1700:x1"
unfolding runs
token_test = refl

abbrev own : AcquiredLock
own = record { key = "job"; token = "w2"; backend = redis }

abbrev stale : AcquiredLock
stale = record { key = "job"; token = "w1"; backend = redis }

-- Another worker has tried in vain to take the key.
abbrev after_rival : String → Option String
after_rival = (acquire memory_redis config live "w1" "job" (pos 500) held_state).0.store

Rivals-excluded_example :
    (after_rival "job" ≡ some "w2")
    × (acquire memory_redis config live "w3" "job"
          (pos 500)
          (record { service = idle; store = after_rival })
        ≡ (record { service = idle; store = after_rival }, none))
Rivals-excluded_example =
    Rivals-excluded memory_redis memory_redis-RedisLaws "job" "w2" {s = held_store}
      {u = after_rival} config "w3" (pos 500) idle
      (Rivals.and_then Rivals.none_yet (Rival.acquires config live "w1" "job" (pos 500) held_state))
      refl

abbrev answer : LockState memory_redis → LockState memory_redis × ℕ
answer st = (st, 42)
