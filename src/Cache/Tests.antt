-- ===== src/Cache/Tests.antt =====
-- Runs of the cache service over a cache manager that is a function.
use proof_stell_backend.Common.{
  ℕ, ◌+◌, ◌*◌, String, ◌≡◌, refl, true, false, Option, none, some, List, [], ◌∷◌, if◌then◌else◌,
  ◌===◌, ◌==◌, arith,
}
use proof_stell_backend.Common.Int.{pos}
use proof_stell_backend.Redis.{live, memory_redis}
use proof_stell_backend.Lock.{LockConfig, LockState, redis}
use proof_stell_backend.Cache.{CacheManager, CacheLaws, CacheState, new_counters, normalize_ttl}
use proof_stell_backend.Cache.Counting.{Call, get_call, increment_call}
use proof_stell_backend.Cache.Locking.{Surroundings}
use proof_stell_backend.Cache.Waiting.{
  Polls, value, missing, failed, threw, found, poll_from, wait_for_value, Ends, wait_for_value-Ends,
}

abbrev numbers : CacheManager ℕ
numbers = record {
  Store = String → Option ℕ;
  get = λ s k. s k;
  set = λ s k v ttl j. if k === j then some v else s j;
  del = λ s k j. if k === j then none else s j;
}

numbers-CacheLaws : CacheLaws numbers
numbers-CacheLaws = record { get-set = λ s k j v ttl. refl; get-del = λ s k j. refl }

abbrev start : CacheState numbers
start = record { counters = new_counters false; store = λ k. if "hits" === k then some 4 else none }

abbrev read_number : Option ℕ → ℕ
read_number none = 0
read_number (some n) = n

abbrev calls : List (Call numbers none read_number (λ n. n))
calls =
    get_call true "hits"
    ∷ get_call true "x"
    ∷ get_call false "x"
    ∷ increment_call true true "hits" none
    ∷ []

abbrev config : LockConfig
config = record { cron_lock_ttl_ms = pos 300000; scheduler_instance_id = "worker-1" }

-- The key is free from the second attempt on.
abbrev surroundings : Surroundings memory_redis
surroundings = record {
  link = λ n. live;
  token = λ n. "w1";
  meanwhile = λ n st. record st { store = λ k. none };
}

abbrev held_state : LockState memory_redis
held_state = record {
  service = record {
    active_locks = [];
    backend = redis;
    acquisition_failures = 0;
    release_failures = 0;
  };
  store = λ k. if "job" === k then some "w2" else none;
}

abbrev polls : Polls ℕ
polls = record { now = λ n. 100 * n; seen = λ n. if n == 2 then value 7 else missing }

wait_for_value-Ends_example :
    Ends polls (λ v. true) (0 + 250) 0 (wait_for_value polls (λ v. true) 0 250 251)
wait_for_value-Ends_example =
    wait_for_value-Ends polls (λ v. true) 0 250 251 (λ k. omega arith) (omega arith) (omega arith)

thrown :
    wait_for_value
      (record polls { seen = λ n. if n == 1 then failed else missing })
      (λ (n : ℕ). true)
      0
      250
      10
    ≡ threw 2
unfolding wait_for_value poll_from
thrown = refl

polled : wait_for_value polls (λ v. true) 0 250 10 ≡ found 7 3
unfolding wait_for_value poll_from
polled = refl

capped : normalize_ttl (some (pos 40000000)) ≡ some (pos 31536000)
unfolding normalize_ttl
capped = refl
